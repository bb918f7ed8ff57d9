-- ===== src/Store/Operations/Durable.antt =====
-- Every operation keeps the store durable, so that reopening its files gives its records back.
use github_runners_infra.Prelude.{
  ℕ, Bool, Option, none, some, List, [], ◌∷◌, Text, ◌≡◌, refl, Option-cases, Bool-cases, inl, inr,
  ◌||◌, text_eq,
}
use github_runners_infra.Dict.{get}
use github_runners_infra.Record.{Record}
use github_runners_infra.Store.{FileStore, Os, Result, ok, err, continue}
use github_runners_infra.Store.Save.Outcome.{RollbackWorks}
use github_runners_infra.Store.Update.{update_with}
use github_runners_infra.Store.Update.Durable.{IsDurable, write_record-IsDurable}
use github_runners_infra.Store.Methods.{mark_provisioned, provisioned_and_indexed, index_runner}
use github_runners_infra.Store.Claim.{
  Verdict, skip, give_up, claim, act, round, round_on, go_on, claim_loop, claim_next,
  refresh_ordered_keys, Claimed,
}
use github_runners_infra.Store.Identity.{completion_marker_key}

pub update_with-IsDurable {ℓ} :
    {A : Type ℓ} (os : Os) (now : ℕ) (key : Text) (mutate : Record → Record × A) (s : FileStore)
    → RollbackWorks os
    → IsDurable s
    → IsDurable (update_with os now key mutate s).1
unfolding update_with
update_with-IsDurable os now key mutate s works d = elim (Option-cases (get key s.records)) [
  | inl e ↦ rw (e, update_with) d
  | inr (r, e) ↦ rw (e, update_with) (write_record-IsDurable os key r _ _ s works e d)
]

pub index_runner-IsDurable :
    (key : Text) (indexed : Option Record) (s : FileStore)
    → IsDurable s
    → IsDurable (index_runner key indexed s).1
unfolding index_runner
index_runner-IsDurable key none s d = d
index_runner-IsDurable key (some r) s d =
    elim (Bool-cases
      (text_eq key (completion_marker_key r.owner r.repository r.github_runner_id))) [
        | inl e ↦ rw e d
        | inr e ↦ rw e (record { holds = d.holds; saved = d.saved })
      ]

bind-IsDurable {ℓ κ} :
    {A : Type ℓ} {B : Type κ} (o : Result A × FileStore) (f : A → FileStore → Result B × FileStore)
    → IsDurable o.1
    → ((a : A) (s : FileStore) → IsDurable s → IsDurable (f a s).1)
    → IsDurable (continue o.0 f o.1).1
bind-IsDurable (ok a, s) f d rest = rest a s d
bind-IsDurable (err e, s) f d rest = d

pub mark_provisioned-IsDurable :
    (os : Os) (at now : ℕ) (key instance_id : Text) (runner_id : ℕ) (runner_name : Text)
    (s : FileStore)
    → RollbackWorks os
    → IsDurable s
    → IsDurable (mark_provisioned os at now key instance_id runner_id runner_name s).1
unfolding mark_provisioned
mark_provisioned-IsDurable os at now key instance_id runner_id runner_name s works d =
    bind-IsDurable _ (index_runner key)
      (update_with-IsDurable os now key
        (provisioned_and_indexed at instance_id runner_id runner_name) s works d)
      (index_runner-IsDurable key)

act-IsDurable :
    (os : Os) (key : Text) (r : Record) (v : Verdict) (s : FileStore)
    → RollbackWorks os
    → get key s.records ≡ some r
    → IsDurable s
    → IsDurable (act os key r v s).1
unfolding act
act-IsDurable os key r skip s works e d = d
act-IsDurable os key r (give_up r') s works e d =
    write_record-IsDurable os key r r' none s works e d
act-IsDurable os key r (claim r' kind) s works e d =
    write_record-IsDurable os key r r' (some (r', kind)) s works e d

module _ (os : Text → Os) (works : (key : Text) → RollbackWorks (os key))
    (now max_attempts live : ℕ) where
  round_on-IsDurable :
      (key : Text) (found : Option Record) (s : FileStore)
      → get key s.records ≡ found
      → IsDurable s
      → IsDurable (round_on (os key) now max_attempts live key found s).1
  unfolding round_on
  round_on-IsDurable key none s e d = d
  round_on-IsDurable key (some r) s e d = act-IsDurable (os key) key r _ s (works key) e d

  go_on-IsDurable :
      (rest : FileStore → Result Claimed × FileStore)
      → ((s : FileStore) → IsDurable s → IsDurable (rest s).1)
      → (c : Claimed) (s : FileStore) → IsDurable s
      → IsDurable (go_on rest c s).1
  go_on-IsDurable rest ih none s d = ih s d
  go_on-IsDurable rest ih (some c) s d = d

  claim_loop-IsDurable :
      (keys : List Text) (s : FileStore)
      → IsDurable s
      → IsDurable (claim_loop os now max_attempts live keys s).1
  unfolding claim_loop
  claim_loop-IsDurable [] s d = d
  claim_loop-IsDurable (key ∷ keys) s d =
      bind-IsDurable (round (os key) now max_attempts live key s) _
        (unfold round in round_on-IsDurable key (get key s.records) s refl d)
        (go_on-IsDurable _ (claim_loop-IsDurable keys))

refresh-IsDurable : (s : FileStore) → IsDurable s → IsDurable (refresh_ordered_keys s)
unfolding refresh_ordered_keys
refresh-IsDurable s d = elim (Bool-cases s.keys_dirty) [
  | inl e ↦ simp e (record { holds = d.holds; saved = d.saved })
  | inr e ↦ simp e d
]

pub claim_next-IsDurable :
    (os : Text → Os) (before after : Bool) (now max_attempts : ℕ) (s : FileStore)
    → ((key : Text) → RollbackWorks (os key))
    → IsDurable s
    → IsDurable (claim_next os before after now max_attempts s).1
unfolding claim_next
claim_next-IsDurable os before after now max_attempts s works d =
    elim (Bool-cases (before || after)) [
      | inl e ↦ rw e d
      | inr e ↦ rw e (claim_loop-IsDurable os works now max_attempts _ _ _ (refresh-IsDurable s d))
    ]
