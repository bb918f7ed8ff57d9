-- ===== src/Store/Claim/Answer.antt =====
-- `ClaimNext` of internal/state/store.go: the loop over the keys, and what the call answers.
use github_runners_infra.Prelude.{
  ℕ, Bool, true, false, ◌||◌, none, some, List, [], ◌∷◌, Text, text_eq, text_eq_iff, ◌≡◌, inl, inr,
  refl, arith, Bool-cases, mem,
}
use github_runners_infra.Dict.{Dict, get, keys}
use github_runners_infra.Record.{Record}
use github_runners_infra.Store.{FileStore, Os, Result, ok, err, continue}
use github_runners_infra.Store.Claim.{
  live_runner_count, round, claim_loop, claim_next, refresh_ordered_keys, go_on, Claimed,
  insert_key, sort_keys,
}
use github_runners_infra.Store.Claim.Admission.{records-refresh, max_live_runners-refresh}
use github_runners_infra.Store.Claim.Order.{IsClaimable, IsHandedOut, IsRound, round_on-IsRound}

-- The loop over the keys.
abbrev IsLoop : ℕ → ℕ → ℕ → List Text → FileStore → Result Claimed × FileStore → Type 0
IsLoop now max_attempts live ks s (ok none, s') =
    (k : Text) (r : Record)
    → mem k ks ≡ true
    → get k s.records ≡ some r
    → IsClaimable now max_attempts live s.max_live_runners r
    → ⊥
IsLoop now max_attempts live ks s (ok (some (r, kind)), s') =
    (key : Text) × (get key s'.records ≡ some r) × IsHandedOut now max_attempts kind r
IsLoop now max_attempts live ks s (err e, s') = Unit

module _ (now max_attempts live : ℕ) (key : Text) (ks : List Text) (s : FileStore) where
  -- What the rest of the loop found, put behind the first round.
  rest-IsLoop :
      (s1 : FileStore) (o : Result Claimed × FileStore)
      → IsRound now max_attempts live key s (ok none, s1)
      → IsLoop now max_attempts live ks s1 o
      → IsLoop now max_attempts live (key ∷ ks) s o
  unfolding mem
  rest-IsLoop s1 (ok none, s2) first rest = λ k r m e c. elim (Bool-cases (text_eq key k)) [
    | inl same ↦ first.2 r (ground (arith, text_eq_iff key k, e)) c
    | inr other ↦ rest k r (ground arith) (ground (arith, first.0 k other, e)) (rw (first.1) c)
  ]
  rest-IsLoop s1 (ok (some x), s2) first rest = rest
  rest-IsLoop s1 (err e, s2) first rest = tt

  continue-IsLoop :
      (rest : FileStore → Result Claimed × FileStore)
      → ((s1 : FileStore) → IsLoop now max_attempts live ks s1 (rest s1))
      → (o : Result Claimed × FileStore) → IsRound now max_attempts live key s o
      → IsLoop now max_attempts live (key ∷ ks) s (continue o.0 (go_on rest) o.1)
  continue-IsLoop rest ih (ok none, s1) first = rest-IsLoop s1 (rest s1) first (ih s1)
  continue-IsLoop rest ih (ok (some (r, kind)), s1) first = (key, first.0, first.1)
  continue-IsLoop rest ih (err e, s1) first = tt

claim_loop-IsLoop :
    (os : Text → Os) (now max_attempts live : ℕ) (ks : List Text) (s : FileStore)
    → IsLoop now max_attempts live ks s (claim_loop os now max_attempts live ks s)
unfolding claim_loop mem
claim_loop-IsLoop os now max_attempts live [] s = λ k r m e c. cc
claim_loop-IsLoop os now max_attempts live (key ∷ ks) s =
    continue-IsLoop now max_attempts live key ks s (claim_loop os now max_attempts live ks)
      (claim_loop-IsLoop os now max_attempts live ks) (round (os key) now max_attempts live key s)
      (unfold round in
        round_on-IsRound (os key) now max_attempts live key s (get key s.records) refl)

mem-insert_key : (k j : Text) (ks : List Text) → mem k (insert_key j ks) ≡ (mem k (j ∷ ks))
unfolding insert_key mem
mem-insert_key k j [] = refl
mem-insert_key k j (i ∷ ks) = ground (arith, mem-insert_key k j ks)

pub mem-sort_keys : (k : Text) (ks : List Text) → mem k (sort_keys ks) ≡ mem k ks
unfolding sort_keys mem
mem-sort_keys k [] = refl
mem-sort_keys k (j ∷ ks) = ground (arith, mem-insert_key k j (sort_keys ks), mem-sort_keys k ks)

mem-keys : (k : Text) (d : Dict Record) {r : Record} → get k d ≡ some r → mem k (keys d) ≡ true
unfolding get keys mem
mem-keys k [] h = cc
mem-keys k ((j, q) ∷ d) {r = r} h = ground (arith, mem-keys k d {r = r})

-- The cached keys are those of the records, unless the cache is marked as out of date.
pub record IsKeyed (s : FileStore) : Type 0 where
  pub cached :
      (k : Text) (r : Record)
      → s.keys_dirty ≡ false
      → get k s.records ≡ some r
      → mem k s.ordered_keys ≡ true

mem-refresh :
    (s : FileStore) (k : Text) (r : Record)
    → IsKeyed s
    → get k s.records ≡ some r
    → mem k (refresh_ordered_keys s).ordered_keys ≡ true
unfolding refresh_ordered_keys
mem-refresh s k r keyed e =
    ground (arith, keyed.cached k r, mem-sort_keys k (keys s.records), mem-keys k s.records e)

-- What `ClaimNext` answers: a claim is in the store under some key, was free and due, and spends one
-- attempt of a budget that it keeps to; no claim means that no record could be claimed.
abbrev pub IsAnswered : ℕ → ℕ → FileStore → Result Claimed × FileStore → Type 0
IsAnswered now max_attempts s (ok none, s') =
    (k : Text) (r : Record)
    → get k s.records ≡ some r
    → IsClaimable now max_attempts (live_runner_count s.records) s.max_live_runners r
    → ⊥
IsAnswered now max_attempts s (ok (some (r, kind)), s') =
    (key : Text) × (get key s'.records ≡ some r) × IsHandedOut now max_attempts kind r
IsAnswered now max_attempts s (err e, s') = Unit

answered :
    (now max_attempts : ℕ) (s : FileStore) (o : Result Claimed × FileStore)
    → IsKeyed s
    → IsLoop now max_attempts
        (live_runner_count s.records)
        (refresh_ordered_keys s).ordered_keys
        (refresh_ordered_keys s)
        o
    → IsAnswered now max_attempts s o
answered now max_attempts s (ok none, s') keyed h = λ k r e c.
    h k r (mem-refresh s k r keyed e) (rw (records-refresh s) e) (rw (max_live_runners-refresh s) c)
answered now max_attempts s (ok (some x), s') keyed h = h
answered now max_attempts s (err e, s') keyed h = tt

-- Where the cache of the keys is up to date or marked dirty, `ClaimNext` answers a record with a
-- kind of work only if the store now holds it, claimed for that work, with no retry time, stamped
-- with the current time, as a provisioning or (with an instance) a deleting record, whose attempts
-- of that kind are at least one and at most the maximum; it answers nothing only if no record of
-- the store was claimable; an error says nothing.
pub claim_next-answers :
    (os : Text → Os) (canceled_before canceled_after : Bool) (now max_attempts : ℕ) (s : FileStore)
    → IsKeyed s
    → IsAnswered now max_attempts s
        (claim_next os canceled_before canceled_after now max_attempts s)
unfolding claim_next
claim_next-answers os canceled_before canceled_after now max_attempts s keyed =
    elim (Bool-cases (canceled_before || canceled_after)) [
      | inl c ↦ rw c tt
      | inr c ↦ rw c (
          answered now max_attempts s _ keyed (
            rw (records-refresh s) (
              claim_loop-IsLoop os now max_attempts (live_runner_count s.records) _
                (refresh_ordered_keys s))))
    ]
