-- ===== src/Store/Operations/Reach.antt =====
-- Whatever operations run, the files of the store hold its records.
use github_runners_infra.Prelude.{
  ℕ, Bool, true, false, Text, Option-cases, Bool-cases, inl, inr, not, ◌||◌, ◌==◌, if◌then◌else◌,
  text_eq, is_empty,
}
use github_runners_infra.Dict.{get}
use github_runners_infra.Record.{
  status_is, work_is, provisioned as is_provisioned, deleting, work_delete,
}
use github_runners_infra.Store.{FileStore, Os, Result}
use github_runners_infra.Store.Save.Outcome.{RollbackWorks}
use github_runners_infra.Store.Update.Durable.{IsDurable, write_record-IsDurable}
use github_runners_infra.Store.Observe.{
  observe_runner_missing, observe_github_runner_missing, mark_deletion_accepted,
  begin_cleanup_attempt, cleanup_ready,
}
use github_runners_infra.Store.Claim.{set_max_live_runners}
use github_runners_infra.Store.Completion.Durable.{create-IsDurable, record_completion-IsDurable}
use github_runners_infra.Store.Registration.Durable.{mark_jit_created-IsDurable}
use github_runners_infra.Store.Sweep.Durable.{
  release_swept_orphans-IsDurable, prune_deleted-IsDurable,
}
use github_runners_infra.Store.Open.{close}
use github_runners_infra.Store.Operations.{
  Step, updated, provisioned, identity_indexed, claimed, limited, provider_observed,
  github_observed, deletion_accepted, cleanup_begun, created, completed, jit_created, swept, pruned,
  closed, Reaches, start, then_step,
}
use github_runners_infra.Store.Operations.Durable.{
  update_with-IsDurable, mark_provisioned-IsDurable, index_runner-IsDurable, claim_next-IsDurable,
}

-- A test before a write: either branch is durable.
if-IsDurable {ℓ} :
    {A : Type ℓ} (b : Bool) (x y : Result A × FileStore)
    → IsDurable x.1
    → IsDurable y.1
    → IsDurable (if b then x else y).1
if-IsDurable true x y p q = p
if-IsDurable false x y p q = q

module _ (os : Os) (key : Text) (s : FileStore) (works : RollbackWorks os) (d : IsDurable s) where
  observe_runner_missing-IsDurable :
      (now settle_window confirmations : ℕ)
      → IsDurable (observe_runner_missing os key now settle_window confirmations s).1
  unfolding observe_runner_missing
  observe_runner_missing-IsDurable now settle_window confirmations =
      elim (Option-cases (get key s.records)) [
        | inl e ↦ rw (e, observe_runner_missing) d
        | inr (r, e) ↦
            rw (e, observe_runner_missing)
              (if-IsDurable (not (status_is is_provisioned r.status)) _ _ d
                (write_record-IsDurable os key r _ _ s works e d))
      ]

  observe_github_runner_missing-IsDurable :
      (now settle_window confirmations : ℕ)
      → IsDurable (observe_github_runner_missing os key now settle_window confirmations s).1
  unfolding observe_github_runner_missing
  observe_github_runner_missing-IsDurable now settle_window confirmations =
      elim (Option-cases (get key s.records)) [
        | inl e ↦ rw (e, observe_github_runner_missing) d
        | inr (r, e) ↦
            rw (e, observe_github_runner_missing)
              (if-IsDurable (not (status_is is_provisioned r.status)) _ _ d
                (write_record-IsDurable os key r _ _ s works e d))
      ]

  mark_deletion_accepted-IsDurable :
      (now : ℕ) (instance_id : Text) → IsDurable (mark_deletion_accepted os key now instance_id s).1
  unfolding mark_deletion_accepted
  mark_deletion_accepted-IsDurable now instance_id = elim (Option-cases (get key s.records)) [
    | inl e ↦ rw (e, mark_deletion_accepted) d
    | inr (r, e) ↦
        rw (e, mark_deletion_accepted)
          (if-IsDurable
            (is_empty instance_id
              || not (text_eq r.instance_id instance_id)
              || not (status_is deleting r.status)
              || not (work_is work_delete r.claimed_work))
            _ _ d (write_record-IsDurable os key r _ _ s works e d))
  ]

  begin_cleanup_attempt-IsDurable :
      (due now max_attempts : ℕ) → IsDurable (begin_cleanup_attempt os key due now max_attempts s).1
  unfolding begin_cleanup_attempt
  begin_cleanup_attempt-IsDurable due now max_attempts = elim (Option-cases (get key s.records)) [
    | inl e ↦ rw (e, begin_cleanup_attempt) d
    | inr (r, e) ↦
        rw (e, begin_cleanup_attempt)
          (if-IsDurable (not (cleanup_ready due r)) _ _ d
            (write_record-IsDurable os key r _ _ s works e d))
  ]

limit-IsDurable :
    (limit : ℕ) (s : FileStore) → IsDurable s → IsDurable (set_max_live_runners limit s).1
unfolding set_max_live_runners
limit-IsDurable limit s d =
    if-IsDurable (limit == 0) _ _ d (record { holds = d.holds; saved = d.saved })

close-IsDurable : (s : FileStore) → IsDurable s → IsDurable (close s)
unfolding close
close-IsDurable s d = elim (Bool-cases s.locked) [
  | inl e ↦ simp e (record { holds = d.holds; saved = d.saved })
  | inr e ↦ simp e d
]

pub Step-IsDurable : {s t : FileStore} → Step s t → IsDurable s → IsDurable t
Step-IsDurable {s} (updated os now key mutate w) d = update_with-IsDurable os now key mutate s w d
Step-IsDurable {s} (provisioned os at now key i id n w) d =
    mark_provisioned-IsDurable os at now key i id n s w d
Step-IsDurable {s} (identity_indexed key r) d = index_runner-IsDurable key r s d
Step-IsDurable {s} (claimed os b a now m w) d = claim_next-IsDurable os b a now m s w d
Step-IsDurable {s} (limited limit) d = limit-IsDurable limit s d
Step-IsDurable {s} (provider_observed os key now w c h) d =
    observe_runner_missing-IsDurable os key s h d now w c
Step-IsDurable {s} (github_observed os key now w c h) d =
    observe_github_runner_missing-IsDurable os key s h d now w c
Step-IsDurable {s} (deletion_accepted os key now i w) d =
    mark_deletion_accepted-IsDurable os key s w d now i
Step-IsDurable {s} (cleanup_begun os key due now m w) d =
    begin_cleanup_attempt-IsDurable os key s w d due now m
Step-IsDurable {s} (created os now r w) d = create-IsDurable os w s d now r
Step-IsDurable {s} (completed os now c w) d = record_completion-IsDurable os w s d now c
Step-IsDurable {s} (jit_created os now key id n w) d =
    mark_jit_created-IsDurable os w s d now key id n
Step-IsDurable {s} (swept os clock p c w) d = release_swept_orphans-IsDurable os w s d clock p c
Step-IsDurable {s} (pruned os now w) d = prune_deleted-IsDurable os w s d now
Step-IsDurable {s} closed d = close-IsDurable s d

pub Reaches-IsDurable : {s t : FileStore} → IsDurable s → Reaches s t → IsDurable t
Reaches-IsDurable d start = d
Reaches-IsDurable d (then_step r st) = Step-IsDurable st (Reaches-IsDurable d r)
