-- ===== src/Record/Recovering/Idle.antt =====
-- internal/state/store.go, `recoverRecord`: in which states opening leaves a record.
use github_runners_infra.Prelude.{
  ℕ, ◌+◌, ◌≤◌, ◌<◌, ◌&&◌, Bool, true, false, Bool-cases, inl, inr, [], is_empty, ◌≡◌, ◌≢◌, ◌⊎◌,
  refl, arith, codes, ap, ◌↔◌,
}
use github_runners_infra.Record.{
  Record, no_work, pending, provisioning, completed, deleting, deleted, status_is, older_than,
}
use github_runners_infra.Record.Recovering.{recover_record, repair, recover_interrupted_work}

-- Nobody works on the record, and its provider is known.
pub record IsIdle (r : Record) : Type 0 where
  pub unclaimed : r.claimed_work ≡ no_work
  pub not_provisioning : r.status ≢ provisioning
  pub not_deleting : r.status ≢ deleting
  pub provider : r.provider ≢ []

-- What a restart keeps: who the record is about and what must be deleted; it gives back at most the
-- one attempt that it interrupted.
pub record IsSameWork (r r' : Record) : Type 0 where
  pub key : r'.key ≡ r.key
  pub runner_name : r'.runner_name ≡ r.runner_name
  pub github_runner_id : r'.github_runner_id ≡ r.github_runner_id
  pub instance_id : r.instance_id ≢ [] → r'.instance_id ≡ r.instance_id
  pub attempts_spent : r'.attempts ≤ r.attempts
  pub attempts_refunded : r.attempts ≤ r'.attempts + 1
  pub delete_attempts_spent : r'.delete_attempts ≤ r.delete_attempts
  pub delete_attempts_refunded : r.delete_attempts ≤ r'.delete_attempts + 1
  pub status :
      ((r.status ≡ provisioning) × (r'.status ≡ pending))
      ⊎ ((r.status ≡ deleting) × (r'.status ≡ completed))
      ⊎ (r'.status ≡ r.status)

-- Each repair keeps what an earlier one established.
repair-unclaimed : (now : ℕ) (r : Record) → (repair now r).0.claimed_work ≡ no_work
unfolding repair recover_interrupted_work
repair-unclaimed now r = ground arith

repair-not_interrupted :
    (now : ℕ) (r : Record)
    → ((repair now r).0.status ≢ provisioning) × ((repair now r).0.status ≢ deleting)
unfolding repair recover_interrupted_work
repair-not_interrupted now r = (ground arith, ground arith)

repair-provider : (now : ℕ) (r : Record) → is_empty (repair now r).0.provider ≡ false
unfolding repair recover_interrupted_work codes
repair-provider now r = ground arith

repair-IsIdle : (now : ℕ) (r : Record) → IsIdle (repair now r).0
repair-IsIdle now r = record {
  unclaimed = repair-unclaimed now r;
  not_provisioning = (repair-not_interrupted now r).0;
  not_deleting = (repair-not_interrupted now r).1;
  provider = λ e. cc (repair-provider now r, ap is_empty e);
}

repair-IsSameWork : (now : ℕ) (r : Record) → IsSameWork r (repair now r).0
unfolding repair recover_interrupted_work
repair-IsSameWork now r = record {
  key = ground arith;
  runner_name = ground arith;
  github_runner_id = ground arith;
  instance_id = ground arith;
  attempts_spent = ground arith;
  attempts_refunded = ground arith;
  delete_attempts_spent = ground arith;
  delete_attempts_refunded = ground arith;
  status = ground arith;
}

repair-unchanged : (now : ℕ) (r : Record) → (repair now r).1 ≡ false → (repair now r).0 ≡ r
unfolding repair recover_interrupted_work
repair-unchanged now r h = ground arith

-- The record, whether it is kept and whether it changed.
abbrev pub IsRecovered : ℕ → ℕ → Record → Record × Bool × Bool → Type 0
IsRecovered now retention r (r', kept, changed) =
    ((kept ≡ false) ↔ (r.status ≡ deleted) × (r.updated_at + retention < now))
    × (kept ≡ true → IsIdle r' × IsSameWork r r')
    × (changed ≡ false → r' ≡ r)

-- Opening drops a record exactly if it is deleted and older than the retention. One that it keeps
-- has no claim, is neither provisioning nor deleting, and names a provider; its key, runner and
-- any instance are those it had, its status is the same but for the two interrupted ones, which go back
-- to pending and completed, and of each budget at most one attempt is given back. A record that is
-- not reported as changed is the one that was read.
pub recover_record-IsRecovered :
    (now retention : ℕ) (r : Record) → IsRecovered now retention r (recover_record now retention r)
unfolding recover_record
recover_record-IsRecovered now retention r =
    elim (Bool-cases (status_is deleted r.status && older_than r.updated_at now retention)) [
      | inl gone ↦ rw gone (ground arith, λ h. absurd (ground arith), λ h. refl)
      | inr kept ↦ rw kept (
        ground arith,
        λ h. (repair-IsIdle now r, repair-IsSameWork now r),
        repair-unchanged now r,
      )
    ]
