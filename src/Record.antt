-- ===== src/Record.antt =====
-- internal/state/store.go: the record of one workflow job and its runner. Instants are nanoseconds
-- since Go's zero time, so that 0 is `time.Time{}`; `UTC()` does not move an instant. Identifiers
-- and counters are numbers, and 0 is an identifier that is not set.
pub mod Claims
pub mod Provisioning
pub mod Reconciling
pub mod Deleting
pub mod Recovering
pub mod Transition
pub mod Terminal
pub mod Counters
use github_runners_infra.Prelude.{
  ℕ, ◌+◌, ◌≡◌, Bool, true, false, ◌&&◌, ◌||◌, not, List, Text, is_empty, ◌==◌, ltb, leb, ltb,
}
use native.Mathlib.Decide.{ℕ_discrete}

pub data Status : Type 0 where
  pending provisioning provisioned completed deleting deleted failed orphaned : Status
  -- The empty string, before a status is assigned.
  unset : Status

-- `no_work` is the empty string.
pub data WorkKind : Type 0 where
  no_work work_provision work_delete : WorkKind

-- `==` on statuses and on work kinds.
abbrev pub status_is : Status → Status → Bool
status_is pending pending = true
status_is provisioning provisioning = true
status_is provisioned provisioned = true
status_is completed completed = true
status_is deleting deleting = true
status_is deleted deleted = true
status_is failed failed = true
status_is orphaned orphaned = true
status_is unset unset = true
status_is _ _ = false

abbrev pub work_is : WorkKind → WorkKind → Bool
work_is no_work no_work = true
work_is work_provision work_provision = true
work_is work_delete work_delete = true
work_is _ _ = false

pub record Record : Type 0 where
  pub key : Text
  pub delivery_id : Text
  pub job_id : ℕ
  pub owner : Text
  pub repository : Text
  pub labels : List Text
  pub provider : Text
  pub runner_name : Text
  pub github_runner_id : ℕ
  pub github_runner_owned : Bool
  pub instance_id : Text
  pub job_completed : Bool
  pub recheck_demand : Bool
  pub deletion_accepted_id : Text
  pub droplet_id : ℕ
  pub status : Status
  pub claimed_work : WorkKind
  pub defer_deletion : Bool
  pub attempts : ℕ
  pub provision_epoch : ℕ
  pub delete_attempts : ℕ
  pub reconcile_failures : ℕ
  pub throttle_failures : ℕ
  pub last_error : Text
  pub next_attempt_at : ℕ
  pub missing_since : ℕ
  pub missing_checks : ℕ
  pub github_missing_since : ℕ
  pub github_missing_checks : ℕ
  pub created_at : ℕ
  pub provisioned_at : ℕ
  pub registered_at : ℕ
  pub reconciled_at : ℕ
  pub updated_at : ℕ

pub Status-discrete : Discrete Status
Status-discrete = hlevel

pub WorkKind-discrete : Discrete WorkKind
WorkKind-discrete = hlevel

-- `reflect.DeepEqual` on records. Two renderings of one instant count as equal here.
unfoldable pub Record-discrete : Discrete Record
unfolding ℕ_discrete
Record-discrete = hlevel ℕ_discrete

-- `t.IsZero()`
abbrev pub is_zero : ℕ → Bool
is_zero t = t == 0

-- `t.After(u)` and `t.Before(u)`
abbrev pub after : ℕ → ℕ → Bool
after t u = ltb u t

abbrev pub before : ℕ → ℕ → Bool
before t u = ltb t u

-- `t.Before(now.Add(-age))`, with the age moved to the other side.
abbrev pub older_than : ℕ → ℕ → ℕ → Bool
older_than t now age = ltb (t + age) now

-- The two statuses that most mutations leave alone.
abbrev pub is_terminal : Status → Bool
is_terminal s = status_is deleted s || status_is orphaned s

-- The record occupies a JIT registration or a provider instance.
abbrev pub holds_identity : Record → Bool
holds_identity r =
    not (is_empty r.instance_id) || (r.github_runner_owned && not (r.github_runner_id == 0))
