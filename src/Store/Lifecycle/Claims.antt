-- ===== src/Store/Lifecycle/Claims.antt =====
-- internal/state/store.go, `ClaimNext`: which records it writes, and what it does to them.
use github_runners_infra.Prelude.{ℕ, ◌+◌, ◌≡◌, ◌⊎◌, arith, Text, some}
use github_runners_infra.Record.{
  Record, WorkKind, no_work, work_provision, work_delete, pending, provisioning, completed,
  deleting, failed, orphaned,
}
use github_runners_infra.Store.Claim.{consider, select_work, exhausted, claim, give_up}

-- A pending record is claimed for its provision, or a completed one for its deletion, at the cost of an
-- attempt.
abbrev pub IsClaimed : ℕ → Record → Record → Type 0
IsClaimed now r r' =
    (r.claimed_work ≡ no_work)
    × (((r.status ≡ pending)
          × (r' ≡ record r {
            status = provisioning;
            attempts = r.attempts + 1;
            updated_at = now;
            next_attempt_at = 0;
            claimed_work = work_provision;
          }))
        ⊎ ((r.status ≡ completed)
            × (r' ≡ record r {
              status = deleting;
              delete_attempts = r.delete_attempts + 1;
              updated_at = now;
              next_attempt_at = 0;
              claimed_work = work_delete;
            })))

-- A pending record fails, or a completed one is orphaned.
abbrev pub IsSpent : ℕ → Record → Record → Type 0
IsSpent now r r' =
    (message : Text) × (((r.status ≡ pending)
        × (r' ≡ record r { status = failed; last_error = message; updated_at = now }))
      ⊎ ((r.status ≡ completed)
          × (r' ≡ record r { status = orphaned; last_error = message; updated_at = now })))

select_work-IsClaimed :
    (now max_attempts live limit : ℕ) (r : Record) {r' : Record} {kind : WorkKind}
    → select_work now max_attempts live limit r ≡ claim r' kind
    → IsClaimed now r r'
unfolding select_work
select_work-IsClaimed now max_attempts live limit r h = ground arith

select_work-no_give_up :
    (now max_attempts live limit : ℕ) (r : Record) {r' : Record}
    → select_work now max_attempts live limit r ≡ give_up r'
    → ⊥
unfolding select_work
select_work-no_give_up now max_attempts live limit r h = ground arith

exhausted-IsSpent :
    (now max_attempts : ℕ) (r : Record) {r' : Record}
    → exhausted now max_attempts r ≡ some r'
    → IsSpent now r r'
unfolding exhausted
exhausted-IsSpent now max_attempts r {r' = r'} h = (r'.last_error, ground arith)

pub consider-IsClaimed :
    (now max_attempts live limit : ℕ) (r : Record) {r' : Record} {kind : WorkKind}
    → consider now max_attempts live limit r ≡ claim r' kind
    → IsClaimed now r r'
unfolding consider
consider-IsClaimed now max_attempts live limit r {r' = r'} {kind = kind} h =
    ground (arith, select_work-IsClaimed now max_attempts live limit r {r' = r'} {kind = kind})

pub consider-IsSpent :
    (now max_attempts live limit : ℕ) (r : Record) {r' : Record}
    → consider now max_attempts live limit r ≡ give_up r'
    → IsSpent now r r'
unfolding consider
consider-IsSpent now max_attempts live limit r {r' = r'} h =
    exhausted-IsSpent now max_attempts r
      (ground (arith, select_work-no_give_up now max_attempts live limit r {r' = r'}))
