-- ===== src/Store/Claim/Admission.antt =====
-- The admission ceiling: a claim never takes the number of live runners above the limit.
use github_runners_infra.Prelude.{
  ℕ, ◌+◌, ◌≤◌, Bool, ◌||◌, Option, none, some, List, [], ◌∷◌, Text, ◌≡◌, ◌⊎◌, inl, inr, refl, arith,
  Bool-cases,
}
use github_runners_infra.Dict.{get, weight}
use github_runners_infra.Record.{Record, WorkKind}
use github_runners_infra.Store.{FileStore, Os, Result, ok, err, continue}
use github_runners_infra.Store.Update.{write_record}
use github_runners_infra.Store.Update.Frame.{
  count-written, IsWritten, write_record-IsWritten, write_record-SameConfig,
}
use github_runners_infra.Store.Claim.{
  is_live, exhausted, select_work, live_runner_count, consider, Verdict, skip, give_up, claim,
  round, claim_loop, claim_next, refresh_ordered_keys, go_on, Claimed, act, round_on,
}

-- Giving up on a record keeps it as live as it was.
exhausted-weight :
    (now max_attempts : ℕ) (r : Record) {r' : Record}
    → exhausted now max_attempts r ≡ some r'
    → weight is_live (some r') ≡ weight is_live (some r)
unfolding exhausted is_live
exhausted-weight now max_attempts r h = ground arith

-- A claim takes a free slot, or keeps the one that the record has.
select_weight :
    (now max_attempts live limit : ℕ) (r : Record) {r' : Record} {kind : WorkKind}
    → select_work now max_attempts live limit r ≡ claim r' kind
    → (weight is_live (some r') ≤ weight is_live (some r)) ⊎ (live + 1 ≤ limit)
unfolding select_work is_live
select_weight now max_attempts live limit r h = ground arith

select_no_give_up :
    (now max_attempts live limit : ℕ) (r : Record) {r' : Record}
    → select_work now max_attempts live limit r ≡ give_up r'
    → ⊥
unfolding select_work
select_no_give_up now max_attempts live limit r h = ground arith

consider_give_up :
    (now max_attempts live limit : ℕ) (r : Record) {r' : Record}
    → consider now max_attempts live limit r ≡ give_up r'
    → weight is_live (some r') ≡ weight is_live (some r)
unfolding consider
consider_give_up now max_attempts live limit r {r' = r'} h = ground (
  arith,
  exhausted-weight now max_attempts r {r' = r'},
  select_no_give_up now max_attempts live limit r {r' = r'},
)

consider_claim :
    (now max_attempts live limit : ℕ) (r : Record) {r' : Record} {kind : WorkKind}
    → consider now max_attempts live limit r ≡ claim r' kind
    → (weight is_live (some r') ≤ weight is_live (some r)) ⊎ (live + 1 ≤ limit)
unfolding consider
consider_claim now max_attempts live limit r {r' = r'} {kind = kind} h =
    ground (arith, select_weight now max_attempts live limit r {r' = r'} {kind = kind})

-- A bound above the limit and above the loop's count of the records.
abbrev IsBelow : ℕ → ℕ → FileStore → Type 0
IsBelow live n s = (live_runner_count s.records ≡ live) × (s.max_live_runners ≤ n) × (live ≤ n)

-- A round claims or fails with the count below the bound, or goes on with the same count.
abbrev RoundIsBelow : ℕ → ℕ → Result Claimed × FileStore → Type 0
RoundIsBelow live n (ok none, s) = IsBelow live n s
RoundIsBelow live n (ok (some c), s) = live_runner_count s.records ≤ n
RoundIsBelow live n (err e, s) = live_runner_count s.records ≤ n

live_at_most_one : (r : Record) → weight is_live (some r) ≤ 1
live_at_most_one r = ground arith

-- A write that keeps the count keeps the bound, whatever the result.
same_below :
    (live n : ℕ) (s : FileStore) (o : Result Claimed × FileStore)
    → live_runner_count (o.1).records ≡ live_runner_count s.records
    → (o.1).max_live_runners ≡ s.max_live_runners
    → IsBelow live n s
    → RoundIsBelow live n o
same_below live n s (ok none, s') c m b = omega arith
same_below live n s (ok (some x), s') c m b = omega arith
same_below live n s (err e, s') c m b = omega arith

-- A result that is a claim or an error needs the bound alone.
claimed_below :
    (live n : ℕ) (key : Text) (old new : Record) (x : Record × WorkKind) (s : FileStore)
    (o : Result Claimed × FileStore)
    → IsWritten key old new (some x) s o
    → live_runner_count (o.1).records ≤ n
    → RoundIsBelow live n o
claimed_below live n key old new x s (ok none, s') w c = absurd (cc (w.0))
claimed_below live n key old new x s (ok (some y), s') w c = c
claimed_below live n key old new x s (err e, s') w c = c

module _ (os : Os) (now max_attempts live n : ℕ) (key : Text) (r : Record) where
  act_below :
      (s : FileStore) (v : Verdict)
      → get key s.records ≡ some r
      → consider now max_attempts live s.max_live_runners r ≡ v
      → IsBelow live n s
      → RoundIsBelow live n (act os key r v s)
  unfolding act live_runner_count
  act_below s skip e h b = b
  act_below s (give_up r') e h b =
      same_below live n s (write_record os key r r' none s)
        (omega (
          arith,
          count-written {A = Claimed} is_live key r r' none s (write_record os key r r' none s)
              (write_record-IsWritten key r r' none s os) e,
          consider_give_up now max_attempts live s.max_live_runners r h,
        ))
        (write_record-SameConfig key r r' none s os).max_live_runners b
  act_below s (claim r' kind) e h b =
      let o = write_record os key r r' (some (r', kind)) s in
      let w = write_record-IsWritten key r r' (some (r', kind)) s os in
      claimed_below live n key r r' (r', kind) s o w
        (omega (
          arith,
          count-written {A = Claimed} is_live key r r' (some (r', kind)) s o w e,
          consider_claim now max_attempts live s.max_live_runners r h,
          live_at_most_one r',
        ))

module _ (now max_attempts live n : ℕ) where
  round_on_below :
      (os : Os) (key : Text) (s : FileStore) (found : Option Record)
      → get key s.records ≡ found
      → IsBelow live n s
      → RoundIsBelow live n (round_on os now max_attempts live key found s)
  unfolding round_on
  round_on_below os key s none e b = b
  round_on_below os key s (some r) e b = act_below os now max_attempts live n key r s _ e refl b

  abbrev LoopIsBelow : Result Claimed × FileStore → Type 0
  LoopIsBelow (_, s) = live_runner_count s.records ≤ n

  continue_below :
      (rest : FileStore → Result Claimed × FileStore)
      → ((s : FileStore) → IsBelow live n s → LoopIsBelow (rest s))
      → (o : Result Claimed × FileStore) → RoundIsBelow live n o
      → LoopIsBelow (continue o.0 (go_on rest) o.1)
  continue_below rest ih (ok none, s) b = ih s b
  continue_below rest ih (ok (some c), s) b = b
  continue_below rest ih (err e, s) b = b

  claim_loop_below :
      (os : Text → Os) (keys : List Text) (s : FileStore)
      → IsBelow live n s
      → LoopIsBelow (claim_loop os now max_attempts live keys s)
  unfolding claim_loop
  claim_loop_below os [] s b = omega arith
  claim_loop_below os (key ∷ keys) s b =
      continue_below (claim_loop os now max_attempts live keys) (claim_loop_below os keys)
        (round (os key) now max_attempts live key s)
        (unfold round in round_on_below (os key) key s (get key s.records) refl b)

pub records-refresh : (s : FileStore) → (refresh_ordered_keys s).records ≡ s.records
unfolding refresh_ordered_keys
records-refresh s = ground arith

pub max_live_runners-refresh :
    (s : FileStore) → (refresh_ordered_keys s).max_live_runners ≡ s.max_live_runners
unfolding refresh_ordered_keys
max_live_runners-refresh s = ground arith

-- Whatever `ClaimNext` answers, it leaves no more live runners than there were or than the limit
-- allows, whichever is more.
pub claim_next-admits :
    (os : Text → Os) (canceled_before canceled_after : Bool) (now max_attempts n : ℕ)
    (s : FileStore)
    → live_runner_count s.records ≤ n
    → s.max_live_runners ≤ n
    → live_runner_count (claim_next os canceled_before canceled_after now max_attempts s).1.records
      ≤ n
unfolding claim_next
claim_next-admits os canceled_before canceled_after now max_attempts n s h m =
    elim (Bool-cases (canceled_before || canceled_after)) [
      | inl c ↦ rw c h
      | inr c ↦ rw c (
          claim_loop_below now max_attempts _ n os _ (refresh_ordered_keys s)
            (refl, rw (max_live_runners-refresh s) m, rw (records-refresh s) h))
    ]
