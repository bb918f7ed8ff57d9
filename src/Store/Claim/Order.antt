-- ===== src/Store/Claim/Order.antt =====
-- `ClaimNext` of internal/state/store.go: what one round over a record does.
use github_runners_infra.Prelude.{
  ℕ, ◌≤◌, ◌<◌, true, false, Option, none, some, [], Text, text_eq, ◌≡◌, ◌≢◌, ◌⊎◌, refl, arith,
}
use github_runners_infra.Dict.{get}
use github_runners_infra.Dict.Laws.{get-put, get-put_self}
use github_runners_infra.Record.{
  Record, WorkKind, no_work, work_provision, work_delete, pending, provisioning, completed,
  deleting, holds_identity,
}
use github_runners_infra.Store.{FileStore, Os, Result, ok, err}
use github_runners_infra.Store.Update.{write_record}
use github_runners_infra.Store.Update.Frame.{
  IsWritten, write_record-IsWritten, write_record-SameConfig, SameConfig,
}
use github_runners_infra.Store.Claim.{
  exhausted, select_work, consider, Verdict, skip, give_up, claim, round_on, act, Claimed,
}

-- A record that a worker may take, with `live` runners under the ceiling `limit`.
pub record IsClaimable (now max_attempts live limit : ℕ) (r : Record) : Type 0 where
  pub due : r.next_attempt_at ≤ now
  pub free : r.claimed_work ≡ no_work
  pub work :
      ((r.status ≡ pending)
        × (r.attempts < max_attempts)
        × ((live < limit) ⊎ (live ≡ limit) × (holds_identity r ≡ true)))
      ⊎ ((r.status ≡ completed)
          × (r.defer_deletion ≡ false)
          × (r.instance_id ≢ [])
          × (r.delete_attempts < max_attempts))

-- What a worker is handed.
abbrev pub IsHandedOut : ℕ → ℕ → WorkKind → Record → Type 0
IsHandedOut now max_attempts kind r =
    (r.claimed_work ≡ kind)
    × (r.next_attempt_at ≡ 0)
    × (r.updated_at ≡ now)
    × (((kind ≡ work_provision)
          × (r.status ≡ provisioning)
          × (0 < r.attempts)
          × (r.attempts ≤ max_attempts))
        ⊎ ((kind ≡ work_delete)
            × (r.status ≡ deleting)
            × (r.instance_id ≢ [])
            × (0 < r.delete_attempts)
            × (r.delete_attempts ≤ max_attempts)))

module _ (now max_attempts live limit : ℕ) (r : Record) where
  exhausted-none : IsClaimable now max_attempts live limit r → exhausted now max_attempts r ≡ none
  unfolding exhausted
  exhausted-none c = ground (arith, c.due, c.free, c.work)

  select_claimable :
      IsClaimable now max_attempts live limit r → select_work now max_attempts live limit r ≢ skip
  unfolding select_work
  select_claimable c h = ground (arith, c.due, c.free, c.work)

  select_no_give_up :
      (r' : Record)
      → IsClaimable now max_attempts live limit r
      → select_work now max_attempts live limit r ≢ give_up r'
  unfolding select_work
  select_no_give_up r' c h = ground arith

  -- A claimable record is neither passed over nor given up.
  consider_claimable :
      (v : Verdict)
      → consider now max_attempts live limit r ≡ v
      → IsClaimable now max_attempts live limit r
      → (r' : Record) × (kind : WorkKind) × (v ≡ claim r' kind)
  unfolding consider
  consider_claimable skip e c = absurd (ground (arith, exhausted-none c, select_claimable c, c.due))
  consider_claimable (give_up r') e c =
      absurd (ground (arith, exhausted-none c, select_no_give_up r' c, c.due))
  consider_claimable (claim r' kind) e c = (r', kind, refl)

  select-IsHandedOut :
      {r' : Record} {kind : WorkKind}
      → select_work now max_attempts live limit r ≡ claim r' kind
      → IsHandedOut now max_attempts kind r'
  unfolding select_work
  select-IsHandedOut h = ground arith

  consider-IsHandedOut :
      {r' : Record} {kind : WorkKind}
      → consider now max_attempts live limit r ≡ claim r' kind
      → IsHandedOut now max_attempts kind r'
  unfolding consider
  consider-IsHandedOut {r' = r'} {kind = kind} h =
      ground (arith, select-IsHandedOut {r' = r'} {kind = kind})

-- What a round leaves: the claim it made is in the store; without one, every other key holds what
-- it held, and the round's own key cannot be claimed.
abbrev pub IsRound : ℕ → ℕ → ℕ → Text → FileStore → Result Claimed × FileStore → Type 0
IsRound now max_attempts live key s (ok none, s') =
    ((k : Text) → text_eq key k ≡ false → get k s'.records ≡ get k s.records)
    × (s'.max_live_runners ≡ s.max_live_runners)
    × ((r : Record)
        → get key s.records ≡ some r
        → IsClaimable now max_attempts live s.max_live_runners r
        → ⊥)
IsRound now max_attempts live key s (ok (some (r, kind)), s') =
    (get key s'.records ≡ some r) × IsHandedOut now max_attempts kind r
IsRound now max_attempts live key s (err e, s') = Unit

module _ (now max_attempts live : ℕ) (key : Text) (s : FileStore) (r : Record)
    (e : get key s.records ≡ some r) where
  gave_up-IsRound :
      (r' : Record) (o : Result Claimed × FileStore)
      → IsWritten key r r' none s o
      → SameConfig s o.1
      → consider now max_attempts live s.max_live_runners r ≡ give_up r'
      → IsRound now max_attempts live key s o
  gave_up-IsRound r' (ok none, s') w c v = (
    λ k other. rw (w.1, get-put, other),
    c.max_live_runners,
    λ q eq claimable.
        let (r'', kind, e') =
          consider_claimable now max_attempts live s.max_live_runners r (give_up r') v
            (ground (arith, claimable)) in
        cc e',
  )
  gave_up-IsRound r' (ok (some x), s') w c v = absurd (cc (w.0))
  gave_up-IsRound r' (err _, s') w c v = tt

  claimed-IsRound :
      (r' : Record) (kind : WorkKind) (o : Result Claimed × FileStore)
      → IsWritten key r r' (some (r', kind)) s o
      → consider now max_attempts live s.max_live_runners r ≡ claim r' kind
      → IsRound now max_attempts live key s o
  claimed-IsRound r' kind (ok none, s') w v = absurd (cc (w.0))
  claimed-IsRound r' kind (ok (some (x, y)), s') w v =
      let xr : x ≡ r' = ground arith in
      let yk : y ≡ kind = ground arith in
      (
        rw (w.1, xr) (get-put_self key r' s.records),
        rw (xr, yk) (consider-IsHandedOut now max_attempts live s.max_live_runners r v),
      )
  claimed-IsRound r' kind (err _, s') w v = tt

module _ (os : Os) (now max_attempts live : ℕ) (key : Text) (s : FileStore) where
  act-IsRound :
      (r : Record) (v : Verdict)
      → get key s.records ≡ some r
      → consider now max_attempts live s.max_live_runners r ≡ v
      → IsRound now max_attempts live key s (act os key r v s)
  unfolding act
  act-IsRound r skip e v = (
    λ k other. refl,
    refl,
    λ q eq claimable.
        let (r'', kind, e') =
          consider_claimable now max_attempts live s.max_live_runners r skip v
            (ground (arith, claimable)) in
        cc e',
  )
  act-IsRound r (give_up r') e v =
      gave_up-IsRound now max_attempts live key s r e r' (write_record os key r r' none s)
        (write_record-IsWritten key r r' none s os) (write_record-SameConfig key r r' none s os) v
  act-IsRound r (claim r' kind) e v =
      claimed-IsRound now max_attempts live key s r e r' kind
        (write_record os key r r' (some (r', kind)) s)
        (write_record-IsWritten key r r' (some (r', kind)) s os) v

  pub round_on-IsRound :
      (found : Option Record)
      → get key s.records ≡ found
      → IsRound now max_attempts live key s (round_on os now max_attempts live key found s)
  unfolding round_on
  round_on-IsRound none e = (λ k other. refl, refl, λ q eq claimable. cc)
  round_on-IsRound (some r) e = act-IsRound r _ e refl
