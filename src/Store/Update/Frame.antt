-- ===== src/Store/Update/Frame.antt =====
-- The two outcomes of a write: the new record, or the old one put back.
use github_runners_infra.Prelude.{◌+◌, Bool, some, Text, ◌≡◌, ◌⊎◌, inl, inr, refl, arith, ap}
use github_runners_infra.Dict.{get, put, count, weight}
use github_runners_infra.Dict.Count.{count-put-some}
use github_runners_infra.Dict.Laws.{get-put_self}
use github_runners_infra.Record.{Record}
use github_runners_infra.Store.{FileStore, Os, Result, ok, err}
use github_runners_infra.Store.Save.{save}
use github_runners_infra.Store.Save.Frame.{SameFields, save-SameFields}
use github_runners_infra.Store.Update.{set_record, restore, settle, save_or_undo, write_record}

-- The fields that no write touches.
pub record SameConfig (s s' : FileStore) : Type 0 where
  pub runner_keys : s'.runner_keys ≡ s.runner_keys
  pub deleted_retention : s'.deleted_retention ≡ s.deleted_retention
  pub ordered_keys : s'.ordered_keys ≡ s.ordered_keys
  pub keys_dirty : s'.keys_dirty ≡ s.keys_dirty
  pub max_live_runners : s'.max_live_runners ≡ s.max_live_runners

-- The result and the records after a write that was to return `a`.
abbrev pub IsWritten {ℓ} :
    {A : Type ℓ} → Text → Record → Record → A → FileStore → Result A × FileStore → Type ℓ
IsWritten key old new a s (ok b, s') = (b ≡ a) × (s'.records ≡ put key new s.records)
IsWritten key old new a s (err _, s') = Unit × (s'.records ≡ put key old (put key new s.records))

module _ {ℓ} {A : Type ℓ} (key : Text) (old new : Record) (a : A) (s : FileStore) where
  settle-IsWritten :
      (o : Result (Unit {0}) × FileStore)
      → SameFields (set_record key new s) o.1
      → IsWritten key old new a s (settle (restore key old) a o)
  unfolding set_record restore
  settle-IsWritten (ok _, s') f = (refl, f.records)
  settle-IsWritten (err e, s') f = (tt, ap (put key old) f.records)

  settle-SameConfig :
      (o : Result (Unit {0}) × FileStore)
      → SameFields (set_record key new s) o.1
      → SameConfig s (settle (restore key old) a o).1
  unfolding set_record restore
  settle-SameConfig (ok _, s') f = ground arith
  settle-SameConfig (err e, s') f = ground arith

  pub write_record-IsWritten :
      (os : Os) → IsWritten key old new a s (write_record os key old new a s)
  unfolding write_record save_or_undo
  write_record-IsWritten os =
      settle-IsWritten (save os (set_record key new s)) (save-SameFields os (set_record key new s))

  pub write_record-SameConfig : (os : Os) → SameConfig s (write_record os key old new a s).1
  unfolding write_record save_or_undo
  write_record-SameConfig os =
      settle-SameConfig (save os (set_record key new s)) (save-SameFields os (set_record key new s))

module _ {ℓ} {A : Type ℓ} (p : Record → Bool) (key : Text) (old new : Record) (a : A)
    (s : FileStore) where
  -- The number of records that pass a test changes by this record, or not at all.
  pub count-written :
      (o : Result A × FileStore)
      → IsWritten key old new a s o
      → get key s.records ≡ some old
      → (count p o.1.records + weight p (some old) ≡ count p s.records + weight p (some new))
        ⊎ (count p o.1.records ≡ count p s.records)
  count-written (ok _, s') w e = inl (rw (w.1) (count-put-some p key new s.records e))
  count-written (err _, s') w e = inr (
      rw (w.1) (
        omega (
          arith,
          count-put-some p key new s.records e,
          count-put-some p key old (put key new s.records) (get-put_self key new s.records),
        )))
