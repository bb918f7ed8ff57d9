-- ===== src/Store/Update/Durable.antt =====
-- Between two operations the files hold the records: every write through `save_or_undo` keeps that.
use github_runners_infra.Prelude.{false, some, Text, text_eq_iff, ◌≡◌, refl, arith, mem}
use github_runners_infra.Dict.{get, SameMap}
use github_runners_infra.Dict.Laws.{get-put, SameMap-put_back}
use github_runners_infra.Record.{Record}
use github_runners_infra.Store.{FileStore, Os, Result, ok, err}
use github_runners_infra.Store.Save.{save}
use github_runners_infra.Store.Save.Durable.{Holds, IsTracked}
use github_runners_infra.Store.Save.Outcome.{IsSaveOutcome, RollbackWorks, save_outcome}
use github_runners_infra.Store.Save.Frame.{save-SameFields}
use github_runners_infra.Store.Update.{set_record, restore, settle, save_or_undo, write_record}

-- The files hold what is persisted, and that is what is in memory.
pub record IsDurable (s : FileStore) : Type 0 where
  pub holds : Holds s.disk s.persisted
  pub saved : SameMap s.persisted s.records

-- A store whose records differ from those of `s` at dirty keys only.
pub record IsEdit (s t : FileStore) : Type 0 where
  pub disk : t.disk ≡ s.disk
  pub persisted : t.persisted ≡ s.persisted
  pub edited : (k : Text) → mem k t.dirty_keys ≡ false → get k t.records ≡ get k s.records

-- The undo gives back the records of `s`.
pub record Undoes (s t : FileStore) (undo : FileStore → FileStore) : Type 0 where
  pub disk : (u : FileStore) → (undo u).disk ≡ u.disk
  pub persisted : (u : FileStore) → (undo u).persisted ≡ u.persisted
  pub records : (u : FileStore) → u.records ≡ t.records → SameMap (undo u).records s.records

pub IsEdit-IsTracked : {s t : FileStore} → IsDurable s → IsEdit s t → IsTracked t
IsEdit-IsTracked {s} {t} d e = record {
  clean = λ k h. ground (arith, e.edited k h, e.persisted, d.saved.at k);
}

module _ {ℓ} {A : Type ℓ} (undo : FileStore → FileStore) (a : A) (s t : FileStore) where
  settle-IsDurable :
      (o : Result (Unit {0}) × FileStore)
      → IsSaveOutcome t o
      → o.1.records ≡ t.records
      → t.persisted ≡ s.persisted
      → IsDurable s
      → Undoes s t undo
      → IsDurable (settle undo a o).1
  settle-IsDurable (ok _, s') h same ep d u = record { holds = h.0; saved = rw same (h.1) }
  settle-IsDurable (err e, s') h same ep d u = record {
    holds = rw (u.disk s', u.persisted s') (h.0);
    saved = record {
      at = λ k. ground (arith, u.persisted s', h.1, ep, d.saved.at k, (u.records s' same).at k);
    };
  }

  -- Whatever the save answers, the store is durable again.
  pub save_or_undo-IsDurable :
      (os : Os)
      → RollbackWorks os
      → IsDurable s
      → IsEdit s t
      → Undoes s t undo
      → IsDurable (save_or_undo os undo a t).1
  unfolding save_or_undo
  save_or_undo-IsDurable os works d e u =
      settle-IsDurable (save os t)
        (save_outcome os t works (IsEdit-IsTracked d e) (rw (e.disk, e.persisted) (d.holds)))
        (save-SameFields os t).records e.persisted d u

pub IsEdit-set_record : (key : Text) (r : Record) (s : FileStore) → IsEdit s (set_record key r s)
unfolding set_record mem
IsEdit-set_record key r s = record {
  disk = refl;
  persisted = refl;
  edited = λ k h. ground (arith, text_eq_iff key k, get-put key k r s.records);
}

Undoes-restore :
    (key : Text) (old new : Record) (s : FileStore)
    → get key s.records ≡ some old
    → Undoes s (set_record key new s) (restore key old)
unfolding set_record restore
Undoes-restore key old new s e = record {
  disk = λ u. refl;
  persisted = λ u. refl;
  records = λ u same. rw same (SameMap-put_back key old new s.records e);
}

pub write_record-IsDurable {ℓ} :
    {A : Type ℓ} (os : Os) (key : Text) (old new : Record) (a : A) (s : FileStore)
    → RollbackWorks os
    → get key s.records ≡ some old
    → IsDurable s
    → IsDurable (write_record os key old new a s).1
unfolding write_record
write_record-IsDurable os key old new a s works e d =
    save_or_undo-IsDurable (restore key old) a s (set_record key new s) os works d
      (IsEdit-set_record key new s) (Undoes-restore key old new s e)
