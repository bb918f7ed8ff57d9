-- ===== src/Store/Update.antt =====
-- internal/state/store.go, `update`, and the write with rollback that every method ends in.
pub mod Durable
pub mod Frame
use github_runners_infra.Prelude.{ℕ, Bool, Option, none, some, List, Text}
use github_runners_infra.Dict.{Dict, get, put}
use github_runners_infra.Record.{Record}
use github_runners_infra.Store.{FileStore, Os, Error, not_found, Result, ok, err}
use github_runners_infra.Store.Save.{save, mark_dirty}

-- s.records[key] = record; s.markDirty(key)
unfoldable pub set_record : Text → Record → FileStore → FileStore
unfolding mark_dirty
set_record key r s = mark_dirty key (record s { records = put key r s.records })

-- s.records[key] = before
unfoldable pub restore : Text → Record → FileStore → FileStore
restore key r s = record s { records = put key r s.records }

-- The end of `save_or_undo`, once `saveLocked` has answered.
abbrev pub settle {ℓ} :
    {A : Type ℓ}
    → (FileStore → FileStore)
    → A
    → Result (Unit {0}) × FileStore
    → Result A × FileStore
settle undo a (ok _, s') = (ok a, s')
settle undo a (err e, s') = (err e, undo s')

-- if err := s.saveLocked(); err != nil { undo; return err }
unfoldable pub save_or_undo {ℓ} :
    {A : Type ℓ} → Os → (FileStore → FileStore) → A → FileStore → Result A × FileStore
save_or_undo os undo a s = settle undo a (save os s)

-- Writes `new` where the key held `old`.
unfoldable pub write_record {ℓ} :
    {A : Type ℓ} → Os → Text → Record → Record → A → FileStore → Result A × FileStore
unfolding save_or_undo restore set_record
write_record os key old new a s = save_or_undo os (restore key old) a (set_record key new s)

-- `update`, with what its closure stores in a variable of the caller; `now` is the reading of the
-- clock after the closure.
unfoldable pub update_with {ℓ} :
    {A : Type ℓ} → Os → ℕ → Text → (Record → Record × A) → FileStore → Result A × FileStore
unfolding write_record
update_with os now key mutate s = elim (get key s.records) [
  | none ↦ (err (not_found key), s)
  | some r ↦ let (r', a) = mutate r in write_record os key r (record r' { updated_at = now }) a s
]

unfoldable pub update :
    Os → ℕ → Text → (Record → Record) → FileStore → Result (Unit {0}) × FileStore
unfolding update_with
update os now key mutate = update_with os now key (λ r. (mutate r, tt))
