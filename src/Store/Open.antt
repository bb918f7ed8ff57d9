-- ===== src/Store/Open.antt =====
-- internal/state/store.go, `OpenFileStore` and what it calls, and `Close`.
pub mod Reopen
use github_runners_infra.Prelude.{
  ℕ, ◌+◌, ◌-◌, ◌*◌, Bool, true, false, not, ◌&&◌, ◌||◌, Option, none, some, List, [], ◌∷◌, ◌++◌,
  Text, is_empty, text_eq, leb, ltb, if◌then◌else◌, codes, ◌==◌,
}
use github_runners_infra.Dict.{Dict, get, put, delete}
use github_runners_infra.Record.{Record, deleted, status_is}
use github_runners_infra.Record.Recovering.{recover_record}
use github_runners_infra.Store.{
  FileStore, Os, Disk, Result, ok, err, Error, failed_at, retention_too_short, path_required,
  IoStep, missing, no_bytes, malformed, decoded, Snapshot, Line, blank, entry, corrupt, JournalFile,
  ◌>>=◌, ◌>>◌, need, modify, continue, pure,
}
use github_runners_infra.Store.Identity.{runner_identity_key, completion_marker_key}
use github_runners_infra.Store.Journal.{apply_entry, line_bytes, lines_bytes}
use github_runners_infra.Store.Save.{
  save, compact, write_snapshot, mark_dirty, set_journal, compaction_due,
}

-- `newFileStore` once the directory and the lock are there.
unfoldable pub new_file_store : Disk → FileStore
new_file_store disk = record {
  locked = true;
  records = [];
  persisted = [];
  dirty_keys = [];
  runner_keys = [];
  deleted_retention = 24 * 3600 * 1_000_000_000;
  ordered_keys = [];
  keys_dirty = true;
  journal_entries = 0;
  journal_bytes = 0;
  max_live_runners = 20;
  closed = false;
  disk = disk;
}

-- `WithDeletedRetention`
unfoldable pub with_deleted_retention : ℕ → FileStore → Result (Unit {0}) × FileStore
with_deleted_retention retention s =
    if ltb retention (24 * 3600 * 1_000_000_000)
    then (err retention_too_short, s)
    else (ok tt, record s { deleted_retention = retention })

-- `loadSnapshot` by the contents of the file: whether it is missing.
read_snapshot : Os → Snapshot → FileStore → Result Bool × FileStore
read_snapshot os missing s = (ok true, s)
read_snapshot os no_bytes s =
    (need os.chmod_snapshot_ok (failed_at IoStep.secure_snapshot) >> pure false) s
read_snapshot os malformed s =
    (need os.chmod_snapshot_ok (failed_at IoStep.secure_snapshot)
        >> need false (failed_at IoStep.decode_snapshot)
        >> pure false)
      s
read_snapshot os (decoded none) s =
    (need os.chmod_snapshot_ok (failed_at IoStep.secure_snapshot) >> pure false) s
read_snapshot os (decoded (some d)) s =
    (need os.chmod_snapshot_ok (failed_at IoStep.secure_snapshot) >> λ s.
    (ok false, record s { records = d }))
      s

unfoldable pub load_snapshot : Os → FileStore → Result Bool × FileStore
unfolding read_snapshot
load_snapshot os s =
    if os.read_snapshot_ok
    then read_snapshot os s.disk.snapshot s
    else (err (failed_at IoStep.read_snapshot), s)

-- The loop of `loadJournal` over the lines that end in a newline.
unfoldable pub load_lines : List Line → FileStore → Result (Unit {0}) × FileStore
load_lines [] s = (ok tt, s)
load_lines (blank n ∷ ls) s = load_lines ls s
load_lines (entry e n ∷ ls) s =
    load_lines ls
      (record s { records = apply_entry e s.records; journal_entries = s.journal_entries + 1 })
load_lines (corrupt n ∷ ls) s = (err (failed_at IoStep.decode_entry), s)

-- `appendJournalDelimiter`: the tail becomes a line, once the newline is written.
append_delimiter : Os → JournalFile → Line → FileStore → Result (Unit {0}) × FileStore
unfolding set_journal
append_delimiter os j t = do
  need os.open_delimiter_ok (failed_at IoStep.append_delimiter)
  need os.write_delimiter_ok (failed_at IoStep.append_delimiter)
  modify (set_journal (record { lines = j.lines ++ t ∷ []; tail = none }))
  need os.sync_delimiter_ok (failed_at IoStep.append_delimiter)
  need os.sync_directory_ok (failed_at IoStep.sync_directory)

-- `repairJournalTail`: the tail is cut off.
repair_tail : Os → JournalFile → FileStore → Result (Unit {0}) × FileStore
unfolding set_journal
repair_tail os j = do
  need os.open_torn_ok (failed_at IoStep.repair_tail)
  need os.truncate_ok (failed_at IoStep.repair_tail)
  modify (set_journal (record { lines = j.lines; tail = none }))
  need os.sync_rollback_ok (failed_at IoStep.repair_tail)
  need os.sync_directory_ok (failed_at IoStep.sync_directory)

set_journal_bytes : ℕ → FileStore → FileStore
set_journal_bytes n s = record s { journal_bytes = n }

-- What stands behind the last newline: nothing, white space, a whole entry, or a torn one.
load_tail : Os → JournalFile → Option Line → FileStore → Result (Unit {0}) × FileStore
unfolding append_delimiter repair_tail set_journal_bytes
load_tail os j none = modify (set_journal_bytes (lines_bytes j.lines))
load_tail os j (some (blank n)) = do
  append_delimiter os j (blank n)
  modify (set_journal_bytes (lines_bytes j.lines + n + 1))
load_tail os j (some (entry e n)) = do
  modify
      (λ s. record s { records = apply_entry e s.records; journal_entries = s.journal_entries + 1 })
  append_delimiter os j (entry e n)
  modify (set_journal_bytes (lines_bytes j.lines + n + 1))
load_tail os j (some (corrupt n)) = do
  repair_tail os j
  modify (set_journal_bytes (lines_bytes j.lines))

read_journal : Os → Option JournalFile → FileStore → Result (Unit {0}) × FileStore
unfolding load_lines load_tail
read_journal os none = pure tt
read_journal os (some j) = do
  need os.read_journal_ok (failed_at IoStep.read_journal)
  need os.chmod_read_journal_ok (failed_at IoStep.secure_journal)
  load_lines j.lines
  load_tail os j j.tail

-- `loadJournal`
unfoldable pub load_journal : Os → FileStore → Result (Unit {0}) × FileStore
unfolding read_journal
load_journal os s = read_journal os s.disk.journal s

-- The loop of `recoverRecords` over the entries, and whether anything was recovered.
recover_loop : ℕ → Dict Record → FileStore × Bool → FileStore × Bool
unfolding recover_record mark_dirty
recover_loop now [] acc = acc
recover_loop now ((k, r) ∷ d) (s, recovered) =
    let (r', keep, changed) = recover_record now s.deleted_retention r in
    recover_loop now d (
      if not keep
      then (
        record (mark_dirty k (record s { records = delete k s.records })) { keys_dirty = true },
        true,
      )
      else if changed
      then (mark_dirty k (record s { records = put k r' s.records }), true)
      else (s, recovered))

unfoldable pub recover_records : ℕ → FileStore → FileStore × Bool
unfolding recover_loop
recover_records now s = recover_loop now s.records (s, false)

-- A record that `rebuildRunnerIndexLocked` enters under its key.
unfoldable pub is_indexed : Text → Record → Bool
is_indexed key r =
    not (status_is deleted r.status)
    && r.github_runner_owned
    && not (r.github_runner_id == 0)
    && not (text_eq key (completion_marker_key r.owner r.repository r.github_runner_id))

index_loop : Dict Record → Dict Text → Dict Text
unfolding is_indexed
index_loop [] runner_keys = runner_keys
index_loop ((k, r) ∷ d) runner_keys = index_loop d (
    if is_indexed k r
    then put (runner_identity_key r.owner r.repository r.github_runner_id) k runner_keys
    else runner_keys)

unfoldable pub rebuild_runner_index : FileStore → FileStore
unfolding index_loop
rebuild_runner_index s = record s { runner_keys = index_loop s.records [] }

-- `finalizeOpen`
unfoldable pub finalize_open : Os → Bool → FileStore → Result (Unit {0}) × FileStore
unfolding compact write_snapshot
finalize_open os snapshot_missing s =
    if compaction_due s
    then compact os s
    else if snapshot_missing
    then write_snapshot os s
    else (ok tt, s)

-- The options that the caller passes, one after the other.
apply_options :
    List (FileStore → Result (Unit {0}) × FileStore) → FileStore → Result (Unit {0}) × FileStore
apply_options [] = pure tt
apply_options (option ∷ options) = do option; apply_options options

save_if : Os → FileStore × Bool → Result (Unit {0}) × FileStore
unfolding save
save_if os (s, true) = save os s
save_if os (s, false) = (ok tt, s)

-- `Close`: the store releases its lock and refuses every later write.
unfoldable pub close : FileStore → FileStore
close s = if s.locked then record s { closed = true; locked = false } else s

-- The steps of `OpenFileStore` on the locked store.
unfoldable pub load_store :
    Os
    → Os
    → ℕ
    → List (FileStore → Result (Unit {0}) × FileStore)
    → FileStore
    → Result (Unit {0}) × FileStore
unfolding load_snapshot load_journal recover_records rebuild_runner_index finalize_open
    apply_options save_if
load_store os recovery_os now options = do
  apply_options options
  snapshot_missing ← load_snapshot os
  load_journal os
  modify (λ s. record s { persisted = s.records })
  (λ s. save_if recovery_os (recover_records now s))
  modify rebuild_runner_index
  finalize_open os snapshot_missing

-- An error closes the store that was being opened.
close_on_error : Result (Unit {0}) × FileStore → Result (Unit {0}) × FileStore
unfolding close
close_on_error (ok u, s) = (ok u, s)
close_on_error (err e, s) = (err e, close s)

-- `OpenFileStore`; `os` answers the calls of the loading and the last compaction, `recovery_os`
-- those of the save in between.
unfoldable pub open_file_store :
    Text
    → Os
    → Os
    → ℕ
    → List (FileStore → Result (Unit {0}) × FileStore)
    → Disk
    → Result (Unit {0}) × FileStore
unfolding load_store close_on_error new_file_store
open_file_store path os recovery_os now options disk =
    let fresh = new_file_store disk in
    if is_empty path
    then (err path_required, record fresh { locked = false; closed = true })
    else if not os.mkdir_ok
    then (err (failed_at IoStep.create_directory), record fresh { locked = false; closed = true })
    else if not os.lock_ok
    then (err (failed_at IoStep.lock_file), record fresh { locked = false; closed = true })
    else close_on_error (load_store os recovery_os now options fresh)
