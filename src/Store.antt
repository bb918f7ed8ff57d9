-- ===== src/Store.antt =====
-- internal/state/store.go: the state of a `FileStore`, its files on the disk, and the outcomes of
-- the operating system's calls. A method is an action that takes the state and returns a result
-- and the state after it; the state after an error is part of the model.
pub mod Identity
pub mod Journal
pub mod Save
pub mod Update
pub mod Methods
pub mod Claim
pub mod Observe
pub mod Completion
pub mod Registration
pub mod Sweep
pub mod Open
pub mod Operations
pub mod Recovery
pub mod Lifecycle
use github_runners_infra.Prelude.{
  ℕ, Bool, true, false, Option, none, some, List, [], Text, if◌then◌else◌,
}
use github_runners_infra.Dict.{Dict}
use github_runners_infra.Record.{Record}

-- `journalEntry`: the new value of each changed key, `none` for a key that was removed.
abbrev pub Entry : Type 0
Entry = Dict (Option Record)

-- One line of the journal, with its length in bytes. `corrupt` is text that does not decode.
pub data Line : Type 0 where
  blank : ℕ → Line
  entry : Entry → ℕ → Line
  corrupt : ℕ → Line

-- The file `.wal`: the lines that end in a newline, and what stands behind the last newline.
pub record JournalFile : Type 0 where
  pub lines : List Line
  pub tail : Option Line

-- The state file: missing, of no bytes, not decodable, or `diskState` with its map or `null`.
pub data Snapshot : Type 0 where
  missing : Snapshot
  no_bytes : Snapshot
  malformed : Snapshot
  decoded : Option (Dict Record) → Snapshot

pub record Disk : Type 0 where
  pub snapshot : Snapshot
  pub journal : Option JournalFile

-- Where an operating-system call or an encoder failed.
pub data IoStep : Type 0 where
  create_directory lock_file read_snapshot secure_snapshot decode_snapshot : IoStep
  read_journal secure_journal decode_entry repair_tail append_delimiter : IoStep
  encode_journal stat_journal open_journal sync_directory append_journal sync_journal : IoStep
  encode_snapshot write_temporary replace_snapshot truncate_journal : IoStep

pub data Error : Type 0 where
  not_found : Text → Error
  store_closed : Error
  canceled : Error
  limit_not_positive : Error
  retention_too_short : Error
  path_required : Error
  unclaimed_instance : Text → Error
  failed_at : IoStep → Error
  -- The error of a call, joined with that of the rollback of the journal.
  rollback_failed : IoStep → Error

pub data Result {ℓ} (A : Type ℓ) : Type ℓ where
  ok : A → Result A
  err : Error → Result A

-- What `journal.Write` did: all bytes, or a part of them, after which these bytes were left.
pub data WriteOutcome : Type 0 where
  complete : WriteOutcome
  short : Option Line → WriteOutcome

-- The answers of the operating system and the encoders during one operation, `true` for success.
-- The temporary file's five calls before the rename change nothing that is modelled.
pub record Os : Type 0 where
  pub mkdir_ok : Bool
  pub lock_ok : Bool
  pub read_snapshot_ok : Bool
  pub chmod_snapshot_ok : Bool
  pub read_journal_ok : Bool
  pub chmod_read_journal_ok : Bool
  pub open_delimiter_ok : Bool
  pub write_delimiter_ok : Bool
  pub sync_delimiter_ok : Bool
  pub open_torn_ok : Bool
  pub encode_ok : Bool
  pub stat_ok : Bool
  pub open_ok : Bool
  pub chmod_ok : Bool
  pub sync_directory_ok : Bool
  pub fstat_ok : Bool
  pub write : WriteOutcome
  -- The length of the encoded entry, without its newline.
  pub encoded_bytes : ℕ
  pub sync_ok : Bool
  pub truncate_ok : Bool
  pub sync_rollback_ok : Bool
  pub encode_snapshot_ok : Bool
  pub temporary_ok : Bool
  pub rename_ok : Bool
  pub sync_snapshot_directory_ok : Bool
  pub open_truncate_ok : Bool
  pub sync_truncated_ok : Bool
  pub close_truncated_ok : Bool

-- `FileStore`. `dirty_keys` is a set; `locked` says that the lock file is held.
pub record FileStore : Type 0 where
  pub locked : Bool
  pub records : Dict Record
  pub persisted : Dict Record
  pub dirty_keys : List Text
  pub runner_keys : Dict Text
  pub deleted_retention : ℕ
  pub ordered_keys : List Text
  pub keys_dirty : Bool
  pub journal_entries : ℕ
  pub journal_bytes : ℕ
  pub max_live_runners : ℕ
  pub closed : Bool
  pub disk : Disk

abbrev pub Exec {ℓ} : Type ℓ → Type ℓ
Exec A = FileStore → Result A × FileStore

abbrev pub continue {ℓ κ} :
    {A : Type ℓ} {B : Type κ}
    → Result A
    → (A → FileStore → Result B × FileStore)
    → FileStore
    → Result B × FileStore
continue (ok a) f s = f a s
continue (err e) f s = (err e, s)

infixl 5 ◌>>=◌ ◌>>◌
abbrev pub ◌>>=◌ {ℓ κ} :
    {A : Type ℓ} {B : Type κ}
    → (FileStore → Result A × FileStore)
    → (A → FileStore → Result B × FileStore)
    → FileStore
    → Result B × FileStore
◌>>=◌ m f s = continue (m s).0 f (m s).1

abbrev pub ◌>>◌ {ℓ} :
    {B : Type ℓ}
    → (FileStore → Result (Unit {0}) × FileStore)
    → (FileStore → Result B × FileStore)
    → FileStore
    → Result B × FileStore
◌>>◌ m n s = continue (m s).0 (λ _. n) (m s).1

abbrev pub pure {ℓ} : {A : Type ℓ} → A → FileStore → Result A × FileStore
pure a s = (ok a, s)

-- `if err := call(); err != nil { return err }`
abbrev pub need : Bool → Error → FileStore → Result (Unit {0}) × FileStore
need true e s = (ok tt, s)
need false e s = (err e, s)

abbrev pub modify : (FileStore → FileStore) → FileStore → Result (Unit {0}) × FileStore
modify f s = (ok tt, f s)
