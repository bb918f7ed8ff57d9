-- ===== src/Examples/Values.antt =====
-- Records, stores and answers of the operating system that the tests run on.
use github_runners_infra.Prelude.{true, false, none, [], ◌∷◌, codes}
use github_runners_infra.Record.{Record, pending, no_work}
use github_runners_infra.Store.{Os, FileStore, Disk, missing, complete}
use github_runners_infra.Store.Open.{new_file_store}

-- Every call succeeds.
abbrev pub working : Os
working = record {
  mkdir_ok = true;
  lock_ok = true;
  read_snapshot_ok = true;
  chmod_snapshot_ok = true;
  read_journal_ok = true;
  chmod_read_journal_ok = true;
  open_delimiter_ok = true;
  write_delimiter_ok = true;
  sync_delimiter_ok = true;
  open_torn_ok = true;
  encode_ok = true;
  stat_ok = true;
  open_ok = true;
  chmod_ok = true;
  sync_directory_ok = true;
  fstat_ok = true;
  write = complete;
  encoded_bytes = 100;
  sync_ok = true;
  truncate_ok = true;
  sync_rollback_ok = true;
  encode_snapshot_ok = true;
  temporary_ok = true;
  rename_ok = true;
  sync_snapshot_directory_ok = true;
  open_truncate_ok = true;
  sync_truncated_ok = true;
  close_truncated_ok = true;
}

-- A queued job of `acme/site`.
abbrev pub job : Record
job = record {
  key = codes "acme/site:7";
  delivery_id = codes "d1";
  job_id = 7;
  owner = codes "acme";
  repository = codes "site";
  labels = codes "self-hosted" ∷ [];
  provider = codes "aws";
  runner_name = [];
  github_runner_id = 0;
  github_runner_owned = false;
  instance_id = [];
  job_completed = false;
  recheck_demand = false;
  deletion_accepted_id = [];
  droplet_id = 0;
  status = pending;
  claimed_work = no_work;
  defer_deletion = false;
  attempts = 0;
  provision_epoch = 0;
  delete_attempts = 0;
  reconcile_failures = 0;
  throttle_failures = 0;
  last_error = [];
  next_attempt_at = 0;
  missing_since = 0;
  missing_checks = 0;
  github_missing_since = 0;
  github_missing_checks = 0;
  created_at = 5;
  provisioned_at = 0;
  registered_at = 0;
  reconciled_at = 0;
  updated_at = 5;
}

abbrev pub no_files : Disk
no_files = record { snapshot = missing; journal = none }

abbrev pub first_store : FileStore
first_store = new_file_store no_files

-- A store that holds the job.
abbrev pub one_job : FileStore
one_job = record first_store { records = (job.key, job) ∷ [] }
