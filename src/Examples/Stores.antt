-- ===== src/Examples/Stores.antt =====
-- The theorems about the store at concrete inputs.
use github_runners_infra.Prelude.{◌≤◌, false, ◌≡◌, refl, arith, codes, true}
use github_runners_infra.Dict.{SameMap, count}
use github_runners_infra.Record.{Record, provisioned, orphaned}
use github_runners_infra.Store.{ok}
use github_runners_infra.Store.Completion.{create}
use github_runners_infra.Store.Claim.{claim_next, live_runner_count, is_live}
use github_runners_infra.Store.Claim.Admission.{claim_next-admits}
use github_runners_infra.Store.Claim.Answer.{IsAnswered, claim_next-answers}
use github_runners_infra.Store.Open.{new_file_store}
use github_runners_infra.Store.Open.Reopen.{load_files}
use github_runners_infra.Store.Operations.{start, then_step, created}
use github_runners_infra.Store.{FileStore}
use github_runners_infra.Store.Save.{save}
use github_runners_infra.Store.Update.{set_record}
use github_runners_infra.Store.Update.Durable.{IsEdit-IsTracked, IsEdit-set_record}
use github_runners_infra.Store.Save.Outcome.{IsSaveOutcome, save_outcome}
use github_runners_infra.Store.Recovery.{new_file_store-IsDurable, reopens_after}
use github_runners_infra.Examples.Values.{working, job, first_store, one_job}

reopens_after_example :
    ((load_files working (create working 9 job first_store).1.disk).0 ≡ ok tt)
    × SameMap
        (load_files working (create working 9 job first_store).1.disk).1.records
        (create working 9 job first_store).1.records
reopens_after_example =
    reopens_after working first_store (create working 9 job first_store).1
      (record {
        read_snapshot = refl;
        chmod_snapshot = refl;
        read_journal = refl;
        chmod_journal = refl;
      })
      new_file_store-IsDurable (then_step start (created working 9 job refl))

claim_next-admits_example :
    live_runner_count (claim_next (λ _. working) false false 10 5 one_job).1.records ≤ 20
claim_next-admits_example =
    claim_next-admits (λ _. working) false false 10 5 20 one_job
      (unfold live_runner_count count is_live in omega arith) (unfold new_file_store in omega arith)

-- A store in which the job was set and is not saved.
abbrev unsaved : FileStore
unfolding set_record
unsaved = set_record job.key job first_store

save_outcome_example : IsSaveOutcome unsaved (save working unsaved)
unfolding unsaved set_record
save_outcome_example =
    save_outcome working unsaved refl
      (IsEdit-IsTracked new_file_store-IsDurable (IsEdit-set_record job.key job first_store))
      (unfold new_file_store set_record in new_file_store-IsDurable.holds)

claim_next-answers_example :
    IsAnswered 10 5 one_job (claim_next (λ _. working) false false 10 5 one_job)
claim_next-answers_example =
    claim_next-answers (λ _. working) false false 10 5 one_job
      (record { cached = λ k r d e. unfold new_file_store in cc })

-- An orphan whose runner is owned, and the completion of its job by that runner.
abbrev orphan : Record
orphan = record job {
  status = orphaned;
  github_runner_id = 9;
  github_runner_owned = true;
  instance_id = codes "i-1";
}

abbrev completion : Record
completion = record job { github_runner_id = 9 }

-- A provisioned record that GitHub missed once before.
abbrev missed_once : Record
missed_once = record job {
  status = provisioned;
  github_missing_since = 40;
  github_missing_checks = 1;
}
