-- ===== src/Jobs/RefusalTests.antt =====
-- The theorems on refusals and on the life of a job, on the small database.
use mervio.Jobs.Cancelling.{cancel_job_refused}
use mervio.Error.{err, job_state_error}
use mervio.Jobs.Refinement.{history-Life, kinds}
use mervio.Database.{no_hook}
use mervio.Jobs.Lineage.{row_of}
use mervio.Jobs.History.{Operation, claim, history, cancel}
use mervio.Jobs.Sample.{
  running_row, worker_session, noon, unlocked, sample_db, sample_claim, sample_db-IsValid,
  owner_session, worker_session-opens,
}
use mervio.Jobs.Record.{JobRecord}
use mervio.Prelude.{List, ◌≡◌, ◌∷◌, [], refl, inl}
use mervio.Jobs.Queue.{cancel_job, find_row}
use mervio.Jobs.Machine.{Life, stage}

-- The first attempt of the job that is at its second.
abbrev old_attempt : JobRecord
old_attempt = record running_row { attempts = 1 }

cancel_job_refused_example :
    cancel_job worker_session noon no_hook 3 sample_db ≡ err job_state_error
unfolding find_row
cancel_job_refused_example =
    cancel_job_refused worker_session noon no_hook 3 sample_db running_row worker_session-opens
      sample_db-IsValid.unique refl (inl (λ e. cc e))

abbrev claim_then_cancel : List Operation
claim_then_cancel =
    claim unlocked worker_session noon no_hook sample_claim
    ∷ cancel owner_session noon no_hook 1
    ∷ []

history-Life_example :
    Life
      (kinds claim_then_cancel)
      (stage (row_of 1 sample_db.jobs))
      (stage (row_of 1 (history claim_then_cancel sample_db).jobs))
history-Life_example = history-Life claim_then_cancel sample_db 1 sample_db-IsValid
