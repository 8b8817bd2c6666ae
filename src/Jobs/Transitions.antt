-- ===== src/Jobs/Transitions.antt =====
-- The two statements of the state machine of a job: ALLOWED_TRANSITIONS in persistence/jobs.py, and the
-- trigger of revision 0006_job_leases.
use mervio.Prelude.{◌≡◌, ◌||◌, ◌&&◌, arith}
use mervio.Jobs.Record.{allowed_transition, JobStatus, status_eq, running}
use mervio.Jobs.Guard.{legal_transition}

-- The trigger allows what ALLOWED_TRANSITIONS does, and a running job to stay running besides, which
-- ALLOWED_TRANSITIONS leaves out.
pub legal_transition-allowed_transition :
    (old new : JobStatus)
    → legal_transition old new
      ≡ (allowed_transition old new || (status_eq old running && status_eq new running))
unfolding legal_transition allowed_transition
legal_transition-allowed_transition old new = ground arith
