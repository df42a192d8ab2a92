-- ===== src/CfJobs/Commands.antt =====
-- The statements of the repository that write rows, as commands on the tables, and runs of them: an
-- interleaving of the workers, the publishers and the sweep is a list of commands. The pruning of
-- old rows is no command (Commands.Terminal puts it between them); a batched insert is the inserts
-- of its records.
pub mod Effects
pub mod Fencing
pub mod Reservations
pub mod Exclusion
pub mod Terminal
use harlan_nuxt.Prelude.{ℕ, Option, List, [], ◌∷◌, String}
use harlan_nuxt.CfJobs.JobStore.{JobRow, FailedRow, Db}
use harlan_nuxt.CfJobs.Lifecycle.{
  DurableJobRecord, stage_job, insert_job, claim_job, complete_job, fail_job, ReleaseOptions,
  release_job, mark_jobs_published, note_jobs_dispatch_failure, note_orphan_redispatch,
  note_dlq_arrival, record_failure,
}
use harlan_nuxt.CfJobs.Sweep.{StaleQuery, release_stale_reserved_jobs, fail_stale_reserved_jobs}

pub data Command : Type 0 where
  stage : DurableJobRecord → Command
  insert : DurableJobRecord → Command
  claim : (reclaim_after : Option ℕ) (now : ℕ) (id : String) → Command
  complete : (now : ℕ) → JobRow → Command
  fail : (now : ℕ) (error : String) → JobRow → Command
  release : (at : ℕ) → ReleaseOptions → JobRow → Command
  mark_published : (ids : List String) (at : ℕ) → Command
  note_failure : (ids : List String) (cause : String) (at : ℕ) → Command
  note_redispatch : (ids : List String) (at : ℕ) → Command
  note_arrival : (id : String) (at message_attempts : ℕ) → Command
  record_dead : FailedRow → Command
  release_stale : StaleQuery → Command
  fail_stale : (JobRow → String) → StaleQuery → Command

-- The tables after a command; what it answers is read from the operation itself.
unfoldable pub execute : Command → Db → Db
execute (stage r) db = (stage_job r db).1
execute (insert r) db = (insert_job r db).1
execute (claim reclaim_after now id) db = (claim_job reclaim_after now id db).1
execute (complete now job) db = (complete_job now job db).1
execute (fail now error job) db = (fail_job now error job db).1
execute (release at opts job) db = (release_job at opts job db).1
execute (mark_published ids at) db = (mark_jobs_published ids at db).1
execute (note_failure ids cause at) db = (note_jobs_dispatch_failure ids cause at db).1
execute (note_redispatch ids at) db = (note_orphan_redispatch ids at db).1
execute (note_arrival id at n) db = (note_dlq_arrival id at n db).1
execute (record_dead row) db = record_failure row db
execute (release_stale query) db = release_stale_reserved_jobs query db
execute (fail_stale exception query) db = (fail_stale_reserved_jobs exception query db).1

unfoldable pub execute_all : List Command → Db → Db
execute_all [] db = db
execute_all (c ∷ cs) db = execute_all cs (execute c db)
