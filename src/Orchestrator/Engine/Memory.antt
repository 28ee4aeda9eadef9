-- ===== src/Orchestrator/Engine/Memory.antt =====
-- The memory worker and the maintenance of services/orchestrator/internal/engine/memory.go. The vault,
-- the sidecar that extracts knowledge and the knowledge service answer as given; a duration is a
-- number of microseconds.
pub mod Clearing
pub mod Resuming
use cratos_ai.Prelude.{
  ℕ, ◌+◌, ◌*◌, ◌^◌, ltb, leb, Bool, true, false, not, Option, none, some, List, [], ◌∷◌, String,
  str_eq, if◌then◌else◌, is_some, find_where, Result, ok, err,
}
use cratos_ai.Orchestrator.Model.{
  Conversation, Turn, Task, Confirmation, DeviceApproval, JobState, job_queued, job_done,
  job_failed, Db,
}
use cratos_ai.Orchestrator.Tasks.{resume_task}
use cratos_ai.Orchestrator.Confirmations.{expire_confirmations}
use cratos_ai.Orchestrator.Conversations.{
  conversation, transcript, close_abandoned, purge_transcripts,
}
use cratos_ai.Orchestrator.Notifications.{
  lease_memory_job, finish_memory_job, queue_memory_job, purge_notifications,
}
use cratos_ai.Orchestrator.Devices.{expire_approvals}
use cratos_ai.Orchestrator.Engine.{Services, complete_pending}
use cratos_ai.Orchestrator.Engine.Approvals.{ApprovalWorld, drop_approval}

-- Five minutes, a minute, an hour and a day, in microseconds.
abbrev pub memory_lease : ℕ
memory_lease = 300000000

abbrev pub minute : ℕ
minute = 60000000

abbrev pub hour : ℕ
hour = 3600000000

abbrev pub day : ℕ
day = 86400000000

abbrev pub max_memory_attempts : ℕ
max_memory_attempts = 5

-- The answer of a service: an error of the second kind is permanent.
pub data ServiceAnswer {ℓ} (A : Type ℓ) : Type ℓ where
  gives : A → ServiceAnswer A
  fails_now fails_for_good : String → ServiceAnswer A

-- What lies outside an extraction. `extracts` answers whether there is anything to remember.
pub record MemoryWorld : Type 0 where
  pub key : Conversation → ServiceAnswer (Unit {0})
  pub extracts : Conversation → List Turn → ServiceAnswer Bool
  pub upserts : Conversation → List Turn → ServiceAnswer (Unit {0})

abbrev pub is_user_turn : Turn → Bool
is_user_turn t = str_eq t.role "user"

abbrev pub and_then {ℓ} :
    {A : Type ℓ} → ServiceAnswer A → (A → ServiceAnswer (Unit {0})) → ServiceAnswer (Unit {0})
and_then (gives a) f = f a
and_then (fails_now m) f = fails_now m
and_then (fails_for_good m) f = fails_for_good m

module _ (w : MemoryWorld) where
  abbrev pub upsert_if : Conversation → List Turn → Bool → ServiceAnswer (Unit {0})
  upsert_if c turns false = gives tt
  upsert_if c turns true = w.upserts c turns

  abbrev pub extract_turns : Conversation → List Turn → ServiceAnswer (Unit {0})
  extract_turns c turns =
      if not (is_some (find_where is_user_turn turns))
      then gives tt
      else and_then (w.key c) (λ k. and_then (w.extracts c turns) (upsert_if c turns))

  abbrev pub extract_found : ℕ → Db → Result Conversation → ServiceAnswer (Unit {0})
  extract_found id db (err e) = fails_now "not found"
  extract_found id db (ok c) = extract_turns c (transcript id db)

  -- extractMemory
  unfoldable pub extract_memory : ℕ → Db → ServiceAnswer (Unit {0})
  extract_memory id db = extract_found id db (conversation id db)

  abbrev pub backoff : ℕ → ℕ
  backoff attempts = 2 ^ attempts * minute

  -- The switch of memoryWorker on the outcome of an attempt.
  unfoldable pub settle_job : ℕ → ℕ → ℕ → Db → ServiceAnswer (Unit {0}) → Db
  settle_job id attempts now db (gives u) = finish_memory_job id job_done 0 "" now db
  settle_job id attempts now db (fails_for_good m) = finish_memory_job id job_failed 0 m now db
  settle_job id attempts now db (fails_now m) =
      if leb max_memory_attempts attempts
      then finish_memory_job id job_failed 0 m now db
      else finish_memory_job id job_queued (backoff attempts) m now db

  -- A pass of memoryWorker takes time, and other statements come between its own: it leases a job
  -- (LeaseMemoryJob with `memory_lease`), reads the conversation, and in the end settles the job in the
  -- database as it is then, which passes over an error of FinishMemoryJob (`stored` is whether it is
  -- written). A worker that dies in between leaves the job running.
  unfoldable pub attempt_over : Bool → ℕ → ℕ → Db → ℕ → Db → Db
  attempt_over stored id attempts read now db =
      if stored then settle_job id attempts now db (extract_memory id read) else db

module _ (w : ApprovalWorld) where
  abbrev pub not_confirmed : String
  not_confirmed =
      w.services.message "error" "The user did not confirm in time; the action was not done."

  abbrev pub resume_expired : ℕ → Db → Confirmation → Option ℕ → Db
  resume_expired now db c none = db
  resume_expired now db c (some task) =
      (resume_task task (λ t. complete_pending w.services t c.call_id not_confirmed) now db).1

  -- The loop of maintenance over the confirmations that expired.
  unfoldable pub resume_all : ℕ → List Confirmation → Db → Db
  resume_all now [] db = db
  resume_all now (c ∷ cs) db = resume_all now cs (resume_expired now db c c.task_id)

  unfoldable pub queue_all : ℕ → List ℕ → Db → Db
  queue_all now [] db = db
  queue_all now (id ∷ ids) db = queue_all now ids (queue_memory_job id now db).1

  -- closeAbandoned
  unfoldable pub close_all_abandoned : ℕ → Db → Db
  close_all_abandoned now db =
      let (abandoned, db') = close_abandoned now db in queue_all now abandoned db'

  abbrev pub nobody_approved : String
  nobody_approved = "Nobody approved the command in time, so it did not run."

  unfoldable pub drop_all : ℕ → List DeviceApproval → Db → Db
  drop_all now [] db = db
  drop_all now (a ∷ rest) db = drop_all now rest (drop_approval w a nobody_approved now db)

  -- expireApprovals
  unfoldable pub expire_all_approvals : ℕ → Db → Db
  expire_all_approvals now db =
      let (expired, db') = expire_approvals now db in drop_all now expired db'

  -- What maintenance purges, once an hour.
  abbrev pub purge_old : ℕ → ℕ → Db → Db
  purge_old retention now db =
      (purge_transcripts retention now (purge_notifications day now db).1).1

  -- A tick of maintenance; `last` is when it purged before, and the answer when it purged last.
  unfoldable pub maintain : ℕ → ℕ → ℕ → Db → ℕ × Db
  maintain retention last now db =
      let db' = expire_all_approvals now (close_all_abandoned now db) in
      let (expired, db'') = expire_confirmations now db' in
      let resumed = resume_all now expired db'' in
      if ltb (last + hour) now then (now, purge_old retention now resumed) else (last, resumed)
