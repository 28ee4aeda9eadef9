-- ===== src/Orchestrator/Notifications.antt =====
-- The notification and memory-job statements of services/orchestrator/internal/store/store.go: two
-- queues whose rows are leased to a worker.
pub mod Claims
use cratos_ai.Prelude.{
  ℕ, ◌+◌, ltb, leb, ◌==◌, Bool, true, false, not, ◌&&◌, ◌||◌, Option, none, some, List, [], ◌∷◌,
  ◌++◌, String, holds, is_some, if◌then◌else◌, select_where, find_where, update_where, length,
  sort_by, take, min_by, map, Result, ok, err, not_found, rejected, changed, found,
}
use cratos_ai.Orchestrator.Model.{Notification, MemoryJob, JobState, Db}
use cratos_ai.Orchestrator.Model.{job_queued, job_running, job_done, job_failed}

abbrev pub has_id : ℕ → Notification → Bool
has_id id n = n.id == id

-- AddNotification
unfoldable pub add_notification : Notification → ℕ → Db → Db
add_notification n now db =
    let row : Notification = record n {
      id = db.next_notification;
      created_at = now;
      claimed_by = none;
      claimed_until = none;
      attempts = 0;
      done_at = none;
    } in
    record db {
      notifications = db.notifications ++ row ∷ [];
      next_notification = db.next_notification + 1;
    }

-- The WHERE clause of ClaimNotifications.
abbrev pub is_claimable : ℕ → ℕ → ℕ → Notification → Bool
is_claimable max_attempts max_age now n =
    not (is_some n.done_at)
    && (not (is_some n.claimed_until) || holds n.claimed_until (λ t. ltb t now))
    && ltb n.attempts max_attempts
    && ltb now (n.created_at + max_age)

abbrev pub claimed : String → ℕ → ℕ → Notification → Notification
claimed consumer lease now n = record n {
  claimed_by = some consumer;
  claimed_until = some (now + lease);
  attempts = n.attempts + 1;
}

abbrev pub by_id : Notification → Notification → Bool
by_id a b = leb a.id b.id

-- The subselect of ClaimNotifications.
abbrev pub chosen : ℕ → ℕ → ℕ → ℕ → Db → List Notification
chosen limit max_attempts max_age now db =
    take limit
      (sort_by by_id (select_where (is_claimable max_attempts max_age now) db.notifications))

abbrev pub is_in : List Notification → Notification → Bool
is_in ns n = is_some (find_where (has_id n.id) ns)

-- ClaimNotifications
unfoldable pub claim_notifications : String → ℕ → ℕ → ℕ → ℕ → ℕ → Db → List Notification × Db
claim_notifications consumer limit lease max_attempts max_age now db =
    let p = is_in (chosen limit max_attempts max_age now db) in
    (
      sort_by by_id (map (claimed consumer lease now) (select_where p db.notifications)),
      record db { notifications = update_where p (claimed consumer lease now) db.notifications },
    )

abbrev pub completed : ℕ → Notification → Notification
completed now n = record n { done_at = some now }

abbrev pub is_unfinished : List ℕ → Notification → Bool
is_unfinished ids n = is_some (find_where (λ i. i == n.id) ids) && not (is_some n.done_at)

-- CompleteNotifications
unfoldable pub complete_notifications : List ℕ → ℕ → Db → Db
complete_notifications ids now db = record db {
  notifications = update_where (is_unfinished ids) (completed now) db.notifications;
}

-- PurgeNotifications
unfoldable pub purge_notifications : ℕ → ℕ → Db → ℕ × Db
purge_notifications keep now db =
    let old : Notification → Bool = λ n. ltb (n.created_at + keep) now in
    (
      length (select_where old db.notifications),
      record db { notifications = select_where (λ n. not (old n)) db.notifications },
    )

abbrev pub of_conversation : ℕ → MemoryJob → Bool
of_conversation id j = j.conversation_id == id

-- QueueMemoryJob
unfoldable pub queue_memory_job : ℕ → ℕ → Db → Result (Unit {0}) × Db
queue_memory_job id now db =
    let row : MemoryJob = record {
      conversation_id = id;
      state = job_queued;
      attempts = 0;
      lease_until = none;
      not_before = now;
      last_error = "";
    } in
    if is_some (find_where (of_conversation id) db.memory_jobs)
    then (ok tt, db)
    else if is_some (find_where (λ c. c.id == id) db.conversations)
    then (ok tt, record db { memory_jobs = db.memory_jobs ++ row ∷ [] })
    else (err rejected, db)

abbrev pub is_waiting_job : ℕ → MemoryJob → Bool
is_waiting_job now j = elim j.state [
  | job_queued ↦ true
  | job_running ↦ holds j.lease_until (λ t. ltb t now)
  | job_done ↦ false
  | job_failed ↦ false
]

abbrev pub is_due : ℕ → MemoryJob → Bool
is_due now j = is_waiting_job now j && leb j.not_before now

abbrev pub started : ℕ → ℕ → MemoryJob → MemoryJob
started lease now j = record j {
  state = job_running;
  attempts = j.attempts + 1;
  lease_until = some (now + lease);
}

abbrev pub take_job : ℕ → ℕ → Db → Option MemoryJob → Result (ℕ × ℕ) × Db
take_job lease now db none = (err not_found, db)
take_job lease now db (some j) = (
  ok (j.conversation_id, j.attempts + 1),
  record db {
    memory_jobs =
        update_where (of_conversation j.conversation_id) (started lease now) db.memory_jobs;
  },
)

abbrev pub due_order : MemoryJob → ℕ
due_order j = j.not_before

-- LeaseMemoryJob: its conversation and attempt count.
unfoldable pub lease_memory_job : ℕ → ℕ → Db → Result (ℕ × ℕ) × Db
lease_memory_job lease now db =
    take_job lease now db (min_by due_order (select_where (is_due now) db.memory_jobs))

abbrev pub finished : JobState → ℕ → String → ℕ → MemoryJob → MemoryJob
finished state retry_after last_error now j = record j {
  state = state;
  lease_until = none;
  last_error = last_error;
  not_before = now + retry_after;
}

-- FinishMemoryJob
unfoldable pub finish_memory_job : ℕ → JobState → ℕ → String → ℕ → Db → Db
finish_memory_job id state retry_after last_error now db = record db {
  memory_jobs =
      update_where (of_conversation id) (finished state retry_after last_error now) db.memory_jobs;
}
