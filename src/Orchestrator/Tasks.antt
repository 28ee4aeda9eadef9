-- ===== src/Orchestrator/Tasks.antt =====
-- The task statements of services/orchestrator/internal/store/store.go. Each is one step: PostgreSQL
-- runs an UPDATE, or a transaction that locks its row, as a whole.
pub mod Ops
pub mod Invariant
pub mod Terminal
pub mod Lease
pub mod Cancel
use cratos_ai.Prelude.{
  ℕ, ◌+◌, ◌≡◌, ltb, leb, ◌==◌, Bool, true, false, not, ◌&&◌, ◌||◌, Option, none, some, List, [],
  ◌∷◌, ◌++◌, String, str_eq, holds, is_some, if◌then◌else◌, count_where, select_where, find_where,
  update_where, update_returning, min_by, sort_by, take, Result, ok, err, not_found, rejected,
  found,
}
use cratos_ai.Orchestrator.Model.{
  TaskState, TaskKind, Target, Task, Confirmation, ConfirmationState, Db, is_running, is_queued,
  is_waiting, is_terminal, is_pending, or_empty,
}

abbrev pub has_id : ℕ → Task → Bool
has_id id t = t.id == id

abbrev pub owned_by : ℕ → String → Task → Bool
owned_by tenant user t = t.tenant_id == tenant && str_eq t.user_id user

-- CreateTask. The columns that the INSERT does not name take their defaults; a second row of one id
-- violates the primary key.
unfoldable pub create_task : ℕ → Task → Db → Result (Unit {0}) × Db
create_task now t db =
    let row : Task = record t {
      steps = 0;
      history = or_empty t.history;
      pending = or_empty t.pending;
      lease_owner = none;
      lease_until = none;
      created_at = now;
      updated_at = now;
    } in
    if is_some (find_where (has_id t.id) db.tasks)
    then (err rejected, db)
    else (ok tt, record db { tasks = db.tasks ++ row ∷ [] })

-- Task and TaskByID.
unfoldable pub task : ℕ → String → ℕ → Db → Result Task
task tenant user id db = found (find_where (λ t. has_id id t && owned_by tenant user t) db.tasks)

unfoldable pub task_by_id : ℕ → Db → Result Task
task_by_id id db = found (find_where (has_id id) db.tasks)

-- Tasks: newest first.
unfoldable pub tasks_of : ℕ → String → ℕ → Db → List Task
tasks_of tenant user limit db =
    take limit (
      sort_by (λ s t. leb t.created_at s.created_at) (select_where (owned_by tenant user) db.tasks))

-- Queued, or running with an expired lease (its worker died).
abbrev pub is_runnable : ℕ → Task → Bool
is_runnable now t =
    is_queued t.state || (is_running t.state && holds t.lease_until (λ until. ltb until now))

abbrev pub leased : String → ℕ → ℕ → Task → Task
leased owner lease now t = record t {
  state = TaskState.running;
  lease_owner = some owner;
  lease_until = some (now + lease);
  updated_at = now;
}

abbrev pub candidates : (ℕ → Bool) → ℕ → List Task → List Task
candidates locked now = select_where (λ t. is_runnable now t && not (locked t.id))

abbrev pub oldest : List Task → Option Task
oldest = min_by (λ t. t.updated_at)

-- The UPDATE … RETURNING of LeaseTask, of the row that its subquery picks.
abbrev pub take_lease : String → ℕ → ℕ → Db → Option Task → Result Task × Db
take_lease owner lease now db none = (err not_found, db)
take_lease owner lease now db (some t) =
    let (row, tasks) = update_returning (has_id t.id) (leased owner lease now) db.tasks in
    (found row, record db { tasks = tasks })

-- LeaseTask. `locked` are the rows that other transactions hold, which SKIP LOCKED passes over.
unfoldable pub lease_task : (ℕ → Bool) → String → ℕ → ℕ → Db → Result Task × Db
lease_task locked owner lease now db =
    take_lease owner lease now db (oldest (candidates locked now db.tasks))

-- The row is the worker's: WHERE id = $1 AND lease_owner = $2 AND state = 'running'
abbrev pub is_held : ℕ → String → Task → Bool
is_held id owner t = has_id id t && holds t.lease_owner (λ o. str_eq o owner) && is_running t.state

-- An UPDATE that reports whether it changed one row.
abbrev pub update_tasks : (Task → Bool) → (Task → Task) → Db → Bool × Db
update_tasks p f db = (count_where p db.tasks == 1, record db { tasks = update_where p f db.tasks })

abbrev pub renewed : ℕ → ℕ → Task → Task
renewed lease now t = record t { lease_until = some (now + lease) }

-- RenewLease
unfoldable pub renew_lease : ℕ → String → ℕ → ℕ → Db → Bool × Db
renew_lease id owner lease now = update_tasks (is_held id owner) (renewed lease now)

abbrev pub progressed : Task → ℕ → Task → Task
progressed s now t = record t {
  history = or_empty s.history;
  pending = or_empty s.pending;
  steps = s.steps;
  updated_at = now;
}

-- SaveProgress: `s` is the worker's copy of the task.
unfoldable pub save_progress : Task → String → ℕ → Db → Bool × Db
save_progress s owner now = update_tasks (is_held s.id owner) (progressed s now)

abbrev pub moved : Task → TaskState → String → ℕ → Task → Task
moved s state result now t = record t {
  state = state;
  result = result;
  history = or_empty s.history;
  pending = or_empty s.pending;
  steps = s.steps;
  lease_owner = none;
  lease_until = none;
  updated_at = now;
}

-- SetTaskState: the lease is released.
unfoldable pub set_task_state : Task → String → TaskState → String → ℕ → Db → Bool × Db
set_task_state s owner state result now =
    update_tasks (is_held s.id owner) (moved s state result now)

-- The write at the end of ResumeTask.
abbrev pub resumed : Task → ℕ → Task → Task
resumed u now t = record t {
  state = u.state;
  result = u.result;
  history = or_empty u.history;
  pending = or_empty u.pending;
  updated_at = now;
}

abbrev pub write_resumed : ℕ → Db → Result Task → Result Task × Db
write_resumed now db (err e) = (err e, db)
write_resumed now db (ok u) =
    (ok u, record db { tasks = update_where (has_id u.id) (resumed u now) db.tasks })

abbrev pub resume_found : (Task → Result Task) → ℕ → Db → Option Task → Result Task × Db
resume_found update now db none = (err not_found, db)
resume_found update now db (some t) =
    if is_waiting t.state then write_resumed now db (update t) else (err not_found, db)

-- ResumeTask. An error of `update` rolls the transaction back. The Go function returns the task that
-- `update` left, not the row.
unfoldable pub resume_task : ℕ → (Task → Result Task) → ℕ → Db → Result Task × Db
resume_task id update now db = resume_found update now db (find_where (has_id id) db.tasks)

abbrev pub cancelled_by_user : ℕ → Task → Task
cancelled_by_user now t = record t {
  state = TaskState.cancelled;
  result = "Cancelled by the user.";
  lease_owner = none;
  lease_until = none;
  updated_at = now;
}

abbrev pub withdrawn : Confirmation → Confirmation
withdrawn c = record c { state = ConfirmationState.cancelled }

-- A pending question of the task.
abbrev pub asks_for : ℕ → Confirmation → Bool
asks_for id c = holds c.task_id (λ t. t == id) && is_pending c.state

abbrev pub is_open : ℕ → String → ℕ → Task → Bool
is_open tenant user id t = has_id id t && owned_by tenant user t && not (is_terminal t.state)

abbrev pub cancel_found : ℕ → String → ℕ → ℕ → Db → Option Task → Result Task × Db
cancel_found tenant user id now db none = (task tenant user id db, db)
cancel_found tenant user id now db (some t) = (
  ok (cancelled_by_user now t),
  record db {
    tasks = update_where (is_open tenant user id) (cancelled_by_user now) db.tasks;
    confirmations = update_where (asks_for id) withdrawn db.confirmations;
  },
)

-- CancelTask: an unfinished task, with its pending confirmations; a finished one is only loaded.
unfoldable pub cancel_task : ℕ → String → ℕ → ℕ → Db → Result Task × Db
cancel_task tenant user id now db =
    cancel_found tenant user id now db (find_where (is_open tenant user id) db.tasks)

-- TaskState
unfoldable pub task_state : ℕ → Db → Result TaskState
task_state id db = elim (find_where (has_id id) db.tasks) [
  | none ↦ err not_found
  | some t ↦ ok t.state
]
