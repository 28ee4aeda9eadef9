-- ===== src/Orchestrator/Engine/Telling.antt =====
-- How the orchestrator tells a user about a task: emit and notify of
-- services/orchestrator/internal/engine/engine.go, and finished, Cancel and the approval rows of
-- tasks.go and voice.go. A notification is queued by a statement that succeeds; metrics, logs, audit records and the waking of streams are left out.
use cratos_ai.Prelude.{
  ℕ, ◌+◌, ltb, Bool, true, false, not, ◌&&◌, ◌||◌, Option, none, some, String, if◌then◌else◌,
  Result, ok, err,
}
use cratos_ai.Orchestrator.Model.{Task, TaskState, NotificationKind, Db, is_terminal}
use cratos_ai.Orchestrator.Tasks.{task, cancel_task}
use cratos_ai.Orchestrator.Events.{add_event}
use cratos_ai.Orchestrator.Notifications.{add_notification}
use cratos_ai.Orchestrator.Devices.{save_approval}
use cratos_ai.Orchestrator.Engine.{PendingApproval}

abbrev pub heard_by : Result (ℕ × Bool) × Db → Bool × Db
heard_by (ok (target, live), db) = (live, db)
heard_by (err e, db) = (false, db)

-- emit: whether a live conversation got the event.
unfoldable pub emit : Option ℕ → String → Option ℕ → ℕ → Db → Bool × Db
emit none payload confirmation now db = (false, db)
emit (some conversation) payload confirmation now db =
    heard_by (add_event conversation payload confirmation now db)

-- notify; the columns that AddNotification does not name are set by it.
unfoldable pub notify : Task → NotificationKind → ℕ → Db → Db
notify t kind now db =
    add_notification
      (record {
        id = 0;
        tenant_id = t.tenant_id;
        user_id = t.user_id;
        kind = kind;
        task_id = t.id;
        task_state = t.state;
        created_at = now;
        claimed_by = none;
        claimed_until = none;
        attempts = 0;
        done_at = none;
      })
      now db

abbrev pub is_cancelled : TaskState → Bool
is_cancelled TaskState.cancelled = true
is_cancelled _ = false

-- finished: the conversation that started the task hears how it ended, or else the phone, unless the
-- user cancelled it. `payload` encodes the event.
unfoldable pub tell_finished : (Task → String) → Task → ℕ → Db → Db
tell_finished payload t now db =
    let (heard, db') = emit t.conversation_id (payload t) none now db in
    if heard || is_cancelled t.state then db' else notify t NotificationKind.task_finished now db'

abbrev pub told_cancelled : (Task → String) → Task → ℕ → Result Task × Db → Result Task × Db
told_cancelled payload before now (err e, db) = (err e, db)
told_cancelled payload before now (ok t, db) = (
  ok t,
  if not (is_terminal before.state) && is_cancelled t.state
      then tell_finished payload t now db
      else db,
)

abbrev pub cancel_seen : (Task → String) → ℕ → String → ℕ → ℕ → Db → Result Task → Result Task × Db
cancel_seen payload tenant user id now db (err e) = (err e, db)
cancel_seen payload tenant user id now db (ok before) =
    told_cancelled payload before now (cancel_task tenant user id now db)

-- Cancel
unfoldable pub cancel : (Task → String) → ℕ → String → ℕ → ℕ → Db → Result Task × Db
cancel payload tenant user id now db =
    cancel_seen payload tenant user id now db (task tenant user id db)

-- Five minutes, in microseconds.
abbrev pub default_expiry : ℕ
default_expiry = 300000000

abbrev pub expiry_at : ℕ → Option ℕ → ℕ
expiry_at now none = now + default_expiry
expiry_at now (some t) = if ltb now t then t else now + default_expiry

-- approvalExpiry
unfoldable pub approval_expiry : PendingApproval → ℕ → ℕ
approval_expiry p now = expiry_at now p.expires

-- saveApproval
unfoldable pub keep_approval : ℕ → String → PendingApproval → ℕ → Db → Result (Unit {0}) × Db
keep_approval task call_id p now db =
    save_approval
      (record {
        approval_id = p.approval_id;
        device_id = p.device_id;
        task_id = task;
        call_id = call_id;
        command = p.command;
        payload = p.payload;
        expires_at = approval_expiry p now;
      })
      db
