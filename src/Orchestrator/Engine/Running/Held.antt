-- ===== src/Orchestrator/Engine/Running/Held.antt =====
-- What the statements of a worker leave of its hold on a task, and which of them write no task.
use cratos_ai.Prelude.{
  ℕ, ◌≡◌, ◌==◌, ◌||◌, Bool, true, refl, Option, none, some, List, [], ◌∷◌, String, str_eq, arith,
  Bool-cases, Result-cases, Result, ok, inl, inr,
}
use cratos_ai.Orchestrator.Model.{Task, TaskState, Confirmation, Db, is_queued, is_waiting}
use cratos_ai.Orchestrator.Tasks.{
  is_held, moved, progressed, save_progress, set_task_state, resume_task, resumed, has_id,
}
use cratos_ai.Prelude.Rows.{find-update}
use cratos_ai.Orchestrator.Tasks.Invariant.{task_id}
use cratos_ai.Orchestrator.Tasks.Terminal.{Has}
use cratos_ai.Orchestrator.Events.{add_event}
use cratos_ai.Orchestrator.Notifications.{add_notification}
use cratos_ai.Orchestrator.Confirmations.{create_confirmation, move_confirmations}
use cratos_ai.Orchestrator.Devices.{save_approval}
use cratos_ai.Orchestrator.Engine.{
  Services, ToolCall, PendingApproval, complete_pending, complete_decoded,
}
use cratos_ai.Orchestrator.Engine.Telling.{emit, notify, tell_finished, keep_approval}

-- The task's row is the worker's.
abbrev pub InHand : ℕ → String → Db → Type 0
InHand id owner db = (t : Task) × Has id t db.tasks × (is_held id owner t ≡ true)

-- The task's row has the state and the result.
abbrev pub Stands : ℕ → TaskState → String → Db → Type 0
Stands id state result db = (t : Task) × Has id t db.tasks × (t.state ≡ state) × (t.result ≡ result)

-- The task waits for its user, or has been given back to the workers.
abbrev pub is_paused : TaskState → Bool
is_paused state = is_waiting state || is_queued state

abbrev pub Paused : ℕ → Db → Type 0
Paused id db = (t : Task) × Has id t db.tasks × (is_paused t.state ≡ true)

pub emit-tasks :
    (c : Option ℕ) (payload : String) (q : Option ℕ) (now : ℕ) (db : Db)
    → (emit c payload q now db).1.tasks ≡ db.tasks
unfolding emit add_event move_confirmations
emit-tasks none payload q now db = refl
emit-tasks (some c) payload q now db = ground arith

pub tell_finished-tasks :
    (payload : Task → String) (t : Task) (now : ℕ) (db : Db)
    → (tell_finished payload t now db).tasks ≡ db.tasks
unfolding tell_finished notify add_notification
tell_finished-tasks payload t now db =
    let e = emit-tasks t.conversation_id (payload t) none now db in ground (arith, e)

pub set_task_state-Stands :
    (s : Task) (owner : String) (state : TaskState) (result : String) (now : ℕ) (db : Db)
    → InHand s.id owner db
    → Stands s.id state result (set_task_state s owner state result now db).1
unfolding set_task_state
set_task_state-Stands s owner state result now db (t, h, held) =
    let f = moved s state result now in
    let row = find-update task_id (is_held s.id owner) f (λ r. refl) s.id db.tasks t h in
    (f t, rw held at row, refl, refl)

pub save_progress-InHand :
    (s : Task) (owner : String) (now : ℕ) (db : Db)
    → InHand s.id owner db
    → InHand s.id owner (save_progress s owner now db).1
unfolding save_progress
save_progress-InHand s owner now db (t, h, held) =
    let f = progressed s now in
    let row = find-update task_id (is_held s.id owner) f (λ r. refl) s.id db.tasks t h in
    (f t, rw held at row, held)

complete_decoded-state :
    (sv : Services) (t u : Task) (call_id out : String) (items : Option (List String))
    (calls : Option (List ToolCall))
    → complete_decoded sv t call_id out items calls ≡ ok u
    → is_queued u.state ≡ true
complete_decoded-state sv t u call_id out none calls e = cc
complete_decoded-state sv t u call_id out (some items) none e = cc
complete_decoded-state sv t u call_id out (some items) (some []) e = cc
complete_decoded-state sv t u call_id out (some items) (some (c ∷ cs)) e =
    elim (Bool-cases (str_eq c.call_id call_id)) [
      | inr other ↦ absurd (cc (rw other at e))
      | inl same ↦ ground (arith, rw same at e)
    ]

pub complete_pending-state :
    (sv : Services) (t u : Task) (call_id out : String)
    → complete_pending sv t call_id out ≡ ok u
    → is_queued u.state ≡ true
unfolding complete_pending
complete_pending-state sv t u call_id out e =
    complete_decoded-state sv t u call_id out (sv.read_items t.history) (sv.read_calls t.pending) e

pub resume_task-Paused :
    (id : ℕ) (f : Task → Result Task) (now : ℕ) (t : Task) (db : Db)
    → ((r u : Task) → f r ≡ ok u → is_queued u.state ≡ true)
    → Has id t db.tasks
    → is_waiting t.state ≡ true
    → Paused id (resume_task id f now db).1
unfolding resume_task
resume_task-Paused id f now t db queues h waits = elim (Result-cases (f t)) [
  | inr (x, er) ↦ rw (h, waits, er) (t, h, ground (arith, waits))
  | inl (u, er) ↦
      let row = find-update task_id (has_id u.id) (resumed u now) (λ r. refl) id db.tasks t h in
      elim (Bool-cases (t.id == u.id)) [
        | inl same ↦
            rw (h, waits, er) (resumed u now t, rw same at row, ground (arith, queues t u er))
        | inr other ↦ rw (h, waits, er) (t, rw other at row, ground (arith, waits))
      ]
]

pub create_confirmation-tasks :
    (c : Confirmation) (db : Db) → (create_confirmation c db).1.tasks ≡ db.tasks
unfolding create_confirmation
create_confirmation-tasks c db = ground arith

pub keep_approval-tasks :
    (task : ℕ) (call_id : String) (p : PendingApproval) (now : ℕ) (db : Db)
    → (keep_approval task call_id p now db).1.tasks ≡ db.tasks
unfolding keep_approval save_approval
keep_approval-tasks task call_id p now db = ground arith
