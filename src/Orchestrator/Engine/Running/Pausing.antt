-- ===== src/Orchestrator/Engine/Running/Pausing.antt =====
-- A task that a run pauses waits for its user, or is queued again where nobody can be asked.
use cratos_ai.Prelude.{ℕ, ◌≡◌, refl, true, Option, none, some, String, arith, Result, ok, err}
use cratos_ai.Orchestrator.Model.{Task, Confirmation, Db, is_waiting}
use cratos_ai.Orchestrator.Tasks.Terminal.{Has}
use cratos_ai.Orchestrator.Notifications.{add_notification}
use cratos_ai.Orchestrator.Confirmations.{create_confirmation}
use cratos_ai.Orchestrator.Engine.{Action, PendingApproval}
use cratos_ai.Orchestrator.Engine.Telling.{notify}
use cratos_ai.Orchestrator.Engine.Running.{
  World, ask_user, told_question, told_approval, confirmation_of, expire_without_conversation,
  not_asked,
}
use cratos_ai.Orchestrator.Engine.Running.Held.{
  Paused, emit-tasks, complete_pending-state, resume_task-Paused, create_confirmation-tasks,
}

module _ (w : World) where
  pub told_question-tasks :
      (t : Task) (c : Confirmation) (now : ℕ) (r : Result (Unit {0}) × Db)
      → (told_question w t c now r).tasks ≡ r.1.tasks
  unfolding notify add_notification
  told_question-tasks t c now (err e, db) = refl
  told_question-tasks t c now (ok u, db) =
      let e = emit-tasks t.conversation_id (w.question_event t c) (some c.id) now db in
      ground (arith, e)

  pub told_approval-tasks :
      (t : Task) (p : PendingApproval) (now : ℕ) (r : Result (Unit {0}) × Db)
      → (told_approval w t p now r).tasks ≡ r.1.tasks
  unfolding notify add_notification
  told_approval-tasks t p now (err e, db) = refl
  told_approval-tasks t p now (ok u, db) =
      emit-tasks t.conversation_id (w.approval_event t p) none now db

  abbrev pub Waiting : ℕ → Db → Type 0
  Waiting id db = (t : Task) × Has id t db.tasks × (is_waiting t.state ≡ true)

  pub Waiting-Paused : (id : ℕ) (db : Db) → Waiting id db → Paused id db
  Waiting-Paused id db (t, h, e) = (t, h, ground (arith, e))

  pub ask_user-Paused :
      (new : ℕ) (t : Task) (a : Action) (summary call_id : String) (now : ℕ) (db : Db)
      (c : Option ℕ)
      → Waiting t.id db
      → Paused t.id (ask_user w new t a summary call_id now db c)
  unfolding expire_without_conversation
  ask_user-Paused new t a summary call_id now db none (r, h, e) =
      resume_task-Paused t.id _ now r db
        (λ s u e'. complete_pending-state w.services s u call_id (not_asked w) e') h e
  ask_user-Paused new t a summary call_id now db (some conversation) h =
      let c = confirmation_of w new t a summary call_id conversation now in
      rw (told_question-tasks t c now (create_confirmation c db), create_confirmation-tasks c db)
        (Waiting-Paused t.id db h)
