-- ===== src/Orchestrator/Engine/Running.antt =====
-- The worker's loop over a task: runTask, save, finish and pauseTask of
-- services/orchestrator/internal/engine/tasks.go. One pass of the loop is a step; what other sessions
-- do to the database in the meantime, how late it is, whether the context has ended, whether the
-- database answers SetTaskState and what the model and the tools answer are given for each pass by its
-- number.
pub mod Fuel
pub mod Held
pub mod Pausing
pub mod Release
pub mod Failing
use cratos_ai.Prelude.{
  ℕ, ◌+◌, ltb, leb, Bool, true, false, Option, none, some, List, [], ◌∷◌, ◌++◌, String, str_eq,
  if◌then◌else◌, Result, ok, err, zero, suc,
}
use cratos_ai.Orchestrator.Model.{
  Target, Task, TaskState, Confirmation, ConfirmationState, NotificationKind, Db,
}
use cratos_ai.Orchestrator.Tasks.{save_progress, set_task_state, resume_task, lease_task}
use cratos_ai.Orchestrator.Confirmations.{create_confirmation}
use cratos_ai.Orchestrator.Engine.{
  Action, ToolCall, Pause, PendingApproval, Outcome, Services, failure, plain, dispatch,
  complete_pending,
}
use cratos_ai.Orchestrator.Engine.Telling.{emit, notify, tell_finished, keep_approval}

abbrev pub max_transient_errors : ℕ
max_transient_errors = 3

-- A minute, in microseconds.
abbrev pub task_lease : ℕ
task_lease = 60000000

-- The answer of decide: a step of the model with its calls and its text, an error that the user has
-- to mend, another error, with whether the context ended in the pause after it, or any error when the
-- context has ended.
pub data Decision : Type 0 where
  model_step : String → List ToolCall → String → Decision
  permanent : String → Decision
  transient_error : Bool → Decision
  cut_short : Decision

-- How a run ends: the task finishes or pauses, or the context ends; `exhausted` is the model's own.
pub data End : Type 0 where
  finished_as : TaskState → End
  paused_task interrupted exhausted : End

-- What lies outside a run, by the number of the pass. `services` encodes the task's state.
pub record World : Type 0 where
  pub services : Services
  pub answers : ℕ → Services
  pub decide : ℕ → Task → List String → Decision
  pub ended : ℕ → Bool
  pub writes : ℕ → Bool
  pub now : ℕ → ℕ
  pub meddle : ℕ → Db → Db
  pub new_id : ℕ → ℕ
  pub owner : String
  pub max_steps : ℕ
  pub confirmation_ttl : ℕ
  pub unknown_tool : String → String
  pub clip_result : String → String
  pub finished_event : Task → String
  pub question_event : Task → Confirmation → String
  pub approval_event : Task → PendingApproval → String

-- The variables of runTask's loop.
pub record Progress : Type 0 where
  pub task : Task
  pub items : List String
  pub calls : List ToolCall
  pub transient : ℕ

pub data Next : Type 0 where
  stops : End → Db → Next
  goes : Progress → Db → Next

abbrev pub find_target : String → List (String × Target) → Option Target
find_target name [] = none
find_target name ((n, t) ∷ ts) =
    let rest = find_target name ts in if str_eq n name then some t else rest

module _ (w : World) where
  -- The task with its history and pending calls encoded.
  abbrev pub encoded : Task → List String → List ToolCall → Task
  encoded t items calls = record t {
    history = w.services.write_items items;
    pending = w.services.write_calls calls;
  }

  -- save
  unfoldable pub save : Task → List String → List ToolCall → ℕ → Db → Db
  save t items calls now db = (save_progress (encoded t items calls) w.owner now db).1

  abbrev pub ended_as : Task → List String → List ToolCall → TaskState → String → Task
  ended_as t items calls state result = record (encoded t items calls) {
    state = state;
    result = w.clip_result result;
  }

  -- SetTaskState in the k-th pass: where the database does not answer, nothing is written.
  abbrev pub store_state : ℕ → Task → TaskState → String → Db → Bool × Db
  store_state k t state result db =
      if w.writes k then set_task_state t w.owner state result (w.now k) db else (false, db)

  -- finish, in the k-th pass
  unfoldable pub finish_task : Task → List String → List ToolCall → TaskState → String → ℕ → Db → Db
  finish_task t items calls state result k db =
      let t' = ended_as t items calls state result in
      let (written, db') = store_state k t' state t'.result db in
      if written then tell_finished w.finished_event t' (w.now k) db' else db'

  abbrev pub not_asked : String
  not_asked =
      w.services.message "error"
        "The user could not be asked to confirm this action; it was not done."

  -- expireWithoutConversation
  unfoldable pub expire_without_conversation : Task → String → ℕ → Db → Db
  expire_without_conversation t call_id now db =
      (resume_task t.id (λ u. complete_pending w.services u call_id not_asked) now db).1

  abbrev pub confirmation_of : ℕ → Task → Action → String → String → ℕ → ℕ → Confirmation
  confirmation_of id t a summary call_id conversation now = record {
    id = id;
    conversation_id = conversation;
    task_id = some t.id;
    call_id = call_id;
    action = w.services.write_action a;
    summary = summary;
    asked_turn = none;
    state = ConfirmationState.pending;
    expires_at = now + w.confirmation_ttl;
  }

  abbrev pub told_question : Task → Confirmation → ℕ → Result (Unit {0}) × Db → Db
  told_question t c now (err e, db) = db
  told_question t c now (ok u, db) =
      let (heard, db') = emit t.conversation_id (w.question_event t c) (some c.id) now db in
      if heard
      then db'
      else notify (record t { state = TaskState.awaiting_confirmation })
          NotificationKind.confirmation_needed now db'

  abbrev pub ask_user : ℕ → Task → Action → String → String → ℕ → Db → Option ℕ → Db
  ask_user id t a summary call_id now db none = expire_without_conversation t call_id now db
  ask_user id t a summary call_id now db (some conversation) =
      let c = confirmation_of id t a summary call_id conversation now in
      told_question t c now (create_confirmation c db)

  abbrev pub told_approval : Task → PendingApproval → ℕ → Result (Unit {0}) × Db → Db
  told_approval t p now (err e, db) = db
  told_approval t p now (ok u, db) =
      notify (record t { state = TaskState.awaiting_approval }) NotificationKind.approval_needed now
        (emit t.conversation_id (w.approval_event t p) none now db).1

  -- pauseTask in the k-th pass, for the call that waits.
  unfoldable pub pause_task : Task → List String → List ToolCall → String → ℕ → Pause → Db → Db
  pause_task t items calls call_id k (Pause.asks a summary) db =
      let t' = encoded t items calls in
      let (written, db') = store_state k t' TaskState.awaiting_confirmation "" db in
      if written
      then ask_user (w.new_id k) t' a summary call_id (w.now k) db' t.conversation_id
      else db'
  pause_task t items calls call_id k (Pause.approves p) db =
      let t' = encoded t items calls in
      let (written, db') = store_state k t' TaskState.awaiting_approval "" db in
      if written
      then told_approval t' p (w.now k) (keep_approval t.id call_id p (w.now k) db')
      else db'

  abbrev pub call_outcome : ℕ → ToolCall → Option Target → Outcome
  call_outcome k call none = plain w.services (failure w.services (w.unknown_tool call.name))
  call_outcome k call (some target) = dispatch (w.answers k) target call.arguments

  -- What follows a call: the task pauses, or has the result.
  abbrev pub after_call :
      ℕ → Progress → ToolCall → List ToolCall → String → Db → Option Pause → Next
  after_call k p call calls out db (some pause) =
      stops paused_task (pause_task p.task p.items (call ∷ calls) call.call_id k pause db)
  after_call k p call calls out db none =
      let items = p.items ++ w.services.tool_result call.call_id out ∷ [] in
      goes (record p { task = encoded p.task items calls; items = items; calls = calls })
        (save p.task items calls (w.now k) db)

  abbrev pub failed : ℕ → Progress → String → Db → Next
  failed k p why db =
      stops (finished_as TaskState.failed)
        (finish_task p.task p.items p.calls TaskState.failed why k db)

  abbrev pub unavailable_message : String
  unavailable_message = "The AI provider is unavailable right now; try again later."

  abbrev pub one_step : Task → Task
  one_step t = record t { steps = t.steps + 1 }

  -- What follows the model's answer.
  abbrev pub after_decision : ℕ → Progress → Db → Decision → Next
  after_decision k p db cut_short = stops interrupted db
  after_decision k p db (permanent message) = failed k p message db
  after_decision k p db (transient_error cut_off) =
      if leb max_transient_errors (p.transient + 1)
      then failed k p unavailable_message db
      else if cut_off
      then stops interrupted db
      else goes (record p { transient = p.transient + 1 }) db
  after_decision k p db (model_step item [] text) =
      stops (finished_as TaskState.succeeded)
        (finish_task (one_step p.task) (p.items ++ item ∷ []) [] TaskState.succeeded text k db)
  after_decision k p db (model_step item (c ∷ cs) text) =
      let items = p.items ++ item ∷ [] in
      let t = one_step p.task in
      goes
        (record { task = encoded t items (c ∷ cs); items = items; calls = c ∷ cs; transient = 0 })
        (save t items (c ∷ cs) (w.now k) db)

  -- What the loop does in time: the next pending call, or the next step of the model.
  abbrev pub advance : ℕ → Progress → Db → List ToolCall → Next
  advance k p db (call ∷ calls) =
      let o = call_outcome k call (find_target call.name p.task.tools) in
      after_call k p call calls o.output db o.pause
  advance k p db [] =
      if leb w.max_steps p.task.steps
      then failed k p "The task needed too many steps and was stopped." db
      else after_decision k p db (w.decide k p.task p.items)

  -- One pass of runTask's loop.
  unfoldable pub pass : ℕ → Progress → Db → Next
  pass k p before =
      let db = w.meddle k before in
      if w.ended k
      then stops interrupted db
      else if ltb p.task.deadline (w.now k)
      then failed k p "The task took too long and was stopped." db
      else advance k p db p.calls

  abbrev pub go_on : (Progress → Db → End × Db) → Next → End × Db
  go_on rest (stops e db) = (e, db)
  go_on rest (goes p db) = rest p db

  -- The loop of runTask, for so many passes, from the k-th.
  unfoldable pub run_loop : ℕ → ℕ → Progress → Db → End × Db
  run_loop zero k p db = (exhausted, db)
  run_loop (suc fuel) k p db = go_on (run_loop fuel (suc k)) (pass k p db)

  abbrev pub run_decoded : ℕ → Task → Db → Option (List String) → Option (List ToolCall) → End × Db
  run_decoded fuel t db (some items) (some calls) =
      run_loop fuel 0 (record { task = t; items = items; calls = calls; transient = 0 }) db
  run_decoded fuel t db none calls = (
    finished_as TaskState.failed,
    finish_task t [] [] TaskState.failed "The task's saved state is unreadable." 0 db,
  )
  run_decoded fuel t db (some items) none = (
    finished_as TaskState.failed,
    finish_task t [] [] TaskState.failed "The task's saved state is unreadable." 0 db,
  )

  -- runTask
  unfoldable pub run_task : ℕ → Task → Db → End × Db
  run_task fuel t db =
      run_decoded fuel t db (w.services.read_items t.history) (w.services.read_calls t.pending)
