-- ===== src/Orchestrator/Engine/Voice.antt =====
-- The function calls of a voice conversation: voiceTool, voiceCall, askConfirmation, startTask and
-- awaitApproval of services/orchestrator/internal/engine/voice.go. Audit records, metrics, logs and
-- the waking of idle workers are left out.
pub mod Permitted
use cratos_ai.Prelude.{
  ℕ, ◌+◌, Bool, true, false, not, Option, none, some, List, [], ◌∷◌, String, str_eq, if◌then◌else◌,
  Result, ok, err,
}
use cratos_ai.Orchestrator.Model.{
  Target, Task, TaskState, TaskKind, Confirmation, ConfirmationState, Conversation, CallResult,
  NotificationKind, Db,
}
use cratos_ai.Orchestrator.Tasks.{create_task}
use cratos_ai.Orchestrator.Confirmations.{create_confirmation}
use cratos_ai.Orchestrator.Engine.{
  Action, McpCall, Pause, PendingApproval, Outcome, Services, failure, plain, dispatch,
  settle_action,
}
use cratos_ai.Orchestrator.Engine.Telling.{approval_expiry, keep_approval, notify}
use cratos_ai.Orchestrator.Engine.Running.{find_target}

-- What lies outside: JSON, the texts that are rendered, the answers of other services and new ids.
-- `read_goal` is the trimmed goal, cut to its greatest length, if there is one.
pub record VoiceWorld : Type 0 where
  pub services : Services
  pub is_json : String → Bool
  pub read_goal : String → Option String
  pub read_confirmation_id : String → Option ℕ
  pub unknown_tool : String → String
  pub build_catalog : Option (List (String × Target))
  pub first_history : String → String
  pub needs_confirmation : Confirmation → String
  pub task_started : ℕ → String
  pub waiting_for_approval : ℕ → String
  pub run_goal : PendingApproval → String
  pub new_id : ℕ
  pub confirmation_ttl : ℕ
  pub task_timeout : ℕ

module _ (w : VoiceWorld) where
  -- failure
  abbrev pub refuses : String → (String × Bool)
  refuses m = failure w.services m

  -- A row of a new task of the conversation.
  abbrev pub new_task :
      Conversation
      → TaskKind
      → String
      → TaskState
      → List (String × Target)
      → String
      → String
      → ℕ
      → Task
  new_task conv kind goal state tools history pending deadline = record {
    id = w.new_id;
    tenant_id = conv.tenant_id;
    user_id = conv.user_id;
    conversation_id = some conv.id;
    kind = kind;
    provider = conv.provider;
    goal = goal;
    state = state;
    result = "";
    steps = 0;
    tools = tools;
    history = history;
    pending = pending;
    deadline = deadline;
    created_at = 0;
    updated_at = 0;
    lease_owner = none;
    lease_until = none;
  }

  abbrev pub question_of_call : Conversation → String → Action → String → ℕ → Confirmation
  question_of_call conv call_id a summary now = record {
    id = w.new_id;
    conversation_id = conv.id;
    task_id = none;
    call_id = call_id;
    action = w.services.write_action a;
    summary = summary;
    asked_turn = none;
    state = ConfirmationState.pending;
    expires_at = now + w.confirmation_ttl;
  }

  abbrev pub asked_or_failed : Confirmation → Result (Unit {0}) × Db → (String × Bool) × Db
  asked_or_failed c (err e, db) = (refuses "could not prepare the action", db)
  asked_or_failed c (ok u, db) = ((w.needs_confirmation c, false), db)

  -- askConfirmation
  unfoldable pub ask_confirmation :
      Conversation → String → Action → String → ℕ → Db → (String × Bool) × Db
  ask_confirmation conv call_id a summary now db =
      let c = question_of_call conv call_id a summary now in
      asked_or_failed c (create_confirmation c db)

  abbrev pub started_or_failed : Result (Unit {0}) × Db → (String × Bool) × Db
  started_or_failed (err e, db) = (refuses "could not start the task", db)
  started_or_failed (ok u, db) = ((w.task_started w.new_id, false), db)

  abbrev pub start_with :
      Conversation → String → ℕ → Db → Option (List (String × Target)) → (String × Bool) × Db
  start_with conv goal now db none = (refuses "could not start the task", db)
  start_with conv goal now db (some tools) = started_or_failed (
      create_task now
        (new_task conv TaskKind.agent goal TaskState.queued tools (w.first_history goal) ""
          (now + w.task_timeout))
        db)

  -- startTask
  unfoldable pub start_task : Conversation → String → ℕ → Db → (String × Bool) × Db
  start_task conv goal now db = start_with conv goal now db w.build_catalog

  abbrev pub kept_or_failed : Task → ℕ → Result (Unit {0}) × Db → (String × Bool) × Db
  kept_or_failed t now (err e, db) = (refuses "could not queue the command", db)
  kept_or_failed t now (ok u, db) =
      ((w.waiting_for_approval t.id, false), notify t NotificationKind.approval_needed now db)

  abbrev pub queued_or_failed :
      Task → PendingApproval → ℕ → Result (Unit {0}) × Db → (String × Bool) × Db
  queued_or_failed t p now (err e, db) = (refuses "could not queue the command", db)
  queued_or_failed t p now (ok u, db) = kept_or_failed t now (keep_approval t.id "" p now db)

  -- awaitApproval
  unfoldable pub await_approval : Conversation → PendingApproval → ℕ → Db → (String × Bool) × Db
  await_approval conv p now db =
      let t =
        new_task conv TaskKind.command (w.run_goal p) TaskState.awaiting_approval [] "" p.command
          (approval_expiry p now) in
      queued_or_failed t p now (create_task now t db)

  abbrev pub without_pause : (String × Bool) × Db → Outcome × Db
  without_pause (r, db) = (plain w.services r, db)

  abbrev pub start_if : Conversation → ℕ → Db → Option String → Outcome × Db
  start_if conv now db none = (plain w.services (refuses "goal is required"), db)
  start_if conv now db (some goal) = without_pause (start_task conv goal now db)

  abbrev pub settle_if : Conversation → ℕ → Bool → ℕ → Db → Option ℕ → Outcome × Db
  settle_if conv turn confirm now db none =
      (plain w.services (refuses "confirmation_id is required"), db)
  settle_if conv turn confirm now db (some id) =
      let r = settle_action w.services conv.id id turn confirm now db in
      (record { output = r.0.0; is_error = r.0.1; pause = none; calls = r.1 }, r.2)

  abbrev pub run_target : Conversation → String → String → ℕ → ℕ → Db → Option Target → Outcome × Db
  run_target conv name args turn now db none =
      (plain w.services (refuses (w.unknown_tool name)), db)
  run_target conv name args turn now db (some t) =
      if not (w.is_json args)
      then (plain w.services (refuses "arguments must be a JSON object"), db)
      else if str_eq t.kind "start_task"
      then start_if conv now db (w.read_goal args)
      else if str_eq t.kind "confirm_action"
      then settle_if conv turn true now db (w.read_confirmation_id args)
      else if str_eq t.kind "cancel_action"
      then settle_if conv turn false now db (w.read_confirmation_id args)
      else (dispatch w.services t args, db)

  -- voiceTool
  unfoldable pub voice_tool : Conversation → String → String → ℕ → ℕ → Db → Outcome × Db
  voice_tool conv name args turn now db =
      run_target conv name args turn now db (find_target name conv.tools)

  abbrev pub asked_result : (String × Bool) × Db → CallResult × Db
  asked_result ((out, is_error), db) =
      (record { output = out; is_error = is_error; ack_required = not is_error }, db)

  abbrev pub plain_result : (String × Bool) × Db → CallResult × Db
  plain_result ((out, is_error), db) =
      (record { output = out; is_error = is_error; ack_required = false }, db)

  abbrev pub settle_pause :
      Conversation → String → ℕ → Outcome → Db → Option Pause → CallResult × Db
  settle_pause conv call_id now o db none = plain_result ((o.output, o.is_error), db)
  settle_pause conv call_id now o db (some (Pause.asks a summary)) =
      asked_result (ask_confirmation conv call_id a summary now db)
  settle_pause conv call_id now o db (some (Pause.approves p)) =
      plain_result (await_approval conv p now db)

  -- voiceCall, with the calls of integrations that it made.
  unfoldable pub voice_call :
      Conversation → String → String → String → ℕ → ℕ → Db → (CallResult × Db) × List McpCall
  voice_call conv call_id name args turn now db =
      let (o, db') = voice_tool conv name args turn now db in
      (settle_pause conv call_id now o db' o.pause, o.calls)
