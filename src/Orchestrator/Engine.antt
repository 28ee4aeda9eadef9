-- ===== src/Orchestrator/Engine.antt =====
-- How the orchestrator runs tools: services/orchestrator/internal/engine/execute.go (execute,
-- dispatch, runAction) and voice.go (settle, refuse), with completePending of tasks.go. Every answer
-- comes with the calls that were made to integrations, in order. Metrics, logs and audit records are
-- left out; a duration and the turn are numbers.
pub mod Consent
pub mod Calls
pub mod Telling
pub mod Running
pub mod Catalog
pub mod Voice
pub mod Approvals
pub mod Memory
use cratos_ai.Prelude.{
  ℕ, ltb, Bool, true, false, not, ◌&&◌, Option, none, some, List, [], ◌∷◌, ◌++◌, String, str_eq,
  if◌then◌else◌, Result, Error, ok, err, not_found, rejected,
}
use cratos_ai.Orchestrator.Model.{
  Target, Task, TaskState, Confirmation, ConfirmationState, Db, is_pending,
}
use cratos_ai.Orchestrator.Tasks.{resume_task}
use cratos_ai.Orchestrator.Confirmations.{settle, confirmation}

-- What a confirmation runs.
pub record Action : Type 0 where
  pub kind : String
  pub integration_id : String
  pub integration : String
  pub tool : String
  pub title : String
  pub arguments : String

-- A call of an integration's tool.
pub record McpCall : Type 0 where
  pub integration_id : String
  pub integration : String
  pub tool : String
  pub arguments : String

pub record ToolCall : Type 0 where
  pub call_id : String
  pub name : String
  pub arguments : String

-- pendingApproval: what a device answers to a command that needs a signed approval, with its summary.
pub record PendingApproval : Type 0 where
  pub device_id : ℕ
  pub device_name : String
  pub approval_id : String
  pub payload : String
  pub command : String
  pub expires : Option ℕ
  pub summary : String

-- Why a call must wait: for the user's confirmation, or for an approval on a device.
pub data Pause : Type 0 where
  asks : Action → String → Pause
  approves : PendingApproval → Pause

pub record Outcome : Type 0 where
  pub output : String
  pub is_error : Bool
  pub pause : Option Pause
  pub calls : List McpCall

-- What lies outside: JSON, and the services with their answers as the engine renders them.
pub record Services : Type 0 where
  pub read_query : String → Option String
  pub read_note : String → Option String
  pub write_action : Action → String
  pub read_action : String → Option Action
  pub summary : Action → String
  pub message : String → String → String
  pub nested : String → String
  pub already : ConfirmationState → String
  pub cancelled : String → String
  pub recall : String → String × Bool
  pub remember : String → String × Bool
  pub run_device : String → Outcome
  pub call_mcp : McpCall → String × Bool
  pub read_items : String → Option (List String)
  pub read_calls : String → Option (List ToolCall)
  pub write_items : List String → String
  pub write_calls : List ToolCall → String
  pub tool_result : String → String → String

module _ (sv : Services) where
  -- failure
  abbrev pub failure : String → String × Bool
  failure m = (sv.message "error" m, true)

  abbrev pub plain : String × Bool → Outcome
  plain (out, is_error) = record { output = out; is_error = is_error; pause = none; calls = [] }

  abbrev pub with_argument : Option String → (String → String × Bool) → String → Outcome
  with_argument none f missing = plain (failure missing)
  with_argument (some a) f missing = plain (f a)

  abbrev pub call_of : Target → String → McpCall
  call_of t args = record {
    integration_id = t.integration_id;
    integration = t.integration;
    tool = t.tool;
    arguments = args;
  }

  abbrev pub action_of : Target → String → Action
  action_of t args = record {
    kind = "mcp";
    integration_id = t.integration_id;
    integration = t.integration;
    tool = t.tool;
    title = t.title;
    arguments = args;
  }

  abbrev pub paused : Action → Outcome
  paused a = record {
    output = "";
    is_error = false;
    pause = some (asks a (sv.summary a));
    calls = [];
  }

  abbrev pub called : McpCall → Outcome
  called c =
      let r = sv.call_mcp c in record { output = r.0; is_error = r.1; pause = none; calls = c ∷ [] }

  -- dispatch
  unfoldable pub dispatch : Target → String → Outcome
  dispatch t args =
      if str_eq t.kind "recall_memory"
      then with_argument (sv.read_query args) sv.recall "query is required"
      else if str_eq t.kind "remember"
      then with_argument (sv.read_note args) sv.remember "note is required"
      else if str_eq t.kind "run_on_computer"
      then record (sv.run_device args) { calls = [] }
      else if str_eq t.kind "mcp"
      then (if t.read_only then called (call_of t args) else paused (action_of t args))
      else plain (failure "this tool is not available here")

  abbrev pub action_call : Action → McpCall
  action_call a = record {
    integration_id = a.integration_id;
    integration = a.integration;
    tool = a.tool;
    arguments = a.arguments;
  }

  -- runAction
  unfoldable pub run_action : Action → (String × Bool) × List McpCall
  run_action a =
      if str_eq a.kind "mcp"
      then (sv.call_mcp (action_call a), action_call a ∷ [])
      else (failure "unknown action", [])

  abbrev pub complete_first : Task → String → String → List String → List ToolCall → Result Task
  complete_first t call_id out items [] = err rejected
  complete_first t call_id out items (c ∷ cs) =
      if str_eq c.call_id call_id
      then ok (record t {
        history = sv.write_items (items ++ sv.tool_result call_id out ∷ []);
        pending = sv.write_calls cs;
        state = TaskState.queued;
      })
      else err rejected

  abbrev pub complete_decoded :
      Task → String → String → Option (List String) → Option (List ToolCall) → Result Task
  complete_decoded t call_id out none cs = err rejected
  complete_decoded t call_id out (some items) none = err rejected
  complete_decoded t call_id out (some items) (some cs) = complete_first t call_id out items cs

  -- completePending
  unfoldable pub complete_pending : Task → String → String → Result Task
  complete_pending t call_id out =
      complete_decoded t call_id out (sv.read_items t.history) (sv.read_calls t.pending)

  abbrev pub declined : String
  declined = sv.message "error" "The user declined this action; it was not done."

  -- The end of settle, once the action has been done or not: the task that waited on it continues.
  abbrev pub continue :
      Confirmation
      → Bool
      → ℕ
      → Db
      → Option ℕ
      → (String × Bool) × List McpCall
      → (String × Bool) × List McpCall × Db
  continue conf confirm now db none (result, calls) = (result, calls, db)
  continue conf confirm now db (some task) (result, calls) =
      let out = if confirm then result.0 else declined in
      let db' = (resume_task task (λ t. complete_pending t conf.call_id out) now db).1 in
      if confirm
      then ((sv.nested result.0, result.1), calls, db')
      else ((sv.cancelled "The task continues without this action.", false), calls, db')

  abbrev pub done_or_not : Bool → Action → (String × Bool) × List McpCall
  done_or_not true a = run_action a
  done_or_not false a = ((sv.cancelled "The action was not done.", false), [])

  abbrev pub settle_read :
      Confirmation → Bool → ℕ → Db → Option Action → (String × Bool) × List McpCall × Db
  settle_read conf confirm now db none = (failure "the action is unreadable", [], db)
  settle_read conf confirm now db (some a) =
      continue conf confirm now db conf.task_id (done_or_not confirm a)

  -- refuse: why a confirmation was not accepted.
  abbrev pub refusal : Bool → ℕ → Result Confirmation → String × Bool
  refusal confirm now (err not_found) = failure "unknown confirmation_id"
  refusal confirm now (err rejected) = failure "could not check the action"
  refusal confirm now (ok c) =
      if not (is_pending c.state)
      then failure (sv.already c.state)
      else if ltb c.expires_at now
      then failure "this action expired; ask the user again if they still want it"
      else if confirm
      then failure
          "The user has not answered yet. Ask them and wait for their reply before calling confirm_action."
      else failure "could not cancel the action"

  abbrev pub settle_answered :
      ℕ → ℕ → Bool → ℕ → Result Confirmation → Db → (String × Bool) × List McpCall × Db
  settle_answered conversation id confirm now (ok conf) db =
      settle_read conf confirm now db (sv.read_action conf.action)
  settle_answered conversation id confirm now (err not_found) db =
      (refusal confirm now (confirmation conversation id db), [], db)
  settle_answered conversation id confirm now (err rejected) db =
      (failure "could not settle the action", [], db)

  -- settle
  unfoldable pub settle_action : ℕ → ℕ → ℕ → Bool → ℕ → Db → (String × Bool) × List McpCall × Db
  settle_action conversation id turn confirm now db =
      let (r, db') = settle conversation id turn confirm now db in
      settle_answered conversation id confirm now r db'
