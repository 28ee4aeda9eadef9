-- ===== src/Orchestrator/EngineTests.antt =====
-- The theorems about the engine at a concrete tool and a concrete question.
use cratos_ai.Prelude.{◌≡◌, refl, true, false, none, some, [], ◌∷◌, ◌⊎◌}
use cratos_ai.Orchestrator.Model.{Target, Confirmation, ConfirmationState, Db}
use cratos_ai.Orchestrator.Engine.{Services, Action, dispatch, call_of, settle_action}
use cratos_ai.Orchestrator.Engine.Consent.{Consented, dispatch-calls, settle_action-consent}

abbrev sending : Action
sending = record {
  kind = "mcp";
  integration_id = "i1";
  integration = "mail";
  tool = "send";
  title = "Send";
  arguments = "{}";
}

abbrev pub services : Services
services = record {
  read_query = λ s. some s;
  read_note = λ s. none;
  write_action = λ a. a.tool;
  read_action = λ s. some sending;
  summary = λ a. a.title;
  message = λ k m. m;
  nested = λ r. r;
  already = λ s. "this action was already answered";
  cancelled = λ m. m;
  recall = λ q. (q, false);
  remember = λ n. (n, false);
  run_device = λ s. record { output = s; is_error = false; pause = none; calls = [] };
  call_mcp = λ c. (c.tool, false);
  read_items = λ s. some [];
  read_calls = λ s. some [];
  write_items = λ is. "[]";
  write_calls = λ cs. "[]";
  tool_result = λ c o. o;
}

abbrev pub reading : Target
reading = record {
  kind = "mcp";
  integration_id = "i1";
  integration = "mail";
  tool = "list";
  title = "List";
  read_only = true;
  description = "";
  parameters = "{}";
}

dispatch-calls_example :
    ((dispatch services reading "{}").calls ≡ [])
    ⊎ ((true ≡ true)
        × ((dispatch services reading "{}").calls ≡ call_of services reading "{}" ∷ []))
dispatch-calls_example = dispatch-calls services reading "{}"

abbrev pub question : Confirmation
question = record {
  id = 3;
  conversation_id = 5;
  task_id = none;
  call_id = "c1";
  action = "{}";
  summary = "send";
  asked_turn = some 1;
  state = ConfirmationState.pending;
  expires_at = 500;
}

abbrev pub tables : Db
tables = record {
  conversations = [];
  tasks = [];
  confirmations = question ∷ [];
  events = [];
  next_event = 1;
  notifications = [];
  next_notification = 1;
  turns = [];
  tool_calls = [];
  devices = [];
  approvals = [];
  memory_jobs = [];
}

settle_action-consent_example :
    let calls = (settle_action services 5 3 2 true 10 tables).1 in
    (calls ≡ []) ⊎ Consented services 5 2 10 true question calls
settle_action-consent_example =
    settle_action-consent services 5 3 2 10 true question tables (refl, tt) refl
