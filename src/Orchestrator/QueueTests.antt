-- ===== src/Orchestrator/QueueTests.antt =====
-- The theorems about tool calls, events and notifications at concrete tables.
use cratos_ai.Prelude.{ℕ, ◌≡◌, refl, true, false, none, some, List, [], ◌∷◌, arith, All, ok}
use cratos_ai.Orchestrator.Model.{
  Conversation, Event, Notification, NotificationKind, TaskState, CallResult, Db,
}
use cratos_ai.Orchestrator.Conversations.{tool_call, save_tool_call}
use cratos_ai.Orchestrator.Conversations.Replay.{Save, save_all, first_result_wins}
use cratos_ai.Orchestrator.Notifications.{has_id, claim_notifications, claimed}
use cratos_ai.Orchestrator.Notifications.Claims.{Op, claim, complete, run, claim_exclusive}

abbrev call : ℕ → Conversation
call id = record {
  id = id;
  tenant_id = 1;
  user_id = "ann";
  session_id = "";
  provider = 1;
  locale = "";
  tools = [];
  user_turn = 2;
  closed_at = none;
  created_at = 10;
}

abbrev unheard : Event
unheard = record {
  id = 1;
  conversation_id = 4;
  payload = "done";
  confirmation_id = none;
  acked_turn = none;
  created_at = 20;
}

abbrev news : Notification
news = record {
  id = 1;
  tenant_id = 1;
  user_id = "ann";
  kind = NotificationKind.task_finished;
  task_id = 7;
  task_state = TaskState.succeeded;
  created_at = 20;
  claimed_by = none;
  claimed_until = none;
  attempts = 0;
  done_at = none;
}

-- Conversation 4 has ended; 5 is open.
abbrev tables : Db
tables = record {
  conversations = record (call 4) { closed_at = some 15 } ∷ call 5 ∷ [];
  tasks = [];
  confirmations = [];
  events = unheard ∷ [];
  next_event = 2;
  notifications = news ∷ record news { id = 2 } ∷ [];
  next_notification = 3;
  turns = [];
  tool_calls = [];
  devices = [];
  approvals = [];
  memory_jobs = [];
}

abbrev answer : CallResult
answer = record { output = "{}"; is_error = false; ack_required = true }

abbrev retries : List Save
retries =
    record {
      conversation = 5;
      call_id = "c1";
      name = "x";
      result = record answer { is_error = true };
    }
    ∷ record { conversation = 9; call_id = "c2"; name = "x"; result = answer }
    ∷ []

first_result_wins_example :
    tool_call 5 "c1" (save_all retries (save_tool_call 5 "c1" "start" answer tables).1) ≡ ok answer
first_result_wins_example =
    first_result_wins 5 "c1" "start" answer retries tables (unfold tool_call in refl) refl

abbrev between : List Op
between = claim "b" 10 50 5 100 40 ∷ complete (2 ∷ []) 45 ∷ []

claim_exclusive_example :
    All
      (λ m. has_id 1 m ≡ false)
      (claim_notifications "c" 10 50 5 100 60
        (run between (claim_notifications "a" 1 50 5 100 30 tables).1)).0
claim_exclusive_example =
    claim_exclusive 1 1 50 5 100 30 "a" (claimed "a" 50 30 news) tables between 10 50 5 100 60 "c"
      (unfold claim_notifications in refl) (omega arith, (omega arith, tt)) (omega arith)
