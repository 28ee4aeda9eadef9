-- ===== src/Orchestrator/Model.antt =====
-- The rows that services/orchestrator/internal/store/store.go keeps, and its whole state.
-- A UUID is the number that it stands for; a time is a number of microseconds; a JSON value is its
-- text. The columns lease_owner, lease_until, acked_turn and the like are the tables' own.
use cratos_ai.Prelude.{ℕ, Bool, true, false, Option, List, String, str_eq, if◌then◌else◌}

pub data TaskState : Type 0 where
  queued running awaiting_confirmation awaiting_approval succeeded failed cancelled : TaskState

pub TaskState-discrete : Discrete TaskState
TaskState-discrete = hlevel

pub data TaskKind : Type 0 where
  agent command : TaskKind

-- What a tool name runs.
pub record Target : Type 0 where
  pub kind : String
  pub integration_id : String
  pub integration : String
  pub tool : String
  pub title : String
  pub read_only : Bool
  pub description : String
  pub parameters : String

pub record Conversation : Type 0 where
  pub id : ℕ
  pub tenant_id : ℕ
  pub user_id : String
  pub session_id : String
  pub provider : ℕ
  pub locale : String
  pub tools : List (String × Target)
  pub user_turn : ℕ
  pub closed_at : Option ℕ
  pub created_at : ℕ

pub record Task : Type 0 where
  pub id : ℕ
  pub tenant_id : ℕ
  pub user_id : String
  pub conversation_id : Option ℕ
  pub kind : TaskKind
  pub provider : ℕ
  pub goal : String
  pub state : TaskState
  pub result : String
  pub steps : ℕ
  pub tools : List (String × Target)
  pub history : String
  pub pending : String
  pub deadline : ℕ
  pub created_at : ℕ
  pub updated_at : ℕ
  pub lease_owner : Option String
  pub lease_until : Option ℕ

abbrev pub is_running : TaskState → Bool
is_running TaskState.running = true
is_running _ = false

abbrev pub is_queued : TaskState → Bool
is_queued TaskState.queued = true
is_queued _ = false

-- A task that waits for its user.
abbrev pub is_waiting : TaskState → Bool
is_waiting TaskState.awaiting_confirmation = true
is_waiting TaskState.awaiting_approval = true
is_waiting _ = false

-- Terminal: the task has finished for good.
abbrev pub is_terminal : TaskState → Bool
is_terminal TaskState.succeeded = true
is_terminal TaskState.failed = true
is_terminal TaskState.cancelled = true
is_terminal _ = false

pub data ConfirmationState : Type 0 where
  pending confirmed cancelled expired : ConfirmationState

abbrev pub is_pending : ConfirmationState → Bool
is_pending ConfirmationState.pending = true
is_pending _ = false

-- An action waiting for the user's consent.
pub record Confirmation : Type 0 where
  pub id : ℕ
  pub conversation_id : ℕ
  pub task_id : Option ℕ
  pub call_id : String
  pub action : String
  pub summary : String
  pub asked_turn : Option ℕ
  pub state : ConfirmationState
  pub expires_at : ℕ

-- Something to tell the user.
pub record Event : Type 0 where
  pub id : ℕ
  pub conversation_id : ℕ
  pub payload : String
  pub confirmation_id : Option ℕ
  pub acked_turn : Option ℕ
  pub created_at : ℕ

pub data NotificationKind : Type 0 where
  approval_needed confirmation_needed task_finished : NotificationKind

pub record Notification : Type 0 where
  pub id : ℕ
  pub tenant_id : ℕ
  pub user_id : String
  pub kind : NotificationKind
  pub task_id : ℕ
  pub task_state : TaskState
  pub created_at : ℕ
  pub claimed_by : Option String
  pub claimed_until : Option ℕ
  pub attempts : ℕ
  pub done_at : Option ℕ

-- A speaker's turn, known by its conversation, role and item.
pub record Turn : Type 0 where
  pub conversation_id : ℕ
  pub role : String
  pub item_id : String
  pub user_turn : ℕ
  pub text : String
  pub created_at : ℕ

-- The stored result of a voice function call.
pub record CallResult : Type 0 where
  pub output : String
  pub is_error : Bool
  pub ack_required : Bool

-- A row of tool_calls.
pub record StoredCall : Type 0 where
  pub conversation_id : ℕ
  pub call_id : String
  pub name : String
  pub result : CallResult

-- A user's computer.
pub record Device : Type 0 where
  pub id : ℕ
  pub tenant_id : ℕ
  pub user_id : String
  pub name : String
  pub address : String
  pub server_name : String
  pub ca_pem : String
  pub client_cert_pem : String
  pub client_key_sealed : String
  pub created_at : ℕ

-- A device command waiting for a signed approval.
pub record DeviceApproval : Type 0 where
  pub approval_id : String
  pub device_id : ℕ
  pub task_id : ℕ
  pub call_id : String
  pub command : String
  pub payload : String
  pub expires_at : ℕ

pub data JobState : Type 0 where
  job_queued job_running job_done job_failed : JobState

-- A row of memory_jobs.
pub record MemoryJob : Type 0 where
  pub conversation_id : ℕ
  pub state : JobState
  pub attempts : ℕ
  pub lease_until : Option ℕ
  pub not_before : ℕ
  pub last_error : String

pub record Db : Type 0 where
  pub conversations : List Conversation
  pub tasks : List Task
  pub confirmations : List Confirmation
  pub events : List Event
  pub next_event : ℕ
  pub notifications : List Notification
  pub next_notification : ℕ
  pub turns : List Turn
  pub tool_calls : List StoredCall
  pub devices : List Device
  pub approvals : List DeviceApproval
  pub memory_jobs : List MemoryJob

-- orEmpty
abbrev pub or_empty : String → String
or_empty raw = if str_eq raw "" then "[]" else raw
