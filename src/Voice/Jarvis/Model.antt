-- ===== src/Voice/Jarvis/Model.antt =====
-- The state of services/voice-gateway/internal/session/jarvis.go. An id is the number that its text
-- stands for, 0 for the empty text. What the session sends to the provider, records and reports is
-- kept in the order it happens.
use cratos_ai.Prelude.{
  ℕ, ◌==◌, Bool, Option, none, some, List, [], ◌∷◌, ◌++◌, String, ◌||◌, if◌then◌else◌,
}
use cratos_ai.Voice.Counts.{Entry}

pub data Role : Type 0 where
  user assistant : Role

-- What an ack reports: the question of a call's output, or an event.
pub data Question : Type 0 where
  asked_by_call asked_by_event : ℕ → Question

-- delivered
pub record Delivered : Type 0 where
  pub want : Bool
  pub acks : List Question

-- delivered.add
unfoldable pub add : Delivered → Delivered → Delivered
add d other = record { want = d.want || other.want; acks = d.acks ++ other.acks }

pub record ToolResult : Type 0 where
  pub response_id : ℕ
  pub call_id : ℕ
  pub output : String
  pub ack_required : Bool

-- callBatch, with the response it is the batch of
pub record CallBatch : Type 0 where
  pub response_id : ℕ
  pub outstanding : ℕ
  pub done : Bool
  pub results : List ToolResult

-- realtime.FunctionCall
pub record FunctionCall : Type 0 where
  pub call_id : ℕ
  pub response_id : ℕ
  pub name : String
  pub arguments : String

-- ConversationEvent
pub record Notice : Type 0 where
  pub event_id : ℕ
  pub message : String

-- A goroutine of runCall: `waits` is how many reports its barrier stands for.
pub record Running : Type 0 where
  pub call : FunctionCall
  pub response_id : ℕ
  pub turn : ℕ
  pub waits : ℕ

-- RecordTurnRequest
pub record RecordTurnRequest : Type 0 where
  pub role : Role
  pub user_turn : ℕ
  pub item_id : ℕ
  pub text : String

-- A question, and the user turn at which it reached the user.
pub record Report : Type 0 where
  pub question : Question
  pub turn : ℕ

-- What the provider has been sent.
pub data Sent : Type 0 where
  function_output : ToolResult → Sent
  message : Notice → Sent
  create_response : Sent

-- The connection: whether the coming sends succeed (all do after the list), what has been sent, and
-- whether providerFailed has ended the session.
pub record Connection : Type 0 where
  pub accepts : List Bool
  pub sent : List Sent
  pub failed : Bool

-- The turns: of the user, of the items yet to be transcribed and of the responses in progress.
pub record Turns : Type 0 where
  pub user_turn : ℕ
  pub item_turns : List Entry
  pub response_turns : List Entry
  pub last_response : ℕ

-- What the model is to speak about. `reports` are those that startAcks has been given.
pub record Speech : Type 0 where
  pub speaking : Bool
  pub responding : List ℕ
  pub unspoken : Delivered
  pub after_request : Delivered
  pub requested : Bool
  pub create_failures : ℕ
  pub reports : List Report

-- The goroutines of runCall: those that have not reported, and every one that was started.
pub record Workers : Type 0 where
  pub in_flight : ℕ
  pub running : List Running
  pub started : List Running

-- jarvis: `orders` are the orders in which the coming loops range over the batches, and `stored` is
-- how many reports have been stored or given up.
pub record Jarvis : Type 0 where
  pub turns : Turns
  pub speech : Speech
  pub workers : Workers
  pub batches : List CallBatch
  pub orders : List (List ℕ)
  pub call_response : List Entry
  pub stored : ℕ
  pub records : List RecordTurnRequest
  pub connection : Connection

abbrev pub max_calls_in_flight : ℕ
max_calls_in_flight = 8

abbrev pub max_tracked_items : ℕ
max_tracked_items = 256

abbrev pub max_create_retries : ℕ
max_create_retries = 2

abbrev pub ack_attempts : ℕ
ack_attempts = 3

abbrev pub nothing_delivered : Delivered
nothing_delivered = record { want = Bool.false; acks = [] }

-- The state that openJarvis makes.
unfoldable pub open_jarvis : List Bool → List (List ℕ) → Jarvis
open_jarvis accepts orders = record {
  turns = record { user_turn = 0; item_turns = []; response_turns = []; last_response = 0 };
  speech = record {
    speaking = Bool.false;
    responding = [];
    unspoken = nothing_delivered;
    after_request = nothing_delivered;
    requested = Bool.false;
    create_failures = 0;
    reports = [];
  };
  workers = record { in_flight = 0; running = []; started = [] };
  batches = [];
  orders = orders;
  call_response = [];
  stored = 0;
  records = [];
  connection = record { accepts = accepts; sent = []; failed = Bool.false };
}

-- m[k], with whether the key is there
abbrev pub look : ℕ → List Entry → Option ℕ
look k [] = none
look k (e ∷ es) = let rest = look k es in if e.key == k then some e.count else rest
