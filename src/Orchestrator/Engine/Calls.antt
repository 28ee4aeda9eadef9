-- ===== src/Orchestrator/Engine/Calls.antt =====
-- The conversation calls of services/orchestrator/internal/engine/voice.go, composed of the store's
-- statements: RecordTurn, Close, Ack, CallTool and AckToolOutput.
use cratos_ai.Prelude.{
  ℕ, Bool, Option, none, some, String, is_some, if◌then◌else◌, Result, ok, err, not_found, rejected,
}
use cratos_ai.Orchestrator.Model.{Conversation, CallResult, Db}
use cratos_ai.Orchestrator.Conversations.{
  conversation, advance_turn, record_turn, close_conversation, tool_call, save_tool_call,
}
use cratos_ai.Orchestrator.Confirmations.{mark_asked, mark_call_asked}
use cratos_ai.Orchestrator.Events.{ack_event}
use cratos_ai.Orchestrator.Notifications.{queue_memory_job}

-- ErrConversationNotFound, ErrConversationClosed, and the failures of the store.
pub data Answer {ℓ} (A : Type ℓ) : Type ℓ where
  done : A → Answer A
  conversation_not_found conversation_closed store_failed : Answer A

abbrev pub opened : Result Conversation → Answer Conversation
opened (err not_found) = conversation_not_found
opened (err rejected) = store_failed
opened (ok c) = if is_some c.closed_at then conversation_closed else done c

-- openConversation
unfoldable pub open_conversation : ℕ → Db → Answer Conversation
open_conversation id db = opened (conversation id db)

-- Go on if the conversation is open.
abbrev pub while_open {ℓ} :
    {A : Type ℓ} → Answer Conversation → Db → (Conversation → Answer A × Db) → Answer A × Db
while_open (done c) db f = f c
while_open conversation_not_found db f = (conversation_not_found, db)
while_open conversation_closed db f = (conversation_closed, db)
while_open store_failed db f = (store_failed, db)

abbrev pub recorded : Result (Unit {0}) × Db → Answer (Unit {0}) × Db
recorded (ok u, db) = (done u, db)
recorded (err e, db) = (store_failed, db)

-- RecordTurn
unfoldable pub record_speech : ℕ → String → String → ℕ → String → ℕ → Db → Answer (Unit {0}) × Db
record_speech id role item turn text now db =
    while_open (open_conversation id db) db
      (λ c. recorded (record_turn id role item turn text now (advance_turn id turn db)))

abbrev pub closing : Bool → ℕ → ℕ → Db → Result Conversation → Answer (Unit {0}) × Db
closing closed id now db (err not_found) = (conversation_not_found, db)
closing closed id now db (err rejected) =
    if closed then recorded (queue_memory_job id now db) else (done tt, db)
closing closed id now db (ok c) =
    if closed then recorded (queue_memory_job id now db) else (done tt, db)

-- Close: the conversation's memory is extracted once. The second read only tells a conversation that
-- is gone; another failure of it is passed over.
unfoldable pub close : ℕ → ℕ → Db → Answer (Unit {0}) × Db
close id now db =
    let (closed, db') = close_conversation id now db in
    closing closed id now db' (conversation id db')

abbrev pub heard : ℕ → Result (Option ℕ) → Db → Answer (Unit {0}) × Db
heard turn (err not_found) db = (conversation_not_found, db)
heard turn (err rejected) db = (store_failed, db)
heard turn (ok none) db = (done tt, db)
heard turn (ok (some confirmation)) db = (done tt, mark_asked confirmation turn db)

-- Ack
unfoldable pub ack : ℕ → ℕ → ℕ → Db → Answer (Unit {0}) × Db
ack id event turn db = let (r, db') = ack_event id event turn db in heard turn r db'

-- AckToolOutput
unfoldable pub ack_tool_output : ℕ → String → ℕ → Db → Answer (Unit {0}) × Db
ack_tool_output id call_id turn db =
    while_open (open_conversation id db) db (λ c. (done tt, (mark_call_asked id call_id turn db).1))

abbrev pub saved : CallResult → Result (Unit {0}) × Db → Answer CallResult × Db
saved r (ok u, db) = (done r, db)
saved r (err e, db) = (store_failed, db)

abbrev pub replayed :
    ℕ
    → String
    → String
    → ℕ
    → (Conversation → Db → CallResult × Db)
    → Conversation
    → Db
    → Result CallResult
    → Answer CallResult × Db
replayed id call_id name turn run c db (ok r) = (done r, db)
replayed id call_id name turn run c db (err rejected) = (store_failed, db)
replayed id call_id name turn run c db (err not_found) =
    let (r, db') = run c (advance_turn id turn db) in saved r (save_tool_call id call_id name r db')

-- CallTool; `run` is voiceCall.
unfoldable pub call_tool :
    ℕ → String → String → ℕ → (Conversation → Db → CallResult × Db) → Db → Answer CallResult × Db
call_tool id call_id name turn run db =
    while_open (open_conversation id db) db
      (λ c. replayed id call_id name turn run c db (tool_call id call_id db))
