-- ===== src/Orchestrator/Events.antt =====
-- The event statements of services/orchestrator/internal/store/store.go: what a conversation is told.
pub mod Telling
use cratos_ai.Prelude.{
  ℕ, ◌+◌, ltb, ◌==◌, Bool, true, false, not, ◌&&◌, Option, none, some, List, [], ◌∷◌, ◌++◌, String,
  str_eq, holds, is_some, coalesce, if◌then◌else◌, select_where, find_where, update_where,
  update_returning, length, map, sort_by, take, leb, Result, ok, err, rejected, found,
}
use cratos_ai.Orchestrator.Model.{Conversation, Event, Db}
use cratos_ai.Orchestrator.Conversations.{conversation_lifetime, is_open}
use cratos_ai.Orchestrator.Confirmations.{move_confirmations}

abbrev pub has_id : ℕ → Event → Bool
has_id id e = e.id == id

-- A live conversation of the same user, young enough.
abbrev pub is_heir : Conversation → ℕ → Conversation → Bool
is_heir c now o =
    o.tenant_id == c.tenant_id
    && str_eq o.user_id c.user_id
    && not (is_some o.closed_at)
    && ltb now (o.created_at + conversation_lifetime)

-- The first row of ORDER BY created_at DESC.
abbrev pub newest : List Conversation → Option Conversation
newest [] = none
newest (x ∷ xs) = elim (newest xs) [
  | none ↦ some x
  | some y ↦ if leb y.created_at x.created_at then some x else some y
]

abbrev pub heirs : Option Conversation → ℕ → List Conversation → Option Conversation
heirs none now cs = none
heirs (some c) now cs = newest (select_where (is_heir c now) cs)

-- LIMIT 1 over a UNION ALL of two rows at most
abbrev pub first_of : Option Conversation → Option Conversation → Option Conversation
first_of none o = o
first_of (some c) o = some c

-- The query of AddEvent: the conversation itself if it is open, else its heir.
abbrev pub listener : ℕ → ℕ → List Conversation → Option Conversation
listener id now cs =
    first_of (find_where (is_open id) cs) (heirs (find_where (λ c. c.id == id) cs) now cs)

abbrev pub target_of : ℕ → Option Conversation → ℕ
target_of id none = id
target_of id (some c) = c.id

abbrev pub is_about : Option ℕ → ℕ → Bool
is_about confirmation id = holds confirmation (λ c. c == id)

-- AddEvent: the conversation that got the event, and whether it is live. An event refers to a
-- conversation that exists.
unfoldable pub add_event : ℕ → String → Option ℕ → ℕ → Db → Result (ℕ × Bool) × Db
add_event id payload confirmation now db =
    let who = listener id now db.conversations in
    let target = target_of id who in
    let row : Event = record {
      id = db.next_event;
      conversation_id = target;
      payload = payload;
      confirmation_id = confirmation;
      acked_turn = none;
      created_at = now;
    } in
    let stored : Db = record db {
      events = db.events ++ row ∷ [];
      next_event = db.next_event + 1;
    } in
    if is_some (find_where (λ c. c.id == target) db.conversations)
    then (
      ok (target, is_some who),
      if target == id then stored else move_confirmations (is_about confirmation) target stored,
    )
    else (err rejected, db)

-- An event that nobody heard before its conversation ended.
abbrev pub is_unheard : ℕ → ℕ → String → ℕ → ℕ → List Conversation → Event → Bool
is_unheard target tenant user window now cs e =
    is_some (
      find_where
        (λ c.
          c.id == e.conversation_id
          && c.tenant_id == tenant
          && str_eq c.user_id user
          && not (c.id == target)
          && is_some c.closed_at)
        cs)
    && not (is_some e.acked_turn)
    && ltb now (e.created_at + window)

abbrev pub carried : ℕ → Event → Event
carried target e = record e { conversation_id = target }

abbrev pub asks_about : List Event → ℕ → Bool
asks_about es id = is_some (find_where (λ e. is_about e.confirmation_id id) es)

-- CarryOverEvents: how many moved.
unfoldable pub carry_over_events : ℕ → ℕ → String → ℕ → ℕ → Db → ℕ × Db
carry_over_events target tenant user window now db =
    let p = is_unheard target tenant user window now db.conversations in
    let moving = select_where p db.events in
    (
      length moving,
      move_confirmations (asks_about moving) target
          (record db { events = update_where p (carried target) db.events }),
    )

abbrev pub is_after : ℕ → ℕ → Event → Bool
is_after id after e = e.conversation_id == id && ltb after e.id

-- Events
unfoldable pub events_after : ℕ → ℕ → ℕ → Db → List Event
events_after id after limit db =
    take limit (sort_by (λ a b. leb a.id b.id) (select_where (is_after id after) db.events))

abbrev pub last_id : List Event → ℕ
last_id [] = 0
last_id (e ∷ es) = let n = last_id es in if leb n e.id then e.id else n

-- LastAcked
unfoldable pub last_acked : ℕ → Db → ℕ
last_acked id db =
    last_id (select_where (λ e. e.conversation_id == id && is_some e.acked_turn) db.events)

abbrev pub acked : ℕ → Event → Event
acked turn e = record e { acked_turn = some (coalesce e.acked_turn turn) }

abbrev pub is_acked : ℕ → ℕ → Event → Bool
is_acked conversation id e = has_id id e && e.conversation_id == conversation

abbrev pub question_of : Option Event → Result (Option ℕ)
question_of none = found none
question_of (some e) = ok e.confirmation_id

-- AckEvent: the confirmation that the event asks about, if any.
unfoldable pub ack_event : ℕ → ℕ → ℕ → Db → Result (Option ℕ) × Db
ack_event conversation id turn db =
    let (row, es) = update_returning (is_acked conversation id) (acked turn) db.events in
    (question_of row, record db { events = es })
