-- ===== src/Orchestrator/Confirmations.antt =====
-- The confirmation statements of services/orchestrator/internal/store/store.go: an action that waits
-- for the user's "yes". User turns are counted by the voice gateway.
pub mod Settling
pub mod Once
use cratos_ai.Prelude.{
  ℕ, ltb, leb, ◌==◌, Bool, true, false, not, ◌&&◌, ◌||◌, Option, none, some, List, [], ◌∷◌, ◌++◌,
  String, str_eq, holds, is_some, coalesce, if◌then◌else◌, count_where, select_where, find_where,
  update_where, update_returning, map, Result, ok, err, rejected, found,
}
use cratos_ai.Orchestrator.Model.{Confirmation, ConfirmationState, Db, is_pending}

abbrev pub has_id : ℕ → Confirmation → Bool
has_id id c = c.id == id

-- CreateConfirmation: it is pending from the start.
unfoldable pub create_confirmation : Confirmation → Db → Result (Unit {0}) × Db
create_confirmation c db =
    let row : Confirmation = record c { state = ConfirmationState.pending } in
    if is_some (find_where (has_id c.id) db.confirmations)
    then (err rejected, db)
    else (ok tt, record db { confirmations = db.confirmations ++ row ∷ [] })

-- Confirmation: one of the conversation.
unfoldable pub confirmation : ℕ → ℕ → Db → Result Confirmation
confirmation conversation id db =
    found (find_where (λ c. has_id id c && c.conversation_id == conversation) db.confirmations)

-- The WHERE clause of Settle.
abbrev pub can_settle : ℕ → ℕ → ℕ → Bool → ℕ → Confirmation → Bool
can_settle conversation id turn confirm now c =
    has_id id c
    && c.conversation_id == conversation
    && is_pending c.state
    && ltb now c.expires_at
    && (not confirm || holds c.asked_turn (λ asked. ltb asked turn))

abbrev pub settled : Bool → Confirmation → Confirmation
settled confirm c = record c {
  state = if confirm then ConfirmationState.confirmed else ConfirmationState.cancelled;
}

-- Settle
unfoldable pub settle : ℕ → ℕ → ℕ → Bool → ℕ → Db → Result Confirmation × Db
settle conversation id turn confirm now db =
    let (row, cs) =
      update_returning (can_settle conversation id turn confirm now) (settled confirm)
        db.confirmations in
    (found row, record db { confirmations = cs })

-- asked_turn = COALESCE(asked_turn, turn)
abbrev pub asked_at : ℕ → Confirmation → Confirmation
asked_at turn c = record c { asked_turn = some (coalesce c.asked_turn turn) }

-- MarkAsked
unfoldable pub mark_asked : ℕ → ℕ → Db → Db
mark_asked id turn db = record db {
  confirmations = update_where (has_id id) (asked_at turn) db.confirmations;
}

-- The question of a voice call.
abbrev pub of_call : ℕ → String → Confirmation → Bool
of_call conversation call_id c =
    c.conversation_id == conversation && str_eq c.call_id call_id && not (is_some c.task_id)

-- MarkCallAsked: whether the call asked one.
unfoldable pub mark_call_asked : ℕ → String → ℕ → Db → Bool × Db
mark_call_asked conversation call_id turn db = (
  ltb 0 (count_where (of_call conversation call_id) db.confirmations),
  record db {
    confirmations = update_where (of_call conversation call_id) (asked_at turn) db.confirmations;
  },
)

abbrev pub is_overdue : ℕ → Confirmation → Bool
is_overdue now c = is_pending c.state && leb c.expires_at now

abbrev pub expired_now : Confirmation → Confirmation
expired_now c = record c { state = ConfirmationState.expired }

-- ExpireConfirmations: the overdue ones, as they are afterwards.
unfoldable pub expire_confirmations : ℕ → Db → List Confirmation × Db
expire_confirmations now db = (
  map expired_now (select_where (is_overdue now) db.confirmations),
  record db { confirmations = update_where (is_overdue now) expired_now db.confirmations },
)

-- A pending question follows its event to another conversation, where it is yet to be asked
-- (AddEvent and CarryOverEvents).
abbrev pub moved_to : ℕ → Confirmation → Confirmation
moved_to conversation c = record c { conversation_id = conversation; asked_turn = none }

abbrev pub is_pending_of : (ℕ → Bool) → Confirmation → Bool
is_pending_of chosen c = chosen c.id && is_pending c.state

unfoldable pub move_confirmations : (ℕ → Bool) → ℕ → Db → Db
move_confirmations chosen conversation db = record db {
  confirmations = update_where (is_pending_of chosen) (moved_to conversation) db.confirmations;
}
