-- ===== src/Orchestrator/Conversations.antt =====
-- The conversation, transcript and tool-call statements of
-- services/orchestrator/internal/store/store.go. A duration is a number of microseconds.
pub mod Replay
use cratos_ai.Prelude.{
  ℕ, ◌+◌, ◌*◌, max, ltb, leb, ◌==◌, Bool, not, ◌&&◌, ◌||◌, Option, none, some, List, [], ◌∷◌, ◌++◌,
  String, str_eq, holds, is_some, if◌then◌else◌, select_where, find_where, update_where, length,
  map, sort_by, Result, ok, err, rejected, found,
}
use cratos_ai.Orchestrator.Model.{Conversation, Turn, CallResult, StoredCall, Db}

abbrev pub key : Conversation → ℕ
key c = c.id

abbrev pub has_id : ℕ → Conversation → Bool
has_id id c = c.id == id

-- CreateConversation: it is open, at user turn 0.
unfoldable pub create_conversation : Conversation → ℕ → Db → Result (Unit {0}) × Db
create_conversation c now db =
    let row : Conversation = record c { user_turn = 0; closed_at = none; created_at = now } in
    if is_some (find_where (has_id c.id) db.conversations)
    then (err rejected, db)
    else (ok tt, record db { conversations = db.conversations ++ row ∷ [] })

-- Conversation
unfoldable pub conversation : ℕ → Db → Result Conversation
conversation id db = found (find_where (has_id id) db.conversations)

abbrev pub advanced : ℕ → Conversation → Conversation
advanced turn c = record c { user_turn = max c.user_turn turn }

-- AdvanceTurn
unfoldable pub advance_turn : ℕ → ℕ → Db → Db
advance_turn id turn db = record db {
  conversations = update_where (has_id id) (advanced turn) db.conversations;
}

abbrev pub is_turn : ℕ → String → String → Turn → Bool
is_turn id role item t = t.conversation_id == id && str_eq t.role role && str_eq t.item_id item

-- A later call's text replaces the one there was, if it has one.
abbrev pub filled_in : ℕ → String → Turn → Turn
filled_in turn text t = record t {
  text = if str_eq text "" then t.text else text;
  user_turn = max t.user_turn turn;
}

abbrev pub is_role : String → Bool
is_role role = str_eq role "user" || str_eq role "assistant"

-- RecordTurn: the table has two roles, and turns of conversations that exist.
unfoldable pub record_turn : ℕ → String → String → ℕ → String → ℕ → Db → Result (Unit {0}) × Db
record_turn id role item turn text now db =
    let row : Turn = record {
      conversation_id = id;
      role = role;
      item_id = item;
      user_turn = turn;
      text = text;
      created_at = now;
    } in
    let p = is_turn id role item in
    if is_some (find_where (has_id id) db.conversations) && is_role role
    then (
      ok tt,
      record db {
        turns =
            if is_some (find_where p db.turns)
            then update_where p (filled_in turn text) db.turns
            else db.turns ++ row ∷ [];
      },
    )
    else (err rejected, db)

abbrev pub is_open : ℕ → Conversation → Bool
is_open id c = has_id id c && not (is_some c.closed_at)

abbrev pub closed : ℕ → Conversation → Conversation
closed now c = record c { closed_at = some now }

-- CloseConversation: whether it was open.
unfoldable pub close_conversation : ℕ → ℕ → Db → Bool × Db
close_conversation id now db = (
  length (select_where (is_open id) db.conversations) == 1,
  record db { conversations = update_where (is_open id) (closed now) db.conversations },
)

-- Transcript: by time, and by user turn among those of one time.
abbrev pub comes_before : Turn → Turn → Bool
comes_before a b =
    ltb a.created_at b.created_at || a.created_at == b.created_at && leb a.user_turn b.user_turn

unfoldable pub transcript : ℕ → Db → List Turn
transcript id db =
    sort_by comes_before
      (select_where (λ t. t.conversation_id == id && not (str_eq t.text "")) db.turns)

-- PurgeTranscripts: the turns that it deletes, counted.
abbrev pub is_past : ℕ → ℕ → Db → Turn → Bool
is_past retention now db t = is_some (
    find_where
      (λ c. has_id t.conversation_id c && holds c.closed_at (λ at. ltb (at + retention) now))
      db.conversations)

unfoldable pub purge_transcripts : ℕ → ℕ → Db → ℕ × Db
purge_transcripts retention now db = (
  length (select_where (is_past retention now db) db.turns),
  record db { turns = select_where (λ t. not (is_past retention now db t)) db.turns },
)

abbrev pub is_call : ℕ → String → StoredCall → Bool
is_call id call_id c = c.conversation_id == id && str_eq c.call_id call_id

abbrev pub result_of : Option StoredCall → Result CallResult
result_of none = found none
result_of (some c) = ok c.result

-- ToolCall
unfoldable pub tool_call : ℕ → String → Db → Result CallResult
tool_call id call_id db = result_of (find_where (is_call id call_id) db.tool_calls)

-- SaveToolCall: ON CONFLICT DO NOTHING; the conversation must exist.
unfoldable pub save_tool_call : ℕ → String → String → CallResult → Db → Result (Unit {0}) × Db
save_tool_call id call_id name r db =
    let row : StoredCall = record {
      conversation_id = id;
      call_id = call_id;
      name = name;
      result = r;
    } in
    if is_some (find_where (is_call id call_id) db.tool_calls)
    then (ok tt, db)
    else if is_some (find_where (has_id id) db.conversations)
    then (ok tt, record db { tool_calls = db.tool_calls ++ row ∷ [] })
    else (err rejected, db)

-- ConversationLifetime: two hours
abbrev pub conversation_lifetime : ℕ
conversation_lifetime = 2 * 3600000000

abbrev pub is_abandoned : ℕ → Conversation → Bool
is_abandoned now c = not (is_some c.closed_at) && ltb (c.created_at + conversation_lifetime) now

-- CloseAbandoned: the ids of those it closes.
unfoldable pub close_abandoned : ℕ → Db → List ℕ × Db
close_abandoned now db = (
  map key (select_where (is_abandoned now) db.conversations),
  record db { conversations = update_where (is_abandoned now) (closed now) db.conversations },
)
