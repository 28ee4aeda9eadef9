-- ===== src/Voice/Outbox.antt =====
-- services/voice-gateway/internal/session/outbox.go. An id is the number that its text stands for, a
-- message is its encoding, and a time a number of microseconds.
pub mod Accounting
pub mod Order
pub mod Wakeup
use cratos_ai.Prelude.{
  ℕ, ◌+◌, ltb, leb, ◌==◌, Bool, true, false, ◌&&◌, Option, none, some, List, [], ◌∷◌, ◌++◌, String,
  length, if◌then◌else◌, select_where, not, Result, ok, err, rejected,
}
use cratos_ai.Voice.Counts.{Entry, get, put}

pub record OutItem : Type 0 where
  pub msg : String
  pub item_id : ℕ
  pub audio_bytes : ℕ
  pub enqueued : ℕ

-- `notify` is whether the channel of capacity 1 holds a signal.
pub record Outbox : Type 0 where
  pub items : List OutItem
  pub capacity : ℕ
  pub notify : Bool
  pub delivered : List Entry

-- newOutbox
unfoldable pub new_outbox : ℕ → Outbox
new_outbox capacity = record { items = []; capacity = capacity; notify = false; delivered = [] }

-- push up to its unlocking: the item is queued, or the outbox is full.
unfoldable pub enqueue : OutItem → Outbox → Result (Unit {0}) × Outbox
enqueue item o =
    if leb o.capacity (length o.items)
    then (err rejected, o)
    else (ok tt, record o { items = o.items ++ item ∷ [] })

-- The select of push: a signal is left unless there is one.
unfoldable pub signal : Outbox → Outbox
signal o = record o { notify = true }

-- push, run by itself
unfoldable pub push : OutItem → Outbox → Result (Unit {0}) × Outbox
push item o =
    let (r, o') = enqueue item o in
    if leb o.capacity (length o.items) then (r, o') else (r, signal o')

abbrev pub take_first : Outbox → List OutItem → Option OutItem × Outbox
take_first o [] = (none, o)
take_first o (item ∷ rest) = (some item, record o { items = rest })

-- One pass of pop's loop over the queue: its first item, or none, and then pop waits.
unfoldable pub try_pop : Outbox → Option OutItem × Outbox
try_pop o = take_first o o.items

-- markDelivered
unfoldable pub mark_delivered : OutItem → Outbox → Outbox
mark_delivered item o = if item.audio_bytes == 0 then o else record o {
  delivered = put item.item_id (get item.item_id o.delivered + item.audio_bytes) o.delivered;
}

abbrev pub is_audio : OutItem → Bool
is_audio item = ltb 0 item.audio_bytes

-- How many bytes of audio of the item are in the queue.
abbrev pub queued_bytes : ℕ → List OutItem → ℕ
queued_bytes id [] = 0
queued_bytes id (x ∷ xs) =
    let n = queued_bytes id xs in if is_audio x && x.item_id == id then x.audio_bytes + n else n

-- The loop of dropAudio: the bytes of the item that are dropped, and what is kept.
abbrev pub drop_loop : ℕ → List OutItem → ℕ × List OutItem
drop_loop id [] = (0, [])
drop_loop id (x ∷ xs) =
    let rest = drop_loop id xs in
    if is_audio x
    then (if x.item_id == id then (x.audio_bytes + rest.0, rest.1) else rest)
    else (rest.0, x ∷ rest.1)

-- dropAudio: the bytes dropped, and those delivered before.
unfoldable pub drop_audio : ℕ → Outbox → (ℕ × ℕ) × Outbox
drop_audio id o =
    let (dropped, kept) = drop_loop id o.items in
    ((dropped, get id o.delivered), record o { items = kept })

-- len
unfoldable pub len : Outbox → ℕ
len o = length o.items
