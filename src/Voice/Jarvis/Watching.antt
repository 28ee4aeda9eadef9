-- ===== src/Voice/Jarvis/Watching.antt =====
-- The goroutines of services/voice-gateway/internal/session/jarvis.go that talk to the orchestrator:
-- which events are taken, and how often a report is tried.
use cratos_ai.Prelude.{
  ℕ, ◌<◌, leb, ◌≡◌, refl, false, ◌||◌, List, [], ◌∷◌, ◌++◌, str_eq, arith, Bool-cases, inl, inr,
}
use cratos_ai.Voice.Jarvis.Model.{Notice}
use cratos_ai.Voice.Jarvis.Steps.{watch_once}

-- The events come after the cursor, each after the one before, up to the last, and none is silent.
abbrev pub Upward : ℕ → List Notice → ℕ → Type 0
Upward after [] last = after ≡ last
Upward after (e ∷ es) last =
    (after < e.event_id) × (str_eq e.message "" ≡ false) × Upward e.event_id es last

Upward-append :
    (a b c : ℕ) (xs ys : List Notice) → Upward a xs b → Upward b ys c → Upward a (xs ++ ys) c
Upward-append a b c [] ys e k = rw e k
Upward-append a b c (x ∷ xs) ys (l, m, h) k = (l, m, Upward-append x.event_id b c xs ys h k)

watch_once-Upward :
    (after : ℕ) (events : List Notice)
    → Upward after (watch_once after events).1 (watch_once after events).0
unfolding watch_once
watch_once-Upward after [] = refl
watch_once-Upward after (e ∷ events) =
    elim (Bool-cases (leb e.event_id after || str_eq e.message "")) [
      | inl skip ↦ rw skip (watch_once-Upward after events)
      | inr take ↦ rw take (ground arith, ground arith, watch_once-Upward e.event_id events)
    ]

-- A connection after another, from the cursor that the first one left: what watchLoop does.
abbrev pub watch_all : ℕ → List (List Notice) → ℕ × List Notice
watch_all after [] = (after, [])
watch_all after (events ∷ streams) =
    let (cursor, taken) = watch_once after events in
    let (last, more) = watch_all cursor streams in (last, taken ++ more)

-- No event is put into the conversation twice, whatever the streams repeat. Over any number of
-- connections, each opened at the cursor that the one before it left, the events taken have ids that
-- rise strictly from the first cursor and end at the last cursor, and each has a message.
pub watch_all-Upward :
    (streams : List (List Notice)) (after : ℕ)
    → Upward after (watch_all after streams).1 (watch_all after streams).0
watch_all-Upward [] after = refl
watch_all-Upward (events ∷ streams) after =
    let (cursor, taken) = watch_once after events in
    Upward-append after cursor (watch_all cursor streams).0 taken (watch_all cursor streams).1
      (watch_once-Upward after events) (watch_all-Upward streams cursor)
