-- ===== src/Voice/Jarvis/Consent.antt =====
-- The session of services/voice-gateway/internal/session/jarvis.go before the confirmations of
-- services/orchestrator/internal/store/store.go: the turn of a call is what Settle is given.
use cratos_ai.Prelude.{ℕ, ◌≤◌, ◌≡◌, true, false, some, List, [], ◌∷◌, arith, All, err, not_found}
use cratos_ai.Orchestrator.Model.{Confirmation, Db}
use cratos_ai.Orchestrator.Confirmations.{can_settle, settle}
use cratos_ai.Orchestrator.Confirmations.Settling.{Holds, UniqueIds, settle-answer}
use cratos_ai.Voice.Jarvis.Model.{Running, Jarvis}
use cratos_ai.Voice.Jarvis.Steps.{Event, run, user_turns}
use cratos_ai.Voice.Jarvis.Turns.{Stamped, run-started}

-- A turn that is not after the one in which the question reached the user settles nothing.
settle-early :
    (conversation id turn asked now : ℕ) (c : Confirmation) (db : Db)
    → UniqueIds db
    → Holds id c db
    → c.asked_turn ≡ some asked
    → turn ≤ asked
    → (settle conversation id turn true now db).0 ≡ err not_found
settle-early conversation id turn asked now c db u h a l =
    let answer = settle-answer conversation id turn now true c db u h in
    let no : can_settle conversation id turn true now c ≡ false = ground (arith, a) in
    rw no at answer

settle_refused :
    (conversation id asked now : ℕ) (c : Confirmation) (db : Db)
    → UniqueIds db
    → Holds id c db
    → c.asked_turn ≡ some asked
    → (ws : List Running) → All (λ w. w.turn ≤ asked) ws
    → All (λ w. (settle conversation id w.turn true now db).0 ≡ err not_found) ws
settle_refused conversation id asked now c db u h a [] l = tt
settle_refused conversation id asked now c db u h a (w ∷ ws) (lw, l) = (
  settle-early conversation id w.turn asked now c db u h a lw,
  settle_refused conversation id asked now c db u h a ws l,
)

-- Nothing confirms an action but a turn of the user. Let a session be in a state where no call and no
-- response in progress is stamped after the user turn, and the question of a confirmation have
-- reached the user at that turn, the confirmations having distinct ids. Then for every sequence of
-- events in which the user does not stop speaking, whatever the provider, the orchestrator's events
-- and the outputs of tools say, Settle refuses to confirm at the turn of every call that the session
-- has started by then.
pub no_consent_without_turn :
    (es : List Event) (j : Jarvis) (conversation id now : ℕ) (c : Confirmation) (db : Db)
    → Stamped j
    → user_turns es ≡ 0
    → UniqueIds db
    → Holds id c db
    → c.asked_turn ≡ some j.turns.user_turn
    → All
        (λ w. (settle conversation id w.turn true now db).0 ≡ err not_found)
        (run es j).workers.started
no_consent_without_turn es j conversation id now c db s n u h a =
    settle_refused conversation id j.turns.user_turn now c db u h a (run es j).workers.started
      (run-started es j s n)
