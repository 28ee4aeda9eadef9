-- ===== src/Orchestrator/Confirmations/Settling.antt =====
-- What a confirmation takes: a question that reached the user, a later turn of the user, once.
use cratos_ai.Prelude.{
  ℕ, ◌<◌, ◌≡◌, refl, Bool, true, Option, none, some, arith, holds, find_where, ==→eq, ltb,
  if◌then◌else◌, Bool-cases, inl, inr, ok, err, not_found,
}
use cratos_ai.Prelude.Rows.{Unique, find-keyed}
use cratos_ai.Orchestrator.Model.{Confirmation, ConfirmationState, Db}
use cratos_ai.Orchestrator.Confirmations.{has_id, can_settle, settled, settle}

abbrev pub confirmation_id : Confirmation → ℕ
confirmation_id c = c.id

abbrev pub Holds : ℕ → Confirmation → Db → Type 0
Holds id c db = find_where (has_id id) db.confirmations ≡ some c

abbrev pub UniqueIds : Db → Type 0
UniqueIds db = Unique confirmation_id db.confirmations

can_settle_narrow :
    (conversation id turn now : ℕ) (confirm : Bool) (c : Confirmation)
    → can_settle conversation id turn confirm now c ≡ true
    → confirmation_id c ≡ id
can_settle_narrow conversation id turn now confirm c h = ==→eq c.id id (ground arith)

-- Settle answers by the row of the id alone: it returns the row settled if the row can be settled,
-- and otherwise reports no row.
pub settle-answer :
    (conversation id turn now : ℕ) (confirm : Bool) (c : Confirmation) (db : Db)
    → UniqueIds db
    → Holds id c db
    → (settle conversation id turn confirm now db).0 ≡ (
        if can_settle conversation id turn confirm now c
        then ok (settled confirm c)
        else err not_found)
unfolding settle
settle-answer conversation id turn now confirm c db u h =
    let e =
      find-keyed confirmation_id (can_settle conversation id turn confirm now) id
        (can_settle_narrow conversation id turn now confirm) db.confirmations c u h in
    ground (arith, e)

-- What is known of an action that was confirmed: its question was pending and unexpired in the
-- conversation that confirmed it, and had reached the user in an earlier turn.
pub record Consent (conversation turn now : ℕ) (before after : Confirmation) : Type 0 where
  pub pending : before.state ≡ ConfirmationState.pending
  pub here : before.conversation_id ≡ conversation
  pub in_time : now < before.expires_at
  pub asked : ℕ
  pub asked_then : before.asked_turn ≡ some asked
  pub later : asked < turn
  pub result : after ≡ record before { state = ConfirmationState.confirmed }

asked_before :
    (turn : ℕ) (o : Option ℕ)
    → holds o (λ asked. ltb asked turn) ≡ true
    → (asked : ℕ) × (o ≡ some asked) × (asked < turn)
asked_before turn none h = cc
asked_before turn (some a) h = (a, refl, ground arith)

-- An action is confirmed only with the user's consent. Where the confirmations have distinct ids, a
-- Settle that confirms and succeeds found its row pending, in the conversation it was given, not yet
-- expired, and asked in a turn before the one it was given; it answers that row as confirmed.
pub settle_confirm-Consent :
    (conversation id turn now : ℕ) (before after : Confirmation) (db : Db)
    → UniqueIds db
    → Holds id before db
    → (settle conversation id turn true now db).0 ≡ ok after
    → Consent conversation turn now before after
settle_confirm-Consent conversation id turn now before after db u h e =
    let answer = settle-answer conversation id turn now true before db u h in
    elim (Bool-cases (can_settle conversation id turn true now before)) [
      | inr no_consent ↦ absurd (cc (rw no_consent at answer, e))
      | inl met ↦
          let (a, z, l) = asked_before turn before.asked_turn (ground arith) in
          record {
            pending = ground arith;
            here = ==→eq before.conversation_id conversation (ground arith);
            in_time = ground arith;
            asked = a;
            asked_then = z;
            later = l;
            result = cc (rw met at answer, e);
          }
    ]
