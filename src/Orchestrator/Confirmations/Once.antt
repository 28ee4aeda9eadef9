-- ===== src/Orchestrator/Confirmations/Once.antt =====
-- An action is answered once.
use cratos_ai.Prelude.{
  ℕ, ◌≡◌, refl, Bool, true, false, List, [], ◌∷◌, String, arith, find_where, update_where,
  if◌then◌else◌, Bool-cases, Option-cases, inl, inr, ok, err, not_found,
}
use cratos_ai.Prelude.Rows.{Unique-snoc, Unique-update, find-update, find-append_some}
use cratos_ai.Orchestrator.Model.{Confirmation, ConfirmationState, Db, is_pending}
use cratos_ai.Orchestrator.Tasks.{asks_for, withdrawn}
use cratos_ai.Orchestrator.Confirmations.{
  has_id, create_confirmation, can_settle, settled, settle, asked_at, mark_asked, of_call,
  mark_call_asked, is_overdue, expired_now, expire_confirmations, moved_to, is_pending_of,
  move_confirmations,
}
use cratos_ai.Orchestrator.Confirmations.Settling.{confirmation_id, Holds, UniqueIds, settle-answer}

-- The statements that write confirmations, as steps.
pub data Op : Type 0 where
  create : Confirmation → Op
  settling : ℕ → ℕ → ℕ → Bool → ℕ → Op
  mark : ℕ → ℕ → Op
  mark_call : ℕ → String → ℕ → Op
  expire : ℕ → Op
  withdraw : ℕ → Op
  move : (ℕ → Bool) → ℕ → Op

-- `withdraw` is the second statement of CancelTask.
unfoldable pub step : Op → Db → Db
step (create c) db = (create_confirmation c db).1
step (settling conversation id turn confirm now) db = (settle conversation id turn confirm now db).1
step (mark id turn) db = mark_asked id turn db
step (mark_call conversation call_id turn) db = (mark_call_asked conversation call_id turn db).1
step (expire now) db = (expire_confirmations now db).1
step (withdraw task) db = record db {
  confirmations = update_where (asks_for task) withdrawn db.confirmations;
}
step (move chosen conversation) db = move_confirmations chosen conversation db

unfoldable pub run : List Op → Db → Db
run [] db = db
run (op ∷ ops) db = run ops (step op db)

-- The state of a confirmation that has been answered.
abbrev pub Answered : ℕ → ConfirmationState → Db → Type 0
Answered id s db = (c : Confirmation) × Holds id c db × (c.state ≡ s)

update-Answered :
    (p : Confirmation → Bool) (f : Confirmation → Confirmation) (id : ℕ) (s : ConfirmationState)
    (db : Db)
    → ((c : Confirmation) → confirmation_id (f c) ≡ confirmation_id c)
    → ((c : Confirmation) → c.state ≡ s → p c ≡ true → (f c).state ≡ s)
    → Answered id s db
    → Answered id s (record db { confirmations = update_where p f db.confirmations })
update-Answered p f id s db same keep (c, h, e) =
    let found_c = find-update confirmation_id p f same id db.confirmations c h in
    elim (Bool-cases (p c)) [
      | inl met ↦ (f c, rw met at found_c, keep c e met)
      | inr missed ↦ (c, rw missed at found_c, e)
    ]

create-Unique : (c : Confirmation) (db : Db) → UniqueIds db → UniqueIds (create_confirmation c db).1
unfolding create_confirmation
create-Unique c db u = elim (Option-cases (find_where (has_id c.id) db.confirmations)) [
  | inl e ↦ rw e (Unique-snoc confirmation_id db.confirmations _ u e)
  | inr (x, e) ↦ rw e u
]

create-Answered :
    (c : Confirmation) (id : ℕ) (s : ConfirmationState) (db : Db)
    → Answered id s db
    → Answered id s (create_confirmation c db).1
unfolding create_confirmation
create-Answered c id s db (r, h, z) =
    elim (Option-cases (find_where (has_id c.id) db.confirmations)) [
      | inl e ↦ rw e (r, find-append_some confirmation_id (has_id id) db.confirmations _ r h, z)
      | inr (x, e) ↦ rw e (r, h, z)
    ]

step-Unique : (op : Op) (db : Db) → UniqueIds db → UniqueIds (step op db)
unfolding step settle mark_asked mark_call_asked expire_confirmations move_confirmations
step-Unique (create c) db u = create-Unique c db u
step-Unique (settling conversation key turn confirm now) db u =
    Unique-update confirmation_id (can_settle conversation key turn confirm now) (settled confirm)
      (λ c. refl) db.confirmations u
step-Unique (mark key turn) db u =
    Unique-update confirmation_id (has_id key) (asked_at turn) (λ c. refl) db.confirmations u
step-Unique (mark_call conversation call_id turn) db u =
    Unique-update confirmation_id (of_call conversation call_id) (asked_at turn) (λ c. refl)
      db.confirmations u
step-Unique (expire now) db u =
    Unique-update confirmation_id (is_overdue now) expired_now (λ c. refl) db.confirmations u
step-Unique (withdraw task) db u =
    Unique-update confirmation_id (asks_for task) withdrawn (λ c. refl) db.confirmations u
step-Unique (move chosen conversation) db u =
    Unique-update confirmation_id (is_pending_of chosen) (moved_to conversation) (λ c. refl)
      db.confirmations u

step-Answered :
    (op : Op) (id : ℕ) (s : ConfirmationState) (db : Db)
    → is_pending s ≡ false
    → Answered id s db
    → Answered id s (step op db)
unfolding step settle mark_asked mark_call_asked expire_confirmations move_confirmations
step-Answered (create c) id s db n h = create-Answered c id s db h
step-Answered (settling conversation key turn confirm now) id s db n h =
    update-Answered (can_settle conversation key turn confirm now) (settled confirm) id s db
      (λ c. refl) (λ c e p. ground arith) h
step-Answered (mark key turn) id s db n h =
    update-Answered (has_id key) (asked_at turn) id s db (λ c. refl) (λ c e p. e) h
step-Answered (mark_call conversation call_id turn) id s db n h =
    update-Answered (of_call conversation call_id) (asked_at turn) id s db (λ c. refl) (λ c e p. e)
      h
step-Answered (expire now) id s db n h =
    update-Answered (is_overdue now) expired_now id s db (λ c. refl) (λ c e p. ground arith) h
step-Answered (withdraw task) id s db n h =
    update-Answered (asks_for task) withdrawn id s db (λ c. refl) (λ c e p. ground arith) h
step-Answered (move chosen conversation) id s db n h =
    update-Answered (is_pending_of chosen) (moved_to conversation) id s db (λ c. refl) (λ c e p. e)
      h

run-Answered :
    (ops : List Op) (id : ℕ) (s : ConfirmationState) (db : Db)
    → is_pending s ≡ false
    → UniqueIds db
    → Answered id s db
    → UniqueIds (run ops db) × Answered id s (run ops db)
unfolding run
run-Answered [] id s db n u h = (u, h)
run-Answered (op ∷ ops) id s db n u h =
    run-Answered ops id s (step op db) n (step-Unique op db u) (step-Answered op id s db n h)

-- A successful Settle leaves the row answered.
settle-Answered :
    (conversation id turn now : ℕ) (confirm : Bool) (c after : Confirmation) (db : Db)
    → UniqueIds db
    → Holds id c db
    → (settle conversation id turn confirm now db).0 ≡ ok after
    → Answered id (settled confirm c).state (settle conversation id turn confirm now db).1
settle-Answered conversation id turn now confirm c after db u h e =
    let answer = settle-answer conversation id turn now confirm c db u h in
    let p = can_settle conversation id turn confirm now in
    elim (Bool-cases (p c)) [
      | inr not_met ↦ absurd (cc (rw not_met at answer, e))
      | inl met ↦
          let row =
            find-update confirmation_id p (settled confirm) (λ r. refl) id db.confirmations c h in
          unfold settle in (settled confirm c, rw met at row, refl)
    ]

answered_state : (confirm : Bool) (c : Confirmation) → is_pending (settled confirm c).state ≡ false
answered_state true c = refl
answered_state false c = refl

-- An answer is final: once Settle has confirmed or cancelled an action, then whatever happens to the
-- confirmations, the action keeps that state, and every further Settle of it, in any conversation
-- and turn and either way, finds no row.
pub settle_once :
    (conversation id turn now : ℕ) (confirm : Bool) (before after : Confirmation) (db : Db)
    (ops : List Op) (conversation' turn' now' : ℕ) (confirm' : Bool)
    → UniqueIds db
    → Holds id before db
    → (settle conversation id turn confirm now db).0 ≡ ok after
    → let later = run ops (settle conversation id turn confirm now db).1 in
      Answered id
        (if confirm then ConfirmationState.confirmed else ConfirmationState.cancelled)
        later
      × ((settle conversation' id turn' confirm' now' later).0 ≡ err not_found)
settle_once conversation id turn now confirm before after db ops conversation' turn' now' confirm' u
      h e =
    let u' = step-Unique (settling conversation id turn confirm now) db u in
    let n = answered_state confirm before in
    let (v, (c, g, z)) =
      run-Answered ops id (settled confirm before).state
        (settle conversation id turn confirm now db).1 n (unfold step in u')
        (settle-Answered conversation id turn now confirm before after db u h e) in
    let later = run ops (settle conversation id turn confirm now db).1 in
    let refused : can_settle conversation' id turn' confirm' now' c ≡ false =
      ground (arith, n, z) in
    ((c, g, z), rw (settle-answer conversation' id turn' now' confirm' c later v g, refused))
