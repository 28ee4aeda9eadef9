-- ===== src/Orchestrator/Events/Telling.antt =====
-- Who hears an event.
use cratos_ai.Prelude.{
  Result, ok, err, ℕ, ◌==◌, ◌≡◌, refl, Bool, true, false, not, ◌&&◌, none, some, Option, List, [],
  ◌∷◌, ◌++◌, String, str_eq, arith, All, find_where, select_where, update_where, is_some,
  Bool-cases, Option-cases, inl, inr, ==→eq, ◌||◌, ◌⊎◌,
}
use cratos_ai.Prelude.Rows.{find-met}
use cratos_ai.Orchestrator.Model.{Conversation, Confirmation, Event, Db}
use cratos_ai.Orchestrator.Conversations.{is_open}
use cratos_ai.Orchestrator.Confirmations.{move_confirmations, is_pending_of, moved_to}
use cratos_ai.Orchestrator.Events.{
  is_heir, newest, listener, target_of, add_event, is_about, is_unheard, carried, carry_over_events,
}

newest-select :
    (p : Conversation → Bool) (cs : List Conversation) (c : Conversation)
    → newest (select_where p cs) ≡ some c
    → p c ≡ true
newest-select p [] c e = cc
newest-select p (x ∷ xs) c e = elim (Option-cases (newest (select_where p xs))) [
  | inl z ↦ ground arith
  | inr (y, z) ↦ let h = newest-select p xs y z in ground (arith, h)
]

not_itself :
    (target tenant : ℕ) (user : String) (cs : List Conversation)
    → find_where
        (λ c.
          c.id == target
          && c.tenant_id == tenant
          && str_eq c.user_id user
          && not (c.id == target)
          && is_some c.closed_at)
        cs
      ≡ none
not_itself target tenant user [] = refl
not_itself target tenant user (c ∷ cs) = ground (arith, not_itself target tenant user cs)

unheard-gone :
    (target tenant window now : ℕ) (user : String) (cs : List Conversation) (es : List Event)
    → All
        (λ e. is_unheard target tenant user window now cs e ≡ false)
        (update_where (is_unheard target tenant user window now cs) (carried target) es)
unheard-gone target tenant window now user cs [] = tt
unheard-gone target tenant window now user cs (e ∷ es) =
    elim (Bool-cases (is_unheard target tenant user window now cs e)) [
      | inl t ↦ rw t (
        rw (not_itself target tenant user cs) refl,
        unheard-gone target tenant window now user cs es,
      )
      | inr t ↦ rw t (t, unheard-gone target tenant window now user cs es)
    ]

-- CarryOverEvents leaves nothing behind: no event within the window that the user has not heard is
-- left in an ended conversation of theirs, other than the one it carries to.
pub carry_over_complete :
    (target tenant window now : ℕ) (user : String) (db : Db)
    → All
        (λ e. is_unheard target tenant user window now db.conversations e ≡ false)
        (carry_over_events target tenant user window now db).1.events
unfolding carry_over_events move_confirmations
carry_over_complete target tenant window now user db =
    unheard-gone target tenant window now user db.conversations db.events

-- Whom AddEvent tells: a conversation that is open, and that is the one asked for, or else belongs to
-- the same tenant and user and is younger than the lifetime of a conversation.
abbrev pub Hears : ℕ → ℕ → Db → Conversation → Type 0
Hears id now db o =
    (is_open id o ≡ true)
    ⊎ ((c : Conversation) × (find_where (λ x. x.id == id) db.conversations ≡ some c)
        × (is_heir c now o ≡ true))

listener-Hears :
    (id now : ℕ) (db : Db) (o : Conversation)
    → listener id now db.conversations ≡ some o
    → Hears id now db o
listener-Hears id now db o e = elim (Option-cases (find_where (is_open id) db.conversations)) [
  | inr (c, z) ↦ inl (ground (arith, find-met (is_open id) db.conversations c z, rw z at e))
  | inl z ↦ elim (Option-cases (find_where (λ x. x.id == id) db.conversations)) [
    | inl y ↦ absurd (cc (rw (z, y) at e))
    | inr (c, y) ↦ inr (c, y, newest-select (is_heir c now) db.conversations o (rw (z, y) at e))
  ]
]

-- A pending question of the event that is not where the event went, or that counts as asked there.
abbrev pub is_misplaced : Option ℕ → ℕ → Confirmation → Bool
is_misplaced confirmation target c =
    is_pending_of (is_about confirmation) c
    && (not (c.conversation_id == target) || is_some c.asked_turn)

moved-placed :
    (confirmation : Option ℕ) (target : ℕ) (cs : List Confirmation)
    → All
        (λ c. is_misplaced confirmation target c ≡ false)
        (update_where (is_pending_of (is_about confirmation)) (moved_to target) cs)
moved-placed confirmation target [] = tt
moved-placed confirmation target (c ∷ cs) = (ground arith, moved-placed confirmation target cs)

-- The event that AddEvent stores.
abbrev pub stored_event : ℕ → String → Option ℕ → ℕ → Db → Event
stored_event target payload confirmation now db = record {
  id = db.next_event;
  conversation_id = target;
  payload = payload;
  confirmation_id = confirmation;
  acked_turn = none;
  created_at = now;
}

-- Whom AddEvent tells. Where it succeeds, the event is stored, under a new id, in the conversation
-- that it answers. That is the one asked for, and then nobody is said to be listening unless it is
-- open; or it is an open conversation of the same tenant and user, younger than the lifetime of a
-- conversation. If the event goes elsewhere, the pending question that it asks goes with it, and is
-- yet to be asked there. Where it fails, the database is as it was.
abbrev pub Told : ℕ → ℕ → String → Option ℕ → Db → Result (ℕ × Bool) × Db → Type 0
Told id now payload confirmation db (err e, after) = after ≡ db
Told id now payload confirmation db (ok answer, after) =
    (after.events ≡ db.events ++ stored_event answer.0 payload confirmation now db ∷ [])
    × (((answer.1 ≡ false) × (answer.0 ≡ id))
        ⊎ ((o : Conversation) × (answer.0 ≡ o.id) × (answer.1 ≡ true) × Hears id now db o))
    × ((answer.0 ≡ id)
        ⊎ All (λ c. is_misplaced confirmation answer.0 c ≡ false) after.confirmations)

add_event-who :
    (id now : ℕ) (db : Db)
    → let who = listener id now db.conversations in
      ((is_some who ≡ false) × (target_of id who ≡ id))
      ⊎ ((o : Conversation) × (target_of id who ≡ o.id) × (is_some who ≡ true) × Hears id now db o)
add_event-who id now db = elim (Option-cases (listener id now db.conversations)) [
  | inl e ↦ rw e (inl (refl, refl))
  | inr (o, e) ↦ let h = listener-Hears id now db o e in rw e (inr (o, refl, refl, h))
]

pub add_event-Told :
    (id now : ℕ) (payload : String) (confirmation : Option ℕ) (db : Db)
    → Told id now payload confirmation db (add_event id payload confirmation now db)
unfolding add_event move_confirmations
add_event-Told id now payload confirmation db =
    let target = target_of id (listener id now db.conversations) in
    let who = add_event-who id now db in
    elim (Bool-cases (is_some (find_where (λ c. c.id == target) db.conversations))) [
      | inr none_there ↦ rw none_there refl
      | inl there ↦ elim (Bool-cases (target == id)) [
        | inl e ↦ rw (there, e) (refl, who, inl (==→eq target id e))
        | inr e ↦ rw (there, e) (refl, who, inr (moved-placed confirmation target db.confirmations))
      ]
    ]
