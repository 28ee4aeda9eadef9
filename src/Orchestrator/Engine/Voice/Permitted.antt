-- ===== src/Orchestrator/Engine/Voice/Permitted.antt =====
-- What a function call of a voice conversation may do.
use cratos_ai.Prelude.{
  ℕ, ◌≡◌, ◌⊎◌, refl, Bool, true, false, Option, none, some, List, [], ◌∷◌, String, str_eq, arith,
  find_where, Bool-cases, Option-cases, inl, inr, ==→eq, err, not_found,
}
use cratos_ai.Prelude.Rows.{find-keyed_none}
use cratos_ai.Orchestrator.Model.{Target, Conversation, Confirmation, Db}
use cratos_ai.Orchestrator.Confirmations.{has_id, can_settle, settle}
use cratos_ai.Orchestrator.Confirmations.Settling.{confirmation_id, UniqueIds, Holds}
use cratos_ai.Orchestrator.Engine.{McpCall, call_of, settle_action}
use cratos_ai.Orchestrator.Engine.Consent.{Consented, dispatch-calls, settle_action-consent}
use cratos_ai.Orchestrator.Engine.Running.{find_target}
use cratos_ai.Orchestrator.Engine.Voice.{
  VoiceWorld, start_if, settle_if, run_target, voice_tool, voice_call,
}

module _ (w : VoiceWorld) where
  -- The calls are one of a read-only tool that the conversation has.
  abbrev pub ReadOnly : Conversation → String → String → List McpCall → Type 0
  ReadOnly conv name args calls =
      (t : Target) × (find_target name conv.tools ≡ some t)
      × (t.read_only ≡ true)
      × (calls ≡ call_of w.services t args ∷ [])

  -- The calls are those that a confirmation stores, to which the user has consented.
  abbrev pub Confirmed : Conversation → ℕ → ℕ → Db → List McpCall → Type 0
  Confirmed conv turn now db calls =
      (id : ℕ) × (before : Confirmation) × Holds id before db
      × Consented w.services conv.id turn now true before calls

  settle-absent :
      (conversation id turn now : ℕ) (confirm : Bool) (db : Db)
      → find_where (has_id id) db.confirmations ≡ none
      → (settle conversation id turn confirm now db).0 ≡ err not_found
  unfolding settle
  settle-absent conversation id turn now confirm db e =
      let none_met =
        find-keyed_none confirmation_id (can_settle conversation id turn confirm now) id
          (λ c h. ==→eq c.id id (ground arith)) db.confirmations e in
      ground (arith, none_met)

  absent-calls :
      (conversation id turn now : ℕ) (confirm : Bool) (db : Db)
      → find_where (has_id id) db.confirmations ≡ none
      → (settle_action w.services conversation id turn confirm now db).1 ≡ []
  unfolding settle_action
  absent-calls conversation id turn now confirm db e =
      let a = settle-absent conversation id turn now confirm db e in rw a refl

  settle_if-calls :
      (conv : Conversation) (turn now : ℕ) (confirm : Bool) (db : Db) (o : Option ℕ)
      → UniqueIds db
      → let calls = (settle_if w conv turn confirm now db o).0.calls in
        (calls ≡ []) ⊎ Confirmed conv turn now db calls
  settle_if-calls conv turn now confirm db none u = inl refl
  settle_if-calls conv turn now confirm db (some id) u =
      elim (Option-cases (find_where (has_id id) db.confirmations)) [
        | inl e ↦ inl (absent-calls conv.id id turn now confirm db e)
        | inr (before, e) ↦
            elim (settle_action-consent w.services conv.id id turn now confirm before db u e) [
              | inl z ↦ inl z
              | inr (z, after, c, a, r, m) ↦ inr (id, before, e, (refl, after, c, a, r, m))
            ]
      ]

  start_if-calls :
      (conv : Conversation) (now : ℕ) (db : Db) (o : Option String)
      → (start_if w conv now db o).0.calls ≡ []
  start_if-calls conv now db none = refl
  start_if-calls conv now db (some goal) = refl

  widen : {A B C : Type 0} → A ⊎ C → A ⊎ (B ⊎ C)
  widen (inl a) = inl a
  widen (inr c) = inr (inr c)

  run_target-calls :
      (conv : Conversation) (name args : String) (turn now : ℕ) (db : Db) (o : Option Target)
      → UniqueIds db
      → find_target name conv.tools ≡ o
      → let calls = (run_target w conv name args turn now db o).0.calls in
        (calls ≡ []) ⊎ (ReadOnly conv name args calls ⊎ Confirmed conv turn now db calls)
  run_target-calls conv name args turn now db none u e = inl refl
  run_target-calls conv name args turn now db (some t) u e = elim (Bool-cases (w.is_json args)) [
    | inr j ↦ rw j (inl refl)
    | inl j ↦ elim (Bool-cases (str_eq t.kind "start_task")) [
      | inl k ↦ rw (j, k) (inl (start_if-calls conv now db (w.read_goal args)))
      | inr k ↦ elim (Bool-cases (str_eq t.kind "confirm_action")) [
        | inl l ↦
            rw (j, k, l)
              (widen (settle_if-calls conv turn now true db (w.read_confirmation_id args) u))
        | inr l ↦ elim (Bool-cases (str_eq t.kind "cancel_action")) [
          | inl m ↦
              rw (j, k, l, m)
                (widen (settle_if-calls conv turn now false db (w.read_confirmation_id args) u))
          | inr m ↦
              rw (j, k, l, m)
                (elim (dispatch-calls w.services t args) [
                  | inl z ↦ inl z
                  | inr (r, z) ↦ inr (inl (t, e, r, z))
                ])
        ]
      ]
    ]
  ]

  -- Nothing reaches an integration from a voice conversation but what the user may expect. Where the
  -- confirmations have distinct ids, a function call makes no call of an integration; or one call of a
  -- read-only tool that the conversation has under that name, with the arguments given; or the one
  -- call that a confirmation stores, to which the user has consented: it was pending and unexpired in
  -- this conversation, and the question had reached the user in an earlier turn.
  pub voice_call-calls :
      (conv : Conversation) (call_id name args : String) (turn now : ℕ) (db : Db)
      → UniqueIds db
      → let calls = (voice_call w conv call_id name args turn now db).1 in
        (calls ≡ []) ⊎ (ReadOnly conv name args calls ⊎ Confirmed conv turn now db calls)
  unfolding voice_call voice_tool
  voice_call-calls conv call_id name args turn now db u =
      run_target-calls conv name args turn now db (find_target name conv.tools) u refl
