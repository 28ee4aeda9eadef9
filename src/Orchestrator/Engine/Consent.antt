-- ===== src/Orchestrator/Engine/Consent.antt =====
-- Nothing is done in the user's name without their consent.
use cratos_ai.Prelude.{
  ℕ, ◌≡◌, refl, Bool, true, false, Option, none, some, List, [], ◌∷◌, String, str_eq, Bool-cases,
  Option-cases, Result-cases, inl, inr, ◌⊎◌, ok, err, not_found, rejected, ap, sym, ◌∙◌, Error,
}
use cratos_ai.Orchestrator.Model.{Target, Confirmation, Db}
use cratos_ai.Orchestrator.Confirmations.{settle}
use cratos_ai.Orchestrator.Confirmations.Settling.{
  UniqueIds, Holds, Consent, settle_confirm-Consent,
}
use cratos_ai.Orchestrator.Engine.{
  Services, Action, McpCall, dispatch, call_of, with_argument, run_action, action_call,
  settle_action, settle_answered, continue, done_or_not,
}

module _ (sv : Services) where
  with_argument-calls :
      (o : Option String) (f : String → String × Bool) (missing : String)
      → (with_argument sv o f missing).calls ≡ []
  with_argument-calls none f missing = refl
  with_argument-calls (some a) f missing = refl

  -- A tool that the model calls reaches an integration only if the tool is read-only, and then with
  -- that one call; a call of any other tool reaches none.
  pub dispatch-calls :
      (t : Target) (args : String)
      → ((dispatch sv t args).calls ≡ [])
        ⊎ ((t.read_only ≡ true) × ((dispatch sv t args).calls ≡ call_of sv t args ∷ []))
  unfolding dispatch
  dispatch-calls t args = elim (Bool-cases (str_eq t.kind "recall_memory")) [
    | inl e ↦ rw e (inl (with_argument-calls (sv.read_query args) sv.recall "query is required"))
    | inr e ↦ elim (Bool-cases (str_eq t.kind "remember")) [
      | inl e' ↦
          rw (e, e') (inl (with_argument-calls (sv.read_note args) sv.remember "note is required"))
      | inr e' ↦ elim (Bool-cases (str_eq t.kind "run_on_computer")) [
        | inl d ↦ rw (e, e', d) (inl refl)
        | inr d ↦ elim (Bool-cases (str_eq t.kind "mcp")) [
          | inr m ↦ rw (e, e', d, m) (inl refl)
          | inl m ↦ elim (Bool-cases t.read_only) [
            | inl r ↦ rw (e, e', d, m, r) (inr (refl, refl))
            | inr r ↦ rw (e, e', d, m, r) (inl refl)
          ]
        ]
      ]
    ]
  ]

  continue-calls :
      (conf : Confirmation) (confirm : Bool) (now : ℕ) (db : Db) (o : Option ℕ)
      (r : (String × Bool) × List McpCall)
      → (continue sv conf confirm now db o r).1 ≡ r.1
  continue-calls conf confirm now db none r = refl
  continue-calls conf true now db (some task) r = refl
  continue-calls conf false now db (some task) r = refl

  run_action-calls :
      (a : Action) → ((run_action sv a).1 ≡ []) ⊎ ((run_action sv a).1 ≡ action_call sv a ∷ [])
  unfolding run_action
  run_action-calls a = elim (Bool-cases (str_eq a.kind "mcp")) [
    | inl e ↦ rw e (inr refl)
    | inr e ↦ rw e (inl refl)
  ]

  -- The user's consent to a call: the confirmation of the id was pending and unexpired, asked in this
  -- conversation in an earlier turn, and is now confirmed; and the call is the one that it stored.
  abbrev pub Consented : ℕ → ℕ → ℕ → Bool → Confirmation → List McpCall → Type 0
  Consented conversation turn now confirm before calls =
      (confirm ≡ true)
      × (after : Confirmation) × Consent conversation turn now before after
      × (a : Action) × (sv.read_action before.action ≡ some a)
      × (calls ≡ action_call sv a ∷ [])

  pub refused-calls :
      (conversation id now : ℕ) (confirm : Bool) (x : Error) (db : Db)
      → (settle_answered sv conversation id confirm now (err x) db).1 ≡ []
  refused-calls conversation id now confirm not_found db = refl
  refused-calls conversation id now confirm rejected db = refl

  answered-consent :
      (conversation id turn now : ℕ) (confirm : Bool) (before after : Confirmation) (a : Action)
      (db : Db)
      → UniqueIds db
      → Holds id before db
      → (settle conversation id turn confirm now db).0 ≡ ok after
      → sv.read_action after.action ≡ some a
      → ((done_or_not sv confirm a).1 ≡ [])
        ⊎ Consented conversation turn now confirm before (done_or_not sv confirm a).1
  answered-consent conversation id turn now false before after a db u h e r = inl refl
  answered-consent conversation id turn now true before after a db u h e r =
      elim (run_action-calls a) [
        | inl z ↦ inl z
        | inr z ↦
            let c = settle_confirm-Consent conversation id turn now before after db u h e in
            let same = ap (λ x. sv.read_action x.action) (sym c.result) ∙ r in
            inr (refl, after, c, a, same, z)
      ]

  -- Where the confirmations have distinct ids and the one asked for exists, settle reaches an
  -- integration with at most one call, the one that the confirmation stored, and only if it is told
  -- to confirm and the user has consented; otherwise it makes no call at all.
  pub settle_action-consent :
      (conversation id turn now : ℕ) (confirm : Bool) (before : Confirmation) (db : Db)
      → UniqueIds db
      → Holds id before db
      → let calls = (settle_action sv conversation id turn confirm now db).1 in
        (calls ≡ []) ⊎ Consented conversation turn now confirm before calls
  unfolding settle_action
  settle_action-consent conversation id turn now confirm before db u h =
      let db' = (settle conversation id turn confirm now db).1 in
      elim (Result-cases (settle conversation id turn confirm now db).0) [
        | inr (x, e) ↦ rw e (inl (refused-calls conversation id now confirm x db'))
        | inl (after, e) ↦ elim (Option-cases (sv.read_action after.action)) [
          | inl z ↦ rw (e, z) (inl refl)
          | inr (a, z) ↦
              let step =
                continue-calls after confirm now db' after.task_id (done_or_not sv confirm a) in
              let consent =
                answered-consent conversation id turn now confirm before after a db u h e z in
              rw (e, z, step) consent
        ]
      ]
