-- ===== src/Orchestrator/Engine/Running/Fuel.antt =====
-- A task's loop ends: every pass uses up a step, a pending call or an attempt.
use cratos_ai.Prelude.{
  ℕ, ◌+◌, ◌-◌, ◌*◌, ◌≤◌, ◌<◌, ltb, leb, ◌≡◌, refl, Bool, true, false, Option, none, some, List, [],
  ◌∷◌, String, arith, length, Bool-cases, inl, inr, zero, suc, coalesce,
}
use native.Mathlib.Numerals.{unary_clauses}
use cratos_ai.Orchestrator.Model.{Task, Db}
use cratos_ai.Orchestrator.Engine.{ToolCall, Pause}
use cratos_ai.Orchestrator.Engine.Running.{
  World, Progress, Next, stops, goes, Decision, model_step, permanent, transient_error, cut_short,
  End, exhausted, call_outcome, find_target, after_call, after_decision, advance, pass, run_loop,
  max_transient_errors, go_on, run_decoded, run_task,
}

-- How many calls a step asks for.
abbrev pub calls_of : Decision → List ToolCall
calls_of (model_step item calls text) = calls
calls_of _ = []

abbrev pub is_exhausted : End → Bool
is_exhausted exhausted = true
is_exhausted _ = false

less_one_step :
    (most max_steps steps : ℕ)
    → steps < max_steps
    → most * (max_steps - steps) ≡ most * (max_steps - (steps + 1)) + most
less_one_step most max_steps steps l =
    let one : max_steps - steps ≡ suc (max_steps - (steps + 1)) = omega arith in
    rw one (simp unary_clauses refl)

module _ (w : World) (most : ℕ) where
  -- What a run has left: its steps, each with its calls and attempts, its pending calls, and the
  -- attempts at the next step.
  abbrev pub left : Progress → ℕ
  left p =
      (most + 4) * (w.max_steps - p.task.steps)
      + length p.calls
      + (max_transient_errors - p.transient)

  -- The pass ends the run, or leaves it less to do.
  abbrev Lessens : ℕ → Next → Type 0
  Lessens n (stops e db) = is_exhausted e ≡ false
  Lessens n (goes p db) = (left p < n) × (p.transient < max_transient_errors)

  after_call-Lessens :
      (k : ℕ) (p : Progress) (call : ToolCall) (calls : List ToolCall) (out : String) (db : Db)
      (o : Option Pause)
      → p.calls ≡ call ∷ calls
      → p.transient < max_transient_errors
      → Lessens (left p) (after_call w k p call calls out db o)
  after_call-Lessens k p call calls out db none e t = (rw e (omega arith), t)
  after_call-Lessens k p call calls out db (some pause) e t = refl

  after_decision-Lessens :
      (k : ℕ) (p : Progress) (db : Db) (d : Decision)
      → p.calls ≡ []
      → p.task.steps < w.max_steps
      → p.transient < max_transient_errors
      → length (calls_of d) ≤ most
      → Lessens (left p) (after_decision w k p db d)
  after_decision-Lessens k p db cut_short e s t few = refl
  after_decision-Lessens k p db (permanent message) e s t few = refl
  after_decision-Lessens k p db (transient_error cut_off) e s t few =
      elim (Bool-cases (leb max_transient_errors (p.transient + 1))) [
        | inl many ↦ rw many refl
        | inr again ↦ elim (Bool-cases cut_off) [
          | inl off ↦ rw (again, off) refl
          | inr on ↦ rw (again, on) (omega arith, ground arith)
        ]
      ]
  after_decision-Lessens k p db (model_step item [] text) e s t few = refl
  after_decision-Lessens k p db (model_step item (c ∷ cs) text) e s t few =
      let less = less_one_step (most + 4) w.max_steps p.task.steps s in
      (omega (arith, less, few, t), omega arith)

  module _
      (few : (k : ℕ) (t : Task) (items : List String)
        → length (calls_of (w.decide k t items)) ≤ most) where
    advance-Lessens :
        (k : ℕ) (p : Progress) (db : Db) (calls : List ToolCall)
        → p.calls ≡ calls
        → p.transient < max_transient_errors
        → Lessens (left p) (advance w k p db calls)
    advance-Lessens k p db (call ∷ calls) e t =
        let o = call_outcome w k call (find_target call.name p.task.tools) in
        after_call-Lessens k p call calls o.output db o.pause e t
    advance-Lessens k p db [] e t = elim (Bool-cases (leb w.max_steps p.task.steps)) [
      | inl done ↦ rw done refl
      | inr more ↦ rw more (
          after_decision-Lessens k p db (w.decide k p.task p.items) e (ground arith) t
            (few k p.task p.items))
    ]

    pass-Lessens :
        (k : ℕ) (p : Progress) (db : Db)
        → p.transient < max_transient_errors
        → Lessens (left p) (pass w k p db)
    unfolding pass
    pass-Lessens k p db t = elim (Bool-cases (w.ended k)) [
      | inl e ↦ rw e refl
      | inr e ↦ elim (Bool-cases (ltb p.task.deadline (w.now k))) [
        | inl late ↦ rw (e, late) refl
        | inr early ↦ rw (e, early) (advance-Lessens k p (w.meddle k db) p.calls refl t)
      ]
    ]

    go_on-ends :
        (n fuel : ℕ) (rest : Progress → Db → End × Db) (x : Next)
        → Lessens n x
        → n ≤ suc fuel
        → ((p : Progress) (db : Db)
            → p.transient < max_transient_errors
            → left p ≤ fuel
            → is_exhausted (rest p db).0 ≡ false)
        → is_exhausted (go_on w rest x).0 ≡ false
    go_on-ends n fuel rest (stops e db) h l ends = h
    go_on-ends n fuel rest (goes p db) (less, t) l ends = ends p db t (omega arith)

    run_loop-ends :
        (fuel k : ℕ) (p : Progress) (db : Db)
        → p.transient < max_transient_errors
        → left p ≤ fuel
        → is_exhausted (run_loop w fuel k p db).0 ≡ false
    unfolding run_loop
    run_loop-ends zero k p db t l = absurd (omega (arith, t, l))
    run_loop-ends (suc fuel) k p db t l =
        go_on-ends (left p) fuel (run_loop w fuel (suc k)) (pass w k p db) (pass-Lessens k p db t) l
          (λ p' db' t' l'. run_loop-ends fuel (suc k) p' db' t' l')

    run_decoded-ends :
        (fuel : ℕ) (t : Task) (db : Db) (items : Option (List String))
        (calls : Option (List ToolCall))
        → (most + 4) * (w.max_steps - t.steps) + length (coalesce calls []) + 3 ≤ fuel
        → is_exhausted (run_decoded w fuel t db items calls).0 ≡ false
    run_decoded-ends fuel t db none calls l = refl
    run_decoded-ends fuel t db (some items) none l = refl
    run_decoded-ends fuel t db (some items) (some calls) l =
        run_loop-ends fuel 0 (record { task = t; items = items; calls = calls; transient = 0 }) db
          (omega arith) l

    -- Running a task ends. If no answer of the model asks for more than `most` calls, then the loop of
    -- a task comes to an end, whatever the tools answer and whatever happens meanwhile, within
    -- `(most + 4)` passes for each step that the task has left, one for each call that is pending, and
    -- three.
    pub run_task-ends :
        (fuel : ℕ) (t : Task) (db : Db)
        → (most + 4) * (w.max_steps - t.steps)
            + length (coalesce (w.services.read_calls t.pending) [])
            + 3
          ≤ fuel
        → is_exhausted (run_task w fuel t db).0 ≡ false
    unfolding run_task
    run_task-ends fuel t db l =
        run_decoded-ends fuel t db (w.services.read_items t.history)
          (w.services.read_calls t.pending) l
