-- ===== src/Orchestrator/Engine/Running/Release.antt =====
-- A run that the context does not cut off leaves the task to others: finished, or waiting.
use cratos_ai.Prelude.{
  ℕ, ◌+◌, ◌*◌, ◌-◌, ◌≤◌, ltb, leb, ◌≡◌, refl, true, false, Option, none, some, List, [], ◌∷◌, ◌++◌,
  String, length, Bool-cases, inl, inr, zero, suc, coalesce,
}
use mathlib.Core.Path.{subst}
use cratos_ai.Orchestrator.Model.{Task, TaskState, Db, is_terminal}
use cratos_ai.Orchestrator.Tasks.{set_task_state}
use cratos_ai.Orchestrator.Tasks.Terminal.{Has}
use cratos_ai.Orchestrator.Engine.{ToolCall, Pause}
use cratos_ai.Orchestrator.Engine.Telling.{keep_approval}
use cratos_ai.Orchestrator.Engine.Running.{
  World, Progress, Next, stops, goes, Decision, model_step, permanent, transient_error, cut_short,
  End, finished_as, paused_task, exhausted, interrupted, finish_task, encoded, ended_as, save,
  ask_user, pause_task, call_outcome, find_target, after_call, after_decision, advance, pass,
  run_loop, max_transient_errors, go_on, run_decoded, run_task, failed,
}
use cratos_ai.Orchestrator.Engine.Running.Fuel.{calls_of, is_exhausted, run_task-ends}
use cratos_ai.Orchestrator.Engine.Running.Held.{
  InHand, Paused, tell_finished-tasks, set_task_state-Stands, save_progress-InHand,
  keep_approval-tasks,
}
use cratos_ai.Orchestrator.Engine.Running.Pausing.{
  told_approval-tasks, Waiting, Waiting-Paused, ask_user-Paused,
}

-- How a run leaves the task: finished in the state that the run ended with, or waiting for the user
-- or the workers.
abbrev pub Left : ℕ → End → Db → Type 0
Left id (finished_as s) db = (is_terminal s ≡ true) × (t : Task) × Has id t db.tasks × (t.state ≡ s)
Left id paused_task db = Paused id db
Left id interrupted db = Unit {0}
Left id exhausted db = Unit {0}

module _ (w : World) where
  module _ (answers : (k : ℕ) → w.writes k ≡ true) (id : ℕ)
      (keeps : (k : ℕ) (db : Db) → InHand id w.owner db → InHand id w.owner (w.meddle k db)) where
    -- The task of a run is the one of the id.
    abbrev Mine : Task → Db → Type 0
    Mine t db = (t.id ≡ id) × InHand t.id w.owner db

    finish_task-Left :
        (t : Task) (items : List String) (calls : List ToolCall) (state : TaskState)
        (result : String) (k : ℕ) (db : Db)
        → is_terminal state ≡ true
        → Mine t db
        → Left id (finished_as state) (finish_task w t items calls state result k db)
    unfolding finish_task
    finish_task-Left t items calls state result k db e (same, h) =
        let t' = ended_as w t items calls state result in
        let r = set_task_state t' w.owner state t'.result (w.now k) db in
        let (row, has, st, _) = set_task_state-Stands t' w.owner state t'.result (w.now k) db h in
        let told = tell_finished-tasks w.finished_event t' (w.now k) r.1 in
        elim (Bool-cases r.0) [
          | inl done ↦
              rw (answers k, done, told) (e, row, subst (λ n. Has n row r.1.tasks) same has, st)
          | inr skip ↦ rw (answers k, skip) (e, row, subst (λ n. Has n row r.1.tasks) same has, st)
        ]

    pause_task-Left :
        (t : Task) (items : List String) (calls : List ToolCall) (call_id : String) (k : ℕ)
        (p : Pause) (db : Db)
        → Mine t db
        → Left id paused_task (pause_task w t items calls call_id k p db)
    unfolding pause_task
    pause_task-Left t items calls call_id k (Pause.asks a summary) db (same, h) =
        let t' = encoded w t items calls in
        let state = TaskState.awaiting_confirmation in
        let r = set_task_state t' w.owner state "" (w.now k) db in
        let (row, has, st, _) = set_task_state-Stands t' w.owner state "" (w.now k) db h in
        let waits : Waiting w t.id r.1 = (row, has, rw st refl) in
        let after = ask_user w (w.new_id k) t' a summary call_id (w.now k) r.1 t.conversation_id in
        let asked =
          ask_user-Paused w (w.new_id k) t' a summary call_id (w.now k) r.1 t.conversation_id
            waits in
        elim (Bool-cases r.0) [
          | inl done ↦ rw (answers k, done) (subst (λ n. Paused n after) same asked)
          | inr skip ↦
              rw (answers k, skip)
                (subst (λ n. Paused n r.1) same (Waiting-Paused w t.id r.1 waits))
        ]
    pause_task-Left t items calls call_id k (Pause.approves p) db (same, h) =
        let t' = encoded w t items calls in
        let state = TaskState.awaiting_approval in
        let r = set_task_state t' w.owner state "" (w.now k) db in
        let (row, has, st, _) = set_task_state-Stands t' w.owner state "" (w.now k) db h in
        let waits : Waiting w t.id r.1 = (row, has, rw st refl) in
        let paused = subst (λ n. Paused n r.1) same (Waiting-Paused w t.id r.1 waits) in
        let kept = keep_approval t.id call_id p (w.now k) r.1 in
        elim (Bool-cases r.0) [
          | inl done ↦
              rw
                (
                  answers k,
                  done,
                  told_approval-tasks w t' p (w.now k) kept,
                  keep_approval-tasks t.id call_id p (w.now k) r.1,
                )
                paused
          | inr skip ↦ rw (answers k, skip) paused
        ]

    abbrev Leaves : Next → Type 0
    Leaves (stops e db) = Left id e db
    Leaves (goes p db) = Mine p.task db

    failed-Leaves :
        (k : ℕ) (p : Progress) (why : String) (db : Db)
        → Mine p.task db
        → Leaves (failed w k p why db)
    failed-Leaves k p why db h =
        finish_task-Left p.task p.items p.calls TaskState.failed why k db refl h

    saved-Mine :
        (t : Task) (items : List String) (calls : List ToolCall) (now : ℕ) (db : Db)
        → Mine t db
        → Mine (encoded w t items calls) (save w t items calls now db)
    unfolding save
    saved-Mine t items calls now db (same, h) =
        (same, save_progress-InHand (encoded w t items calls) w.owner now db h)

    after_call-Leaves :
        (k : ℕ) (p : Progress) (call : ToolCall) (calls : List ToolCall) (out : String) (db : Db)
        (o : Option Pause)
        → Mine p.task db
        → Leaves (after_call w k p call calls out db o)
    after_call-Leaves k p call calls out db none h = saved-Mine p.task _ calls (w.now k) db h
    after_call-Leaves k p call calls out db (some pause) h =
        pause_task-Left p.task p.items (call ∷ calls) call.call_id k pause db h

    after_decision-Leaves :
        (k : ℕ) (p : Progress) (db : Db) (d : Decision)
        → Mine p.task db
        → Leaves (after_decision w k p db d)
    after_decision-Leaves k p db cut_short h = tt
    after_decision-Leaves k p db (permanent message) h = failed-Leaves k p message db h
    after_decision-Leaves k p db (transient_error cut_off) h =
        elim (Bool-cases (leb max_transient_errors (p.transient + 1))) [
          | inl many ↦ rw many (failed-Leaves k p _ db h)
          | inr again ↦ elim (Bool-cases cut_off) [
            | inl off ↦ rw (again, off) tt
            | inr on ↦ rw (again, on) h
          ]
        ]
    after_decision-Leaves k p db (model_step item [] text) h =
        finish_task-Left _ (p.items ++ item ∷ []) [] TaskState.succeeded text k db refl h
    after_decision-Leaves k p db (model_step item (c ∷ cs) text) h =
        saved-Mine _ (p.items ++ item ∷ []) (c ∷ cs) (w.now k) db h

    advance-Leaves :
        (k : ℕ) (p : Progress) (db : Db) (calls : List ToolCall)
        → Mine p.task db
        → Leaves (advance w k p db calls)
    advance-Leaves k p db (call ∷ calls) h =
        let o = call_outcome w k call (find_target call.name p.task.tools) in
        after_call-Leaves k p call calls o.output db o.pause h
    advance-Leaves k p db [] h = elim (Bool-cases (leb w.max_steps p.task.steps)) [
      | inl done ↦ rw done (failed-Leaves k p _ db h)
      | inr more ↦ rw more (after_decision-Leaves k p db (w.decide k p.task p.items) h)
    ]

    meddled-Mine : (k : ℕ) (t : Task) (db : Db) → Mine t db → Mine t (w.meddle k db)
    meddled-Mine k t db (same, h) =
        let kept = keeps k db (subst (λ n. InHand n w.owner db) same h) in (same, rw same kept)

    pass-Leaves : (k : ℕ) (p : Progress) (db : Db) → Mine p.task db → Leaves (pass w k p db)
    unfolding pass
    pass-Leaves k p db h =
        let h' = meddled-Mine k p.task db h in
        elim (Bool-cases (w.ended k)) [
          | inl e ↦ rw e tt
          | inr e ↦ elim (Bool-cases (ltb p.task.deadline (w.now k))) [
            | inl late ↦ rw (e, late) (failed-Leaves k p _ (w.meddle k db) h')
            | inr early ↦ rw (e, early) (advance-Leaves k p (w.meddle k db) p.calls h')
          ]
        ]

    go_on-Left :
        (rest : Progress → Db → End × Db) (x : Next)
        → Leaves x
        → ((p : Progress) (db : Db) → Mine p.task db → Left id (rest p db).0 (rest p db).1)
        → Left id (go_on w rest x).0 (go_on w rest x).1
    go_on-Left rest (stops e db) h on = h
    go_on-Left rest (goes p db) h on = on p db h

    run_loop-Left :
        (fuel k : ℕ) (p : Progress) (db : Db)
        → Mine p.task db
        → Left id (run_loop w fuel k p db).0 (run_loop w fuel k p db).1
    unfolding run_loop
    run_loop-Left zero k p db h = tt
    run_loop-Left (suc fuel) k p db h =
        go_on-Left (run_loop w fuel (suc k)) (pass w k p db) (pass-Leaves k p db h)
          (λ p' db' h'. run_loop-Left fuel (suc k) p' db' h')

    run_decoded-Left :
        (fuel : ℕ) (t : Task) (db : Db) (items : Option (List String))
        (calls : Option (List ToolCall))
        → Mine t db
        → Left id (run_decoded w fuel t db items calls).0 (run_decoded w fuel t db items calls).1
    run_decoded-Left fuel t db none calls h =
        finish_task-Left t [] [] TaskState.failed _ 0 db refl h
    run_decoded-Left fuel t db (some items) none h =
        finish_task-Left t [] [] TaskState.failed _ 0 db refl h
    run_decoded-Left fuel t db (some items) (some calls) h = run_loop-Left fuel 0 _ db h

  -- A worker gives up its task. Let a worker hold a task, no other session take it away from the
  -- worker, the database answer SetTaskState, no answer of the model ask for more than `most` calls,
  -- and the run have passes enough. Then the run ends; and unless the end of its context interrupts
  -- it, the task's row has finished, in the state that the run ended with, or it waits for the user or
  -- is queued again.
  pub run_task-Left :
      (most fuel : ℕ) (t : Task) (db : Db)
      → InHand t.id w.owner db
      → ((k : ℕ) (d : Db) → InHand t.id w.owner d → InHand t.id w.owner (w.meddle k d))
      → ((k : ℕ) → w.writes k ≡ true)
      → ((k : ℕ) (u : Task) (items : List String) → length (calls_of (w.decide k u items)) ≤ most)
      → (most + 4) * (w.max_steps - t.steps)
          + length (coalesce (w.services.read_calls t.pending) [])
          + 3
        ≤ fuel
      → (is_exhausted (run_task w fuel t db).0 ≡ false)
        × Left t.id (run_task w fuel t db).0 (run_task w fuel t db).1
  unfolding run_task
  run_task-Left most fuel t db held keeps answers few enough = (
    run_task-ends w most few fuel t db enough,
    run_decoded-Left answers t.id keeps fuel t db (w.services.read_items t.history)
        (w.services.read_calls t.pending) (refl, held),
  )
