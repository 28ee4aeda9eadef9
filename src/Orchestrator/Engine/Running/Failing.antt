-- ===== src/Orchestrator/Engine/Running/Failing.antt =====
-- How a run fails: the errors of the model's provider.
use cratos_ai.Prelude.{
  ℕ, ◌+◌, ◌<◌, ◌≤◌, ltb, leb, ◌≡◌, refl, ◌∙◌, true, false, Bool-cases, inl, inr, [], arith, List,
  String, suc,
}
use cratos_ai.Orchestrator.Model.{TaskState, Task, Db}
use cratos_ai.Orchestrator.Engine.Running.{
  World, Progress, transient_error, finished_as, finish_task, ended_as, unavailable_message, pass,
  run_loop,
}
use cratos_ai.Orchestrator.Tasks.{set_task_state}
use cratos_ai.Orchestrator.Engine.Running.Held.{
  InHand, Stands, set_task_state-Stands, tell_finished-tasks,
}

module _ (w : World) (p : Progress) (idle : p.calls ≡ []) (more : p.task.steps < w.max_steps)
    (alive : (k : ℕ) → w.ended k ≡ false) (early : (k : ℕ) → w.now k ≤ p.task.deadline)
    (down : (k : ℕ) (t : Task) (items : List String)
      → w.decide k t items ≡ transient_error false) where
  abbrev tried : ℕ → Progress
  tried n = record p { transient = n }

  retry :
      (fuel k n : ℕ) (db : Db)
      → n < 2
      → run_loop w (suc fuel) k (tried n) db
        ≡ run_loop w fuel (suc k) (tried (n + 1)) (w.meddle k db)
  unfolding run_loop pass
  retry fuel k n db l =
      let on_time : ltb p.task.deadline (w.now k) ≡ false = ground (arith, early k) in
      let step : leb w.max_steps p.task.steps ≡ false = ground (arith, more) in
      let again : leb 3 (n + 1) ≡ false = ground arith in
      rw (alive k, on_time, idle, step, down k p.task p.items, again) refl

  last :
      (fuel k : ℕ) (db : Db)
      → run_loop w (suc fuel) k (tried 2) db ≡ (
        finished_as TaskState.failed,
        finish_task w p.task p.items p.calls TaskState.failed
            (unavailable_message w)
            k
            (w.meddle k db),
      )
  unfolding run_loop pass
  last fuel k db =
      let on_time : ltb p.task.deadline (w.now k) ≡ false = ground (arith, early k) in
      let step : leb w.max_steps p.task.steps ≡ false = ground (arith, more) in
      rw (alive k, on_time, idle, step, down k p.task p.items) refl

  -- The row after the failure.
  failed-Stands :
      (k : ℕ) (db : Db)
      → w.writes k ≡ true
      → InHand p.task.id w.owner db
      → Stands p.task.id TaskState.failed
          (w.clip_result "The AI provider is unavailable right now; try again later.")
          (finish_task w p.task p.items p.calls TaskState.failed (unavailable_message w) k db)
  unfolding finish_task
  failed-Stands k db answers h =
      let t' = ended_as w p.task p.items p.calls TaskState.failed (unavailable_message w) in
      let r = set_task_state t' w.owner TaskState.failed t'.result (w.now k) db in
      let row = set_task_state-Stands t' w.owner TaskState.failed t'.result (w.now k) db h in
      let told = tell_finished-tasks w.finished_event t' (w.now k) r.1 in
      elim (Bool-cases r.0) [
        | inl done ↦ rw (answers, done, told) row
        | inr skip ↦ rw (answers, skip) row
      ]

  -- A provider that stays down fails the task within three attempts. Let no call of the task be
  -- pending, steps be left, the context not end and the deadline not pass; let every attempt at the
  -- next step fail for a reason that may pass; and let the worker still hold the task, and the
  -- database answer, at the third. Then a run ends there, and the task's row has failed, with the
  -- message to the user that the provider is unavailable.
  pub provider_down :
      (fuel k : ℕ) (db : Db)
      → let met = w.meddle (suc (suc k)) (w.meddle (suc k) (w.meddle k db)) in
        w.writes (suc (suc k)) ≡ true
        → InHand p.task.id w.owner met
        → let ended = run_loop w (suc (suc (suc fuel))) k (record p { transient = 0 }) db in
          (ended.0 ≡ finished_as TaskState.failed)
          × Stands p.task.id TaskState.failed
              (w.clip_result "The AI provider is unavailable right now; try again later.")
              ended.1
  provider_down fuel k db answers h =
      let met = w.meddle (suc (suc k)) (w.meddle (suc k) (w.meddle k db)) in
      let ends =
        retry (suc (suc fuel)) k 0 db (omega arith)
        ∙ retry (suc fuel) (suc k) 1 (w.meddle k db) (omega arith)
        ∙ last fuel (suc (suc k)) (w.meddle (suc k) (w.meddle k db)) in
      rw ends (refl, failed-Stands (suc (suc k)) met answers h)
