-- ===== src/Orchestrator/Tasks/Cancel.antt =====
-- Cancelling a task: it is final at once, its questions are withdrawn, and its worker is stopped.
use cratos_ai.Prelude.{ℕ, ◌≡◌, refl, true, false, none, String, arith, find_where, ==→eq, ok}
use cratos_ai.Prelude.Rows.{key-find, find-update, find-keyed, find-update_ended}
use cratos_ai.Orchestrator.Model.{Task, Db, is_terminal}
use cratos_ai.Orchestrator.Tasks.{
  owned_by, is_open, asks_for, withdrawn, cancel_task, cancelled_by_user,
}
use cratos_ai.Orchestrator.Tasks.Ops.{step, cancel}
use cratos_ai.Orchestrator.Tasks.Invariant.{task_id, IsWf, step-IsWf}
use cratos_ai.Orchestrator.Tasks.Terminal.{Has}
use cratos_ai.Orchestrator.Tasks.Lease.{Write, write, write_refused}

module _ (tenant : ℕ) (user : String) (id now : ℕ) (t : Task) (db : Db) where
  abbrev db' : Db
  db' = (cancel_task tenant user id now db).1

  open_narrow : (s : Task) → is_open tenant user id s ≡ true → task_id s ≡ id
  open_narrow s h = ==→eq s.id id (ground arith)

  -- The owner of an unfinished task cancels it: the call returns the cancelled task, its row is that,
  -- and no question of the task is pending any more.
  pub cancel_task-cancels :
      IsWf db.tasks
      → Has id t db.tasks
      → owned_by tenant user t ≡ true
      → is_terminal t.state ≡ false
      → ((cancel_task tenant user id now db).0 ≡ ok (cancelled_by_user now t))
        × Has id (cancelled_by_user now t) (cancel_task tenant user id now db).1.tasks
        × (find_where (asks_for id) (cancel_task tenant user id now db).1.confirmations ≡ none)
  unfolding cancel_task
  cancel_task-cancels w h own live =
      let opened : is_open tenant user id t ≡ true =
        ground (arith, key-find task_id id db.tasks t h) in
      let e = find-keyed task_id (is_open tenant user id) id open_narrow db.tasks t w.unique h in
      rw (e, opened)
        (
          refl,
          rw opened at (
              find-update task_id (is_open tenant user id) (cancelled_by_user now) (λ s. refl) id
                db.tasks t h),
          find-update_ended (asks_for id) withdrawn (λ c. ground arith) db.confirmations,
        )

  -- From then on every write of the worker that runs it, whoever that is, is refused and changes
  -- nothing.
  pub cancel_task-stops_worker :
      (op : Write) (owner : String) (later : ℕ)
      → IsWf db.tasks
      → Has id t db.tasks
      → owned_by tenant user t ≡ true
      → is_terminal t.state ≡ false
      → write op id owner later (cancel_task tenant user id now db).1
        ≡ (false, (cancel_task tenant user id now db).1)
  cancel_task-stops_worker op owner later w h own live =
      let (_, row, _) = cancel_task-cancels w h own live in
      let w' : IsWf (cancel_task tenant user id now db).1.tasks =
        unfold step in step-IsWf (cancel tenant user id now) db tt w in
      write_refused op id owner later (cancelled_by_user now t) _ w' row (ground arith)
