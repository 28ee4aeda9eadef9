-- ===== src/Orchestrator/Tasks/Ops.antt =====
-- The task statements as steps, so that runs of the engine's workers and of the users' calls are
-- lists of them, in any order.
use cratos_ai.Prelude.{ℕ, ◌≡◌, Bool, false, List, [], ◌∷◌, String, Result, ok}
use cratos_ai.Orchestrator.Model.{TaskState, Task, Db, is_running}
use cratos_ai.Orchestrator.Tasks.{
  create_task, lease_task, renew_lease, save_progress, set_task_state, resume_task, cancel_task,
}

-- Each step names the time at which it runs, its last number.
pub data Op : Type 0 where
  create : Task → ℕ → Op
  lease : (ℕ → Bool) → String → ℕ → ℕ → Op
  renew : ℕ → String → ℕ → ℕ → Op
  save : Task → String → ℕ → Op
  set_state : Task → String → TaskState → String → ℕ → Op
  resume : ℕ → (Task → Result Task) → ℕ → Op
  cancel : ℕ → String → ℕ → ℕ → Op

unfoldable pub step : Op → Db → Db
step (create t now) db = (create_task now t db).1
step (lease locked owner d now) db = (lease_task locked owner d now db).1
step (renew id owner d now) db = (renew_lease id owner d now db).1
step (save t owner now) db = (save_progress t owner now db).1
step (set_state t owner state result now) db = (set_task_state t owner state result now db).1
step (resume id update now) db = (resume_task id update now db).1
step (cancel tenant user id now) db = (cancel_task tenant user id now db).1

unfoldable pub run : List Op → Db → Db
run [] db = db
run (op ∷ ops) db = run ops (step op db)

-- What the engine keeps to: it moves a task to `running` by a lease only, and what it hands to
-- ResumeTask works on the task that it is given.
abbrev pub Allowed : Op → Type 0
Allowed (create t now) = is_running t.state ≡ false
Allowed (set_state t owner state result now) = is_running state ≡ false
Allowed (resume id update now) =
    (t u : Task) → update t ≡ ok u → (u.id ≡ t.id) × (is_running u.state ≡ false)
Allowed _ = Unit {0}

abbrev pub AllAllowed : List Op → Type 0
AllAllowed [] = Unit {0}
AllAllowed (op ∷ ops) = Allowed op × AllAllowed ops
