-- ===== src/Orchestrator/Engine/Memory/Resuming.antt =====
-- The tasks that wait for an answer that has expired: they go on.
use cratos_ai.Prelude.{
  ℕ, ◌==◌, ◌≡◌, refl, Bool, true, false, ◌&&◌, Option, none, some, List, [], ◌∷◌, String, str_eq,
  arith, All, find_where, update_where, holds, is_ok, Bool-cases, Option-cases, Result-cases, inl,
  inr, Result, ok, ==_refl,
}
use cratos_ai.Prelude.Rows.{find-update, find-update_none}
use cratos_ai.Orchestrator.Model.{Task, Confirmation, Db, is_waiting, is_queued}
use cratos_ai.Orchestrator.Tasks.{has_id, resume_task, resumed}
use cratos_ai.Orchestrator.Tasks.Invariant.{task_id}
use cratos_ai.Orchestrator.Engine.{Services, ToolCall, complete_pending, complete_decoded}
use cratos_ai.Orchestrator.Engine.Approvals.{ApprovalWorld}
use cratos_ai.Orchestrator.Engine.Memory.{resume_expired, resume_all, not_confirmed}

-- What completePending makes of a task: the same task, queued.
abbrev Queues : Task → Task → Type 0
Queues t u = (u.id ≡ t.id) × (is_queued u.state ≡ true)

decoded-Queues :
    (sv : Services) (t u : Task) (call_id out : String) (items : Option (List String))
    (calls : Option (List ToolCall))
    → complete_decoded sv t call_id out items calls ≡ ok u
    → Queues t u
decoded-Queues sv t u call_id out none calls e = cc
decoded-Queues sv t u call_id out (some items) none e = cc
decoded-Queues sv t u call_id out (some items) (some []) e = cc
decoded-Queues sv t u call_id out (some items) (some (c ∷ cs)) e =
    elim (Bool-cases (str_eq c.call_id call_id)) [
      | inr other ↦ absurd (cc (rw other at e))
      | inl same ↦ (ground (arith, rw same at e), ground (arith, rw same at e))
    ]

pending-Queues :
    (sv : Services) (t u : Task) (call_id out : String)
    → complete_pending sv t call_id out ≡ ok u
    → Queues t u
unfolding complete_pending
pending-Queues sv t u call_id out e =
    decoded-Queues sv t u call_id out (sv.read_items t.history) (sv.read_calls t.pending) e

module _ (w : ApprovalWorld) where
  -- The task still waits, though it could go on without an answer to the call.
  abbrev pub could_go_on : String → Task → Bool
  could_go_on call_id t =
      is_waiting t.state && is_ok (complete_pending w.services t call_id (not_confirmed w))

  -- The confirmation holds up its task.
  abbrev pub holds_up : Db → Confirmation → Bool
  holds_up db c =
      holds c.task_id (λ id. holds (find_where (has_id id) db.tasks) (could_go_on c.call_id))

  abbrev goes_on : String → Task → Result Task
  goes_on call_id t = complete_pending w.services t call_id (not_confirmed w)

  -- The row that a confirmation's expiry resumes can wait no more.
  own-resumed :
      (id now : ℕ) (call_id : String) (db : Db)
      → holds
          (find_where (has_id id) (resume_task id (goes_on call_id) now db).1.tasks)
          (could_go_on call_id)
        ≡ false
  unfolding resume_task
  own-resumed id now call_id db = elim (Option-cases (find_where (has_id id) db.tasks)) [
    | inl e ↦ rw e (rw e refl)
    | inr (t, e) ↦ elim (Bool-cases (is_waiting t.state)) [
      | inr skip ↦ rw (e, skip) (rw (e, skip) refl)
      | inl waits ↦ elim (Result-cases (goes_on call_id t)) [
        | inr (x, er) ↦ rw (e, waits, er) (rw (e, waits, er) refl)
        | inl (u, er) ↦
            let (same, queued) = pending-Queues w.services t u call_id (not_confirmed w) er in
            let row =
              find-update task_id (has_id u.id) (resumed u now) (λ r. refl) id db.tasks t e in
            let one : (t.id == u.id) ≡ true = rw same (==_refl t.id) in
            rw (e, waits, er) (rw (row, one) (ground (arith, queued)))
      ]
    ]
  ]

  resumed-others :
      (u : Task) (other now : ℕ) (call_id : String) (ts : List Task)
      → is_queued u.state ≡ true
      → holds (find_where (has_id other) ts) (could_go_on call_id) ≡ false
      → holds
          (find_where (has_id other) (update_where (has_id u.id) (resumed u now) ts))
          (could_go_on call_id)
        ≡ false
  resumed-others u other now call_id ts queued h =
      elim (Option-cases (find_where (has_id other) ts)) [
        | inl e ↦
            rw (find-update_none task_id (has_id u.id) (resumed u now) (λ r. refl) other ts e) refl
        | inr (t, e) ↦
            let row = find-update task_id (has_id u.id) (resumed u now) (λ r. refl) other ts t e in
            elim (Bool-cases (t.id == u.id)) [
              | inl one ↦ rw (row, one) (ground (arith, queued))
              | inr apart ↦ rw (row, apart) (rw e at h)
            ]
      ]

  -- And no other row begins to wait.
  others-resumed :
      (id other now : ℕ) (call_id call_id' : String) (db : Db)
      → holds (find_where (has_id other) db.tasks) (could_go_on call_id') ≡ false
      → holds
          (find_where (has_id other) (resume_task id (goes_on call_id) now db).1.tasks)
          (could_go_on call_id')
        ≡ false
  unfolding resume_task
  others-resumed id other now call_id call_id' db h =
      elim (Option-cases (find_where (has_id id) db.tasks)) [
        | inl e ↦ rw e h
        | inr (t, e) ↦ elim (Bool-cases (is_waiting t.state)) [
          | inr skip ↦ rw (e, skip) h
          | inl waits ↦ elim (Result-cases (goes_on call_id t)) [
            | inr (x, er) ↦ rw (e, waits, er) h
            | inl (u, er) ↦
                let (same, queued) = pending-Queues w.services t u call_id (not_confirmed w) er in
                rw (e, waits, er) (resumed-others u other now call_id' db.tasks queued h)
          ]
        ]
      ]

  resume_expired-others :
      (now : ℕ) (c c' : Confirmation) (o : Option ℕ) (db : Db)
      → holds_up db c' ≡ false
      → holds_up (resume_expired w now db c o) c' ≡ false
  resume_expired-others now c c' none db h = h
  resume_expired-others now c c' (some id) db h = elim (Option-cases c'.task_id) [
    | inl e ↦ rw e refl
    | inr (other, e) ↦ rw e (others-resumed id other now c.call_id c'.call_id db (rw e at h))
  ]

  resume_all-others :
      (now : ℕ) (cs : List Confirmation) (c' : Confirmation) (db : Db)
      → holds_up db c' ≡ false
      → holds_up (resume_all w now cs db) c' ≡ false
  unfolding resume_all
  resume_all-others now [] c' db h = h
  resume_all-others now (c ∷ cs) c' db h =
      resume_all-others now cs c' (resume_expired w now db c c.task_id)
        (resume_expired-others now c c' c.task_id db h)

  resume_expired-own :
      (now : ℕ) (c : Confirmation) (db : Db)
      → holds_up (resume_expired w now db c c.task_id) c ≡ false
  resume_expired-own now c db = elim (Option-cases c.task_id) [
    | inl e ↦ rw e refl
    | inr (id, e) ↦ rw e (own-resumed id now c.call_id db)
  ]

  -- None of the confirmations holds up its task.
  pub resume_all-Resumed :
      (now : ℕ) (cs : List Confirmation) (db : Db)
      → All (λ c. holds_up (resume_all w now cs db) c ≡ false) cs
  unfolding resume_all
  resume_all-Resumed now [] db = tt
  resume_all-Resumed now (c ∷ cs) db =
      let db' = resume_expired w now db c c.task_id in
      (resume_all-others now cs c db' (resume_expired-own now c db), resume_all-Resumed now cs db')
