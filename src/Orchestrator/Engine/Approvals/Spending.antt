-- ===== src/Orchestrator/Engine/Approvals/Spending.antt =====
-- An approval is good for one attempt.
use cratos_ai.Prelude.{
  ℕ, ◌≡◌, refl, ◌∙◌, eq_iff, ap, sym, Bool, true, not, ◌&&◌, Option, none, some, List, [], ◌∷◌,
  String, str_eq, arith, find_where, select_where, Bool-cases, Option-cases, Result-cases, inl, inr,
  Result, ok, err, not_found,
}
use cratos_ai.Prelude.Rows.{find-met}
use mathlib.Core.Path.{subst}
use cratos_ai.Orchestrator.Model.{Task, DeviceApproval, Device, Db, is_waiting}
use cratos_ai.Orchestrator.Tasks.{resume_task, has_id}
use cratos_ai.Orchestrator.Events.{add_event}
use cratos_ai.Orchestrator.Notifications.{add_notification}
use cratos_ai.Orchestrator.Confirmations.{move_confirmations}
use cratos_ai.Orchestrator.Devices.{is_approval, is_theirs, approval, device_by_id, delete_approval}
use cratos_ai.Orchestrator.Engine.Telling.{emit, notify, tell_finished}
use cratos_ai.Orchestrator.Engine.Approvals.{
  ApprovalWorld, DeviceAnswer, ran, refused, asked_again, unreachable, told, drop_approval,
  delete_if_up, answered, submit_approval,
}

pub emit-approvals :
    (c : Option ℕ) (payload : String) (q : Option ℕ) (now : ℕ) (db : Db)
    → (emit c payload q now db).1.approvals ≡ db.approvals
unfolding emit add_event move_confirmations
emit-approvals none payload q now db = refl
emit-approvals (some c) payload q now db = ground arith

pub tell_finished-approvals :
    (payload : Task → String) (t : Task) (now : ℕ) (db : Db)
    → (tell_finished payload t now db).approvals ≡ db.approvals
unfolding tell_finished notify add_notification
tell_finished-approvals payload t now db =
    let e = emit-approvals t.conversation_id (payload t) none now db in ground (arith, e)

pub resume_task-approvals :
    (id : ℕ) (f : Task → Result Task) (now : ℕ) (db : Db)
    → (resume_task id f now db).1.approvals ≡ db.approvals
unfolding resume_task
resume_task-approvals id f now db = elim (Option-cases (find_where (has_id id) db.tasks)) [
  | inl e ↦ rw e refl
  | inr (t, e) ↦ elim (Bool-cases (is_waiting t.state)) [
    | inr skip ↦ rw (e, skip) refl
    | inl waits ↦ elim (Result-cases (f t)) [
      | inr (x, er) ↦ rw (e, waits, er) refl
      | inl (u, er) ↦ rw (e, waits, er) refl
    ]
  ]
]

deleted_gone :
    (id : String) (q : DeviceApproval → Bool) (rows : List DeviceApproval)
    → find_where (λ a. is_approval id a && q a) (select_where (λ a. not (is_approval id a)) rows)
      ≡ none
deleted_gone id q [] = refl
deleted_gone id q (a ∷ rows) = ground (arith, deleted_gone id q rows)

-- The approval of the id is not to be found, by anyone at any time.
abbrev pub Spent : String → Db → Type 0
Spent id db =
    (tenant : ℕ) (user : String) (now : ℕ) → approval tenant user id now db ≡ err not_found

deleted-Spent :
    (id : String) (before after : Db)
    → after.approvals ≡ (delete_approval id before).approvals
    → Spent id after
unfolding approval delete_approval
deleted-Spent id before after e tenant user now =
    let gone = deleted_gone id (is_theirs tenant user now after) before.approvals in
    rw (e, gone) refl

module _ (w : ApprovalWorld) where
  pub told-approvals : (now : ℕ) (r : Result Task × Db) → (told w now r).approvals ≡ r.1.approvals
  told-approvals now (err e, db) = refl
  told-approvals now (ok t, db) =
      let e = tell_finished-approvals w.finished_event t now db in ground (arith, e)

  -- Handing over to the task after the approval is deleted leaves it deleted.
  handed-Spent :
      (id : String) (task now : ℕ) (f : Task → Result Task) (db : Db)
      → w.deletes ≡ true
      → Spent id (told w now (resume_task task f now (delete_if_up w id db)))
  handed-Spent id task now f db up =
      let deleted = delete_if_up w id db in
      let r = resume_task task f now deleted in
      let gone : deleted.approvals ≡ (delete_approval id db).approvals = rw up refl in
      deleted-Spent id db (told w now r)
        (told-approvals now r ∙ resume_task-approvals task f now deleted ∙ gone)

  -- What the answer of the device leaves: nothing of the approval, or, where the device could not be
  -- reached or failed otherwise, everything as it was.
  abbrev pub SpentBy : String → Db → DeviceAnswer → Db → Type 0
  SpentBy id db (ran out) after = Spent id after
  SpentBy id db (refused message) after = Spent id after
  SpentBy id db asked_again after = Spent id after
  SpentBy id db unreachable after = after ≡ db

  answered-SpentBy :
      (a : DeviceApproval) (now : ℕ) (db : Db) (x : DeviceAnswer)
      → w.deletes ≡ true
      → SpentBy a.approval_id db x (answered w a now db x).1
  unfolding drop_approval
  answered-SpentBy a now db (ran out) up = handed-Spent a.approval_id a.task_id now _ db up
  answered-SpentBy a now db (refused message) up = handed-Spent a.approval_id a.task_id now _ db up
  answered-SpentBy a now db asked_again up = handed-Spent a.approval_id a.task_id now _ db up
  answered-SpentBy a now db unreachable up = refl

  same_id :
      (tenant : ℕ) (user id : String) (now : ℕ) (a : DeviceApproval) (db : Db)
      → find_where (λ x. is_approval id x && is_theirs tenant user now db x) db.approvals ≡ some a
      → a.approval_id ≡ id
  same_id tenant user id now a db e =
      let met =
        find-met (λ x. is_approval id x && is_theirs tenant user now db x) db.approvals a e in
      let same : str_eq a.approval_id id ≡ true = ground arith in (eq_iff a.approval_id id).0 same

  found_id :
      (tenant : ℕ) (user id : String) (now : ℕ) (a : DeviceApproval) (db : Db)
      → approval tenant user id now db ≡ ok a
      → a.approval_id ≡ id
  unfolding approval
  found_id tenant user id now a db e =
      elim (Option-cases
        (find_where (λ x. is_approval id x && is_theirs tenant user now db x) db.approvals)) [
          | inl z ↦ absurd (cc (rw z at e))
          | inr (b, z) ↦
              let one : b ≡ a = cc (rw z at e) in
              ap (λ x. x.approval_id) (sym one) ∙ same_id tenant user id now b db z
        ]

  -- An approval is good for one attempt at its device. Let a submitted approval be found, with its
  -- device and a command that can be read, and the database answer DeleteApproval. Once the device has
  -- run the command, refused the approval (PermissionDenied or FailedPrecondition) or asked for
  -- another, the approval is found no more, by any user at any time; and if the device could not be
  -- reached or failed otherwise, the database is as it was.
  pub submit_approval-SpentBy :
      (tenant : ℕ) (user id : String) (now : ℕ) (device : Device → DeviceAnswer) (db : Db)
      (a : DeviceApproval) (d : Device)
      → approval tenant user id now db ≡ ok a
      → device_by_id a.device_id db ≡ ok d
      → w.is_command a.command ≡ true
      → w.deletes ≡ true
      → SpentBy id db (device d) (submit_approval w tenant user id now device db).1
  unfolding submit_approval
  submit_approval-SpentBy tenant user id now device db a d found reached readable up =
      rw (found, reached, readable)
        (subst (λ i. SpentBy i db (device d) (answered w a now db (device d)).1)
          (found_id tenant user id now a db found) (answered-SpentBy a now db (device d) up))
