-- ===== src/Orchestrator/Engine/Approvals.antt =====
-- Commands that wait for a signed approval: SubmitApproval and dropApproval of
-- services/orchestrator/internal/engine/voice.go. The device is reached by its own daemon, whose
-- answer is given, and whether the database answers DeleteApproval, whose error both pass over; audit
-- records, metrics and logs are left out.
pub mod Spending
use cratos_ai.Prelude.{
  ℕ, ◌+◌, Bool, true, false, not, Option, none, some, List, String, if◌then◌else◌, Result, ok, err,
  not_found, rejected,
}
use cratos_ai.Orchestrator.Model.{Task, TaskState, TaskKind, Device, DeviceApproval, Db}
use cratos_ai.Orchestrator.Tasks.{resume_task}
use cratos_ai.Orchestrator.Devices.{approval, device_by_id, delete_approval}
use cratos_ai.Orchestrator.Engine.{Services, complete_pending}
use cratos_ai.Orchestrator.Engine.Telling.{tell_finished}

-- What the device answers to a signed command: it ran, with its output; the approval was refused
-- (PermissionDenied or FailedPrecondition); another approval is asked for; or another error.
pub data DeviceAnswer : Type 0 where
  ran refused : String → DeviceAnswer
  asked_again unreachable : DeviceAnswer

-- ErrApprovalNotFound, ErrApprovalRejected and the other failures.
pub data Submitted : Type 0 where
  command_output : String → Submitted
  approval_not_found approval_rejected submit_failed : Submitted

pub record ApprovalWorld : Type 0 where
  pub services : Services
  pub is_command : String → Bool
  pub why_refused : String → String
  pub finished_event : Task → String
  pub deletes : Bool

module _ (w : ApprovalWorld) where
  abbrev pub is_command_task : TaskKind → Bool
  is_command_task TaskKind.command = true
  is_command_task TaskKind.agent = false

  -- A command task ends in the state with the result; an agent task gets `out` and goes on.
  abbrev pub hand_over : TaskState → String → String → String → Task → Result Task
  hand_over state result call_id out t =
      if is_command_task t.kind
      then ok (record t { state = state; result = result })
      else complete_pending w.services t call_id out

  abbrev pub told : ℕ → Result Task × Db → Db
  told now (err e, db) = db
  told now (ok t, db) =
      if is_command_task t.kind then tell_finished w.finished_event t now db else db

  abbrev pub why_output : String → String
  why_output why = w.services.message "error" why

  -- DeleteApproval, its error passed over
  abbrev pub delete_if_up : String → Db → Db
  delete_if_up id db = if w.deletes then delete_approval id db else db

  -- dropApproval
  unfoldable pub drop_approval : DeviceApproval → String → ℕ → Db → Db
  drop_approval a why now db =
      let db' = delete_if_up a.approval_id db in
      told now
        (resume_task a.task_id (hand_over TaskState.failed why a.call_id (why_output why)) now db')

  abbrev pub asked_again_message : String
  asked_again_message = "The computer asked for another approval; the command did not run."

  abbrev pub answered : DeviceApproval → ℕ → Db → DeviceAnswer → Submitted × Db
  answered a now db (refused message) =
      (approval_rejected, drop_approval a (w.why_refused message) now db)
  answered a now db asked_again = (approval_rejected, drop_approval a asked_again_message now db)
  answered a now db unreachable = (submit_failed, db)
  answered a now db (ran out) =
      let db' = delete_if_up a.approval_id db in
      (
        command_output out,
        told now (resume_task a.task_id (hand_over TaskState.succeeded out a.call_id out) now db'),
      )

  abbrev pub submit_to :
      DeviceApproval → ℕ → Db → (Device → DeviceAnswer) → Result Device → Submitted × Db
  submit_to a now db device (err e) = (submit_failed, db)
  submit_to a now db device (ok d) =
      if w.is_command a.command then answered a now db (device d) else (submit_failed, db)

  abbrev pub submit_found :
      ℕ → Db → (Device → DeviceAnswer) → Result DeviceApproval → Submitted × Db
  submit_found now db device (err not_found) = (approval_not_found, db)
  submit_found now db device (err rejected) = (submit_failed, db)
  submit_found now db device (ok a) = submit_to a now db device (device_by_id a.device_id db)

  -- SubmitApproval
  unfoldable pub submit_approval :
      ℕ → String → String → ℕ → (Device → DeviceAnswer) → Db → Submitted × Db
  submit_approval tenant user id now device db =
      submit_found now db device (approval tenant user id now db)
