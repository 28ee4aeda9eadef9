-- ===== src/Orchestrator/Tests.antt =====
-- The theorems about tasks and confirmations at concrete tables.
use cratos_ai.Prelude.{
  ℕ, ◌≡◌, refl, Bool, true, false, none, some, List, [], ◌∷◌, ok, err, not_found,
}
use cratos_ai.Orchestrator.Model.{Task, TaskState, TaskKind, Confirmation, ConfirmationState, Db}
use cratos_ai.Orchestrator.Tasks.{lease_task, leased, cancel_task}
use cratos_ai.Orchestrator.Tasks.Ops.{Op, create, lease, set_state, cancel, run}
use cratos_ai.Orchestrator.Tasks.Invariant.{IsWf, run-IsWf}
use cratos_ai.Orchestrator.Tasks.Terminal.{Has, terminal_absorbs}
use cratos_ai.Orchestrator.Tasks.Lease.{Granted, lease_task-Granted, write, progress}
use cratos_ai.Orchestrator.Tasks.Cancel.{cancel_task-stops_worker}
use cratos_ai.Orchestrator.Confirmations.{settle}
use cratos_ai.Orchestrator.Confirmations.Settling.{Consent, settle_confirm-Consent}
use cratos_ai.Orchestrator.Confirmations.Once
use cratos_ai.Orchestrator.Confirmations.Once.{Answered, settle_once}

abbrev queued_task : ℕ → ℕ → Task
queued_task id updated = record {
  id = id;
  tenant_id = 1;
  user_id = "ann";
  conversation_id = none;
  kind = TaskKind.agent;
  provider = 1;
  goal = "tidy up";
  state = TaskState.queued;
  result = "";
  steps = 0;
  tools = [];
  history = "[]";
  pending = "[]";
  deadline = 900;
  created_at = 0;
  updated_at = updated;
  lease_owner = none;
  lease_until = none;
}

abbrev running_task : Task
running_task = leased "w1" 60 0 (queued_task 7 5)

abbrev done_task : Task
done_task = record (queued_task 9 1) { state = TaskState.succeeded }

abbrev question : Confirmation
question = record {
  id = 3;
  conversation_id = 5;
  task_id = some 7;
  call_id = "c1";
  action = "{}";
  summary = "send";
  asked_turn = some 1;
  state = ConfirmationState.pending;
  expires_at = 500;
}

abbrev tables : Db
tables = record {
  conversations = [];
  tasks = queued_task 8 20 ∷ running_task ∷ done_task ∷ [];
  confirmations = question ∷ [];
  events = [];
  next_event = 1;
  notifications = [];
  next_notification = 1;
  turns = [];
  tool_calls = [];
  devices = [];
  approvals = [];
  memory_jobs = [];
}

tables-IsWf : IsWf tables.tasks
tables-IsWf = record {
  unique = (refl, (refl, (refl, tt)));
  leases = (
    record { holder = refl; until = refl },
    (record { holder = refl; until = refl }, (record { holder = refl; until = refl }, tt)),
  );
}

abbrev unlocked : ℕ → Bool
unlocked id = false

abbrev script : List Op
script =
    lease unlocked "w2" 60 10
    ∷ create (queued_task 9 1) 20
    ∷ set_state done_task "w1" TaskState.failed "late" 30
    ∷ cancel 1 "ann" 9 40
    ∷ []

run-IsWf_example : IsWf (run script tables).tasks
run-IsWf_example = run-IsWf script tables (tt, (refl, (refl, (tt, tt)))) tables-IsWf

terminal_absorbs_example : Has 9 done_task (run script tables).tasks
terminal_absorbs_example =
    terminal_absorbs script tables 9 done_task (tt, (refl, (refl, (tt, tt)))) tables-IsWf refl refl

-- At time 100 the lease of the running task has expired, and it has waited longest.
abbrev got : Task
got = leased "w2" 60 100 running_task

given : (lease_task unlocked "w2" 60 100 tables).0 ≡ ok got
unfolding lease_task
given = refl

lease_task-Granted_example :
    Granted unlocked "w2" 60 100 tables (lease_task unlocked "w2" 60 100 tables).1 got
lease_task-Granted_example = lease_task-Granted unlocked "w2" 60 100 tables got tables-IsWf given

cancel_task-stops_worker_example :
    write (progress running_task) 7 "w1" 60 (cancel_task 1 "ann" 7 50 tables).1
    ≡ (false, (cancel_task 1 "ann" 7 50 tables).1)
cancel_task-stops_worker_example =
    cancel_task-stops_worker 1 "ann" 7 50 running_task tables (progress running_task) "w1" 60
      tables-IsWf refl refl refl

abbrev consented : Confirmation
consented = record question { state = ConfirmationState.confirmed }

confirmed_now : (settle 5 3 2 true 100 tables).0 ≡ ok consented
unfolding settle
confirmed_now = refl

settle_confirm-Consent_example : Consent 5 2 100 question consented
settle_confirm-Consent_example =
    settle_confirm-Consent 5 3 2 100 question consented tables (refl, tt) refl confirmed_now

abbrev afterwards : List Once.Op
afterwards = Once.mark 3 4 ∷ Once.expire 900 ∷ Once.move (λ id. true) 6 ∷ []

settle_once_example :
    let later = Once.run afterwards (settle 5 3 2 true 100 tables).1 in
    Answered 3 ConfirmationState.confirmed later
    × ((settle 5 3 9 false 101 later).0 ≡ err not_found)
settle_once_example =
    settle_once 5 3 2 100 true question consented tables afterwards 5 9 101 false (refl, tt) refl
      confirmed_now
