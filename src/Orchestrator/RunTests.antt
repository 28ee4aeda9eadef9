-- ===== src/Orchestrator/RunTests.antt =====
-- The theorems about the worker's loop, the voice calls and the approvals at concrete ones.
use cratos_ai.Prelude.{
  ℕ, ◌≡◌, ◌⊎◌, refl, true, false, none, some, [], ◌∷◌, arith, map, ok, length, zero, suc, ◌≤◌,
}
use cratos_ai.Orchestrator.Model.{
  Task, TaskState, TaskKind, Conversation, Device, DeviceApproval, Confirmation, Db,
}
use cratos_ai.Orchestrator.Devices.{approval, device_by_id}
use cratos_ai.Orchestrator.Engine.{ToolCall}
use cratos_ai.Orchestrator.EngineTests.{services, tables, reading}
use cratos_ai.Orchestrator.Engine.Running.{
  World, Progress, Decision, model_step, transient_error, finished_as, run_loop, run_task,
}
use cratos_ai.Orchestrator.Engine.Running.Fuel.{calls_of, is_exhausted, run_task-ends}
use cratos_ai.Orchestrator.Engine.Running.Held.{InHand, Stands}
use cratos_ai.Orchestrator.Engine.Running.Release.{Left, run_task-Left}
use cratos_ai.Orchestrator.Engine.Running.Failing.{provider_down}
use cratos_ai.Orchestrator.Engine.Voice.{VoiceWorld, voice_call}
use cratos_ai.Orchestrator.Engine.Voice.Permitted.{ReadOnly, Confirmed, voice_call-calls}
use cratos_ai.Orchestrator.Engine.Approvals.{ApprovalWorld, refused, submit_approval}
use cratos_ai.Orchestrator.Engine.Approvals.Spending.{SpentBy, submit_approval-SpentBy}

abbrev looking : Task
looking = record {
  id = 4;
  tenant_id = 1;
  user_id = "ada";
  conversation_id = none;
  kind = TaskKind.agent;
  provider = 1;
  goal = "look";
  state = TaskState.running;
  result = "";
  steps = 0;
  tools = ("mail__list", reading) ∷ [];
  history = "[]";
  pending = "[]";
  deadline = 900;
  created_at = 1;
  updated_at = 1;
  lease_owner = some "w";
  lease_until = some 100;
}

abbrev held : Db
held = record tables { tasks = looking ∷ [] }

abbrev list_mail : ToolCall
list_mail = record { call_id = "c9"; name = "mail__list"; arguments = "{}" }

-- The model lists the mail and then answers.
abbrev deciding : ℕ → Decision
deciding zero = model_step "step" (list_mail ∷ []) ""
deciding (suc k) = model_step "step" [] "done"

abbrev world : (ℕ → Decision) → World
world decision = record {
  services = services;
  answers = λ k. services;
  decide = λ k t items. decision k;
  ended = λ k. false;
  writes = λ k. true;
  now = λ k. 10;
  meddle = λ k db. db;
  new_id = λ k. 70;
  owner = "w";
  max_steps = 5;
  confirmation_ttl = 100;
  unknown_tool = λ s. s;
  clip_result = λ s. s;
  finished_event = λ t. "finished";
  question_event = λ t c. "question";
  approval_event = λ t p. "approval";
}

few_calls : (k : ℕ) → length (calls_of (deciding k)) ≤ 1
few_calls zero = omega arith
few_calls (suc k) = omega arith

run_task-ends_example : is_exhausted (run_task (world deciding) 40 looking held).0 ≡ false
run_task-ends_example =
    run_task-ends (world deciding) 1 (λ k t items. few_calls k) 40 looking held (omega arith)

looking_held : InHand 4 "w" held
looking_held = (looking, refl, refl)

run_task-Left_example :
    (is_exhausted (run_task (world deciding) 40 looking held).0 ≡ false)
    × Left 4
        (run_task (world deciding) 40 looking held).0
        (run_task (world deciding) 40 looking held).1
run_task-Left_example =
    run_task-Left (world deciding) 1 40 looking held looking_held (λ k d h. h) (λ k. refl)
      (λ k t items. few_calls k) (omega arith)

abbrev no_answer : ℕ → Decision
no_answer k = transient_error false

abbrev starting : Progress
starting = record { task = looking; items = []; calls = []; transient = 0 }

provider_down_example :
    let ended = run_loop (world no_answer) 7 0 starting held in
    (ended.0 ≡ finished_as TaskState.failed)
    × Stands 4 TaskState.failed "The AI provider is unavailable right now; try again later." ended.1
provider_down_example =
    provider_down (world no_answer) starting refl (omega arith) (λ k. refl) (λ k. omega arith)
      (λ k t items. refl) 4 0 held refl looking_held

abbrev talking : Conversation
talking = record {
  id = 5;
  tenant_id = 1;
  user_id = "ada";
  session_id = "s";
  provider = 1;
  locale = "";
  tools = ("mail__list", reading) ∷ [];
  user_turn = 2;
  closed_at = none;
  created_at = 0;
}

abbrev voice_world : VoiceWorld
voice_world = record {
  services = services;
  is_json = λ s. true;
  read_goal = λ s. some s;
  read_confirmation_id = λ s. some 3;
  unknown_tool = λ s. s;
  build_catalog = some [];
  first_history = λ s. s;
  needs_confirmation = λ c. c.summary;
  task_started = λ n. "started";
  waiting_for_approval = λ n. "waiting";
  run_goal = λ p. p.summary;
  new_id = 71;
  confirmation_ttl = 100;
  task_timeout = 100;
}

voice_call-calls_example :
    let calls = (voice_call voice_world talking "c1" "mail__list" "{}" 2 10 tables).1 in
    (calls ≡ [])
    ⊎ (ReadOnly voice_world talking "mail__list" "{}" calls
        ⊎ Confirmed voice_world talking 2 10 tables calls)
voice_call-calls_example =
    voice_call-calls voice_world talking "c1" "mail__list" "{}" 2 10 tables (refl, tt)

abbrev laptop : Device
laptop = record {
  id = 8;
  tenant_id = 1;
  user_id = "ada";
  name = "laptop";
  address = "";
  server_name = "";
  ca_pem = "";
  client_cert_pem = "";
  client_key_sealed = "";
  created_at = 0;
}

abbrev waiting_command : DeviceApproval
waiting_command = record {
  approval_id = "a1";
  device_id = 8;
  task_id = 4;
  call_id = "";
  command = "{}";
  payload = "";
  expires_at = 500;
}

abbrev approving : Db
approving = record held { devices = laptop ∷ []; approvals = waiting_command ∷ [] }

abbrev approval_world : ApprovalWorld
approval_world = record {
  services = services;
  is_command = λ s. true;
  why_refused = λ s. s;
  finished_event = λ t. "finished";
  deletes = true;
}

waiting_found : approval 1 "ada" "a1" 10 approving ≡ ok waiting_command
unfolding approval
waiting_found = refl

laptop_found : device_by_id 8 approving ≡ ok laptop
unfolding device_by_id
laptop_found = refl

submit_approval-SpentBy_example :
    SpentBy approval_world "a1" approving
      (refused "no")
      (submit_approval approval_world 1 "ada" "a1" 10 (λ d. refused "no") approving).1
submit_approval-SpentBy_example =
    submit_approval-SpentBy approval_world 1 "ada" "a1" 10 (λ d. refused "no") approving
      waiting_command laptop waiting_found laptop_found refl refl

abbrev of_task : ℕ → Confirmation → Confirmation
of_task id c = record c { task_id = some id }

-- The task waits for a confirmation that has expired.
abbrev stuck : Db
stuck = record approving {
  tasks = record looking { state = TaskState.awaiting_confirmation } ∷ [];
  confirmations = map (of_task 4) tables.confirmations;
}
