-- ===== src/Voice/Jarvis/Tests.antt =====
-- A session in which a question is asked, spoken and answered.
use cratos_ai.Prelude.{
  ◌≡◌, refl, sym, ap, true, none, some, List, [], ◌∷◌, ◌++◌, map, All, arith, err, not_found,
}
use cratos_ai.Orchestrator.Model.{Confirmation, ConfirmationState, Db}
use cratos_ai.Orchestrator.Confirmations.{settle}
use cratos_ai.Voice.Jarvis.Model.{FunctionCall, Notice, Jarvis, open_jarvis}
use cratos_ai.Voice.Jarvis.Steps.{
  Event, replied, step, run, starts_speaking, stops_speaking, creates_response, ends_response,
  calls_function, finishes_call,
}
use cratos_ai.Voice.Jarvis.Turns.{Stamped, user_turns-Stamped}
use cratos_ai.Voice.Jarvis.Consent.{no_consent_without_turn}
use cratos_ai.Voice.Jarvis.Questions.{Accounted, questions}
use cratos_ai.Voice.Jarvis.Reporting.{run-Reported}
use cratos_ai.Voice.Jarvis.Calls.{Counted}
use cratos_ai.Voice.Jarvis.Capacity.{run-Counted}
use cratos_ai.Voice.Jarvis.Watching.{Upward, watch_all, watch_all-Upward}

abbrev fresh : Jarvis
fresh = open_jarvis [] []

abbrev send_mail : FunctionCall
send_mail = record { call_id = 5; response_id = 1; name = "mail_send"; arguments = "{}" }

abbrev confirm : FunctionCall
confirm = record { call_id = 6; response_id = 2; name = "confirm_action"; arguments = "{}" }

-- The user asks for a mail; the call's output asks for a confirmation, and a response speaks it.
abbrev asked : List Event
asked =
    starts_speaking
    ∷ stops_speaking 10
    ∷ creates_response 1
    ∷ calls_function send_mail
    ∷ ends_response 1 []
    ∷ finishes_call 5 (replied "{}" true)
    ∷ creates_response 2
    ∷ []

abbrev events : List Notice
events =
    record { event_id = 1; message = "done" }
    ∷ record { event_id = 2; message = "" }
    ∷ record { event_id = 3; message = "failed" }
    ∷ []

-- The response confirms by itself.
abbrev alone : List Event
alone = calls_function confirm ∷ ends_response 2 [] ∷ []

abbrev pending_question : Confirmation
pending_question = record {
  id = 7;
  conversation_id = 3;
  task_id = none;
  call_id = "5";
  action = "{}";
  summary = "";
  asked_turn = some 1;
  state = ConfirmationState.pending;
  expires_at = 100;
}

abbrev store : Db
store = record {
  conversations = [];
  tasks = [];
  confirmations = pending_question ∷ [];
  events = [];
  next_event = 1;
  notifications = [];
  next_notification = 1;
  turns = [];
  tool_calls = [];
  devices = [];
  approvals = [];
  memory_jobs = [];
}

fresh-Stamped : Stamped fresh
unfolding open_jarvis
fresh-Stamped = (refl, tt, tt)

asked_Stamped : ((run asked fresh).turns.user_turn ≡ 1) × Stamped (run asked fresh)
unfolding open_jarvis
asked_Stamped = user_turns-Stamped asked fresh fresh-Stamped

no_consent_without_turn_example :
    All
      (λ w. (settle 3 7 w.turn true 50 store).0 ≡ err not_found)
      (run alone (run asked fresh)).workers.started
no_consent_without_turn_example =
    no_consent_without_turn alone (run asked fresh) 3 7 50 pending_question store asked_Stamped.1
      refl (refl, tt) refl (ap some (sym asked_Stamped.0))

fresh-Accounted : Accounted fresh
unfolding open_jarvis
fresh-Accounted = (refl, refl)

run-Reported_example :
    let before = run asked fresh in
    let after = step (creates_response 3) before in
    Accounted before
    × (after.speech.reports
        ≡ before.speech.reports
          ++ map
              (λ q. record { question = q; turn = before.turns.user_turn })
              before.speech.unspoken.acks)
    × (questions after.connection.sent
        ≡ map (λ r. r.question) after.speech.reports ++ before.speech.after_request.acks)
run-Reported_example = run-Reported asked 3 fresh fresh-Accounted

fresh-Counted : Counted fresh
unfolding open_jarvis
fresh-Counted = (refl, omega arith, tt, tt)

run-Counted_example : Counted (run alone (run asked fresh))
run-Counted_example = run-Counted alone (run asked fresh) (run-Counted asked fresh fresh-Counted)

watch_all-Upward_example :
    Upward 0 (watch_all 0 (events ∷ events ∷ [])).1 (watch_all 0 (events ∷ events ∷ [])).0
watch_all-Upward_example = watch_all-Upward (events ∷ events ∷ []) 0
