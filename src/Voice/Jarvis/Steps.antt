-- ===== src/Voice/Jarvis/Steps.antt =====
-- What the goroutines of services/voice-gateway/internal/session/jarvis.go do, and a session as the
-- sequence of the events that the provider loop takes.
use cratos_ai.Prelude.{
  ℕ, ◌+◌, ◌==◌, ltb, leb, Bool, true, false, Option, none, some, List, [], ◌∷◌, String, length,
  count_where, if◌then◌else◌, find_where, ◌||◌, str_eq, zero, suc,
}
use cratos_ai.Voice.Jarvis.Model.{Role, ToolResult, FunctionCall, Notice, Running, Jarvis}
use cratos_ai.Voice.Jarvis.Handlers.{
  speech_started, speech_stopped, transcript_delta, response_created, response_done, provider_error,
  function_call, call_result, notice,
}

-- The answer to CallTool.
pub data CallReply : Type 0 where
  replied : String → Bool → CallReply
  timed_out unavailable : CallReply

abbrev pub timeout_output : String
timeout_output =
    "{\"error\":\"The tool took too long and did not report back; tell the user it may not have finished.\"}"

abbrev pub failure_output : String
failure_output =
    "{\"error\":\"Jarvis could not run this tool right now; tell the user and try again later.\"}"

-- runCall after its barrier, while the session lasts
unfoldable pub run_call : Running → CallReply → ToolResult
run_call w (replied output ack) = record {
  response_id = w.response_id;
  call_id = w.call.call_id;
  output = output;
  ack_required = ack;
}
run_call w timed_out = record {
  response_id = w.response_id;
  call_id = w.call.call_id;
  output = timeout_output;
  ack_required = false;
}
run_call w unavailable = record {
  response_id = w.response_id;
  call_id = w.call.call_id;
  output = failure_output;
  ack_required = false;
}

abbrev pub is_run_of : ℕ → Running → Bool
is_run_of call_id w = w.call.call_id == call_id

-- The goroutines without the first one of the call.
abbrev pub without_run : ℕ → List Running → List Running
without_run call_id [] = []
without_run call_id (w ∷ ws) =
    let rest = without_run call_id ws in if is_run_of call_id w then ws else w ∷ rest

abbrev pub take_result : Option Running → CallReply → Jarvis → Jarvis
take_result none reply j = j
take_result (some w) reply j =
    if leb w.waits j.stored
    then call_result (run_call w reply) (record j {
      workers = record j.workers { running = without_run w.call.call_id j.workers.running };
    })
    else j

-- A goroutine of runCall that is past its barrier gets an answer, and its result is taken.
unfoldable pub finish_call : ℕ → CallReply → Jarvis → Jarvis
finish_call call_id reply j = take_result (find_where (is_run_of call_id) j.workers.running) reply j

-- The answer to an ack: stored, refused for good (InvalidArgument or NotFound), or neither.
pub data AckReply : Type 0 where
  acknowledged refused unreachable : AckReply

-- sendAck with so many attempts left, on the answers that they get: whether the report was stored,
-- and how many attempts were made.
unfoldable pub send_ack : ℕ → List AckReply → Bool × ℕ
send_ack zero replies = (false, 0)
send_ack (suc n) [] = (false, 0)
send_ack (suc n) (acknowledged ∷ replies) = (true, 1)
send_ack (suc n) (refused ∷ replies) = (false, 1)
send_ack (suc n) (unreachable ∷ replies) =
    let (stored, attempts) = send_ack n replies in (stored, suc attempts)

-- The goroutine of startAcks is done with one more report, stored or given up.
unfoldable pub report_handled : Jarvis → Jarvis
report_handled j =
    if ltb j.stored (length j.speech.reports) then record j { stored = j.stored + 1 } else j

-- The loop of watchOnce over the events of its stream: the cursor afterwards, and the notices.
unfoldable pub watch_once : ℕ → List Notice → ℕ × List Notice
watch_once after [] = (after, [])
watch_once after (e ∷ events) =
    let skipped = watch_once after events in
    let taken = watch_once e.event_id events in
    if leb e.event_id after || str_eq e.message "" then skipped else (taken.0, e ∷ taken.1)

pub data Event : Type 0 where
  starts_speaking : Event
  stops_speaking : ℕ → Event
  transcribed : Bool → Role → ℕ → String → Event
  creates_response : ℕ → Event
  ends_response : ℕ → List FunctionCall → Event
  fails : Event
  calls_function : FunctionCall → Event
  finishes_call : ℕ → CallReply → Event
  notices : Notice → Event
  handles_report : Event

unfoldable pub step : Event → Jarvis → Jarvis
step starts_speaking j = speech_started j
step (stops_speaking item_id) j = speech_stopped item_id j
step (transcribed final role item_id text) j = transcript_delta final role item_id text j
step (creates_response id) j = response_created id j
step (ends_response id calls) j = response_done id calls j
step fails j = provider_error j
step (calls_function call) j = function_call call j
step (finishes_call call_id reply) j = finish_call call_id reply j
step (notices e) j = notice e j
step handles_report j = report_handled j

unfoldable pub run : List Event → Jarvis → Jarvis
run [] j = j
run (e ∷ es) j = run es (step e j)

abbrev pub is_stop : Event → Bool
is_stop (stops_speaking item_id) = true
is_stop _ = false

-- How many times the user stopped speaking.
abbrev pub user_turns : List Event → ℕ
user_turns es = count_where is_stop es
