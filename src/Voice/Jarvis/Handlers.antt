-- ===== src/Voice/Jarvis/Handlers.antt =====
-- The handlers of services/voice-gateway/internal/session/jarvis.go, which the provider loop runs
-- one at a time, and what its goroutines do to the state.
use cratos_ai.Prelude.{
  ℕ, ◌+◌, ◌-◌, ◌==◌, ltb, leb, Bool, true, false, not, some, List, [], ◌∷◌, ◌++◌, String, length,
  if◌then◌else◌, find_where, select_where, update_where, map, is_some, coalesce,
}
use cratos_ai.Voice.Counts.{put, delete}
use cratos_ai.Voice.Jarvis.Model.{
  Role, Question, add, ToolResult, CallBatch, FunctionCall, Notice, Running, Report, Sent, Turns,
  Speech, Workers, Jarvis, max_calls_in_flight, max_tracked_items, max_create_retries,
  nothing_delivered, look,
}
use cratos_ai.Voice.Jarvis.Delivery.{added, send_provider, respond, deliver, is_batch_of, is_empty}

-- record: an item without an id is not recorded. The backlog is taken to have room.
unfoldable pub record_item : Role → ℕ → ℕ → String → Jarvis → Jarvis
record_item role turn item_id text j = if item_id == 0 then j else record j {
  records =
      j.records ++ record { role = role; user_turn = turn; item_id = item_id; text = text } ∷ [];
}

-- jarvisSpeechStarted
unfoldable pub speech_started : Jarvis → Jarvis
speech_started j = record j { speech = record j.speech { speaking = true } }

-- The bookkeeping of a user turn that ended.
abbrev pub next_turn : ℕ → Turns → Turns
next_turn item_id t =
    let kept = if leb max_tracked_items (length t.item_turns) then [] else t.item_turns in
    record t { user_turn = t.user_turn + 1; item_turns = put item_id (t.user_turn + 1) kept }

-- jarvisSpeechStopped
unfoldable pub speech_stopped : ℕ → Jarvis → Jarvis
speech_stopped item_id j =
    record_item Role.user (j.turns.user_turn + 1) item_id "" (record j {
      turns = next_turn item_id j.turns;
      speech = record j.speech { speaking = false };
    })

-- jarvisTranscript
unfoldable pub transcript_delta : Bool → Role → ℕ → String → Jarvis → Jarvis
transcript_delta false role item_id text j = j
transcript_delta true Role.user item_id text j =
    record_item Role.user (coalesce (look item_id j.turns.item_turns) j.turns.user_turn) item_id
      text (record j { turns = record j.turns { item_turns = delete item_id j.turns.item_turns } })
transcript_delta true Role.assistant item_id text j =
    record_item Role.assistant j.turns.user_turn item_id text j

abbrev pub reported_at : ℕ → Question → Report
reported_at turn q = record { question = q; turn = turn }

-- startAcks: the reports are stored in the background, in order.
unfoldable pub start_acks : List Question → ℕ → Speech → Speech
start_acks acks turn s = record s { reports = s.reports ++ map (reported_at turn) acks }

abbrev pub without_id : ℕ → List ℕ → List ℕ
without_id id ids = select_where (λ x. not (x == id)) ids

-- What jarvisResponseCreated does to the speech of user turn `turn`.
unfoldable pub spoken_by : ℕ → ℕ → Speech → Speech
spoken_by response_id turn s =
    let s' : Speech = record s {
      responding = response_id ∷ without_id response_id s.responding;
      unspoken = s.after_request;
      after_request = nothing_delivered;
      requested = false;
      create_failures = 0;
    } in
    if is_empty s.unspoken.acks then s' else start_acks s.unspoken.acks turn s'

-- jarvisResponseCreated
unfoldable pub response_created : ℕ → Jarvis → Jarvis
response_created response_id j = record j {
  turns = record j.turns {
    response_turns = put response_id j.turns.user_turn j.turns.response_turns;
    last_response = response_id;
  };
  speech = spoken_by response_id j.turns.user_turn j.speech;
}

-- What jarvisProviderError does to the speech before it tries again.
unfoldable pub create_failed : Speech → Speech
create_failed s = record s {
  requested = false;
  unspoken = add s.unspoken s.after_request;
  after_request = nothing_delivered;
  create_failures = s.create_failures + 1;
}

abbrev pub given_up : Speech → Speech
given_up s = record s { unspoken = record s.unspoken { want = false } }

-- jarvisProviderError
unfoldable pub provider_error : Jarvis → Jarvis
provider_error j =
    let failed = create_failed j.speech in
    if j.speech.requested
    then (if ltb max_create_retries failed.create_failures
        then record j { speech = given_up failed }
        else respond (record j { speech = failed }))
    else j

abbrev pub returned : ToolResult → CallBatch → CallBatch
returned r b = record b { outstanding = b.outstanding - 1; results = b.results ++ r ∷ [] }

-- completeCall
unfoldable pub complete_call : ToolResult → Jarvis → Jarvis
complete_call r j =
    deliver (record j { batches = update_where (is_batch_of r.response_id) (returned r) j.batches })

abbrev pub busy_output : String
busy_output =
    "{\"error\":\"Too many tools are running at once; wait for them before calling more.\"}"

abbrev pub one_more : CallBatch → CallBatch
one_more b = record b { outstanding = b.outstanding + 1 }

abbrev pub new_batch : ℕ → CallBatch
new_batch response_id = record {
  response_id = response_id;
  outstanding = 0;
  done = false;
  results = [];
}

-- The batch of the response, made if there is none, gets one more call.
abbrev pub expect_call : ℕ → List CallBatch → List CallBatch
expect_call response_id bs =
    update_where (is_batch_of response_id) one_more
      (if is_some (find_where (is_batch_of response_id) bs) then bs else new_batch response_id ∷ bs)

abbrev pub start_worker : Running → Workers → Workers
start_worker w s = record {
  in_flight = s.in_flight + 1;
  running = s.running ++ w ∷ [];
  started = s.started ++ w ∷ [];
}

abbrev pub response_of : FunctionCall → Turns → ℕ
response_of call t = if call.response_id == 0 then t.last_response else call.response_id

-- The user turn that a call is stamped with.
abbrev pub stamp : FunctionCall → Turns → ℕ
stamp call t = coalesce (look (response_of call t) t.response_turns) t.user_turn

-- jarvisFunctionCall
unfoldable pub function_call : FunctionCall → Jarvis → Jarvis
function_call call j =
    let response_id = response_of call j.turns in
    let j' : Jarvis = record j {
      batches = expect_call response_id j.batches;
      call_response = put call.call_id response_id j.call_response;
    } in
    if is_some (look call.call_id j.call_response)
    then j
    else (if leb max_calls_in_flight j.workers.in_flight
        then complete_call
            (record {
              response_id = response_id;
              call_id = call.call_id;
              output = busy_output;
              ack_required = false;
            })
            j'
        else record j' {
          workers =
              start_worker
                (record {
                  call = call;
                  response_id = response_id;
                  turn = stamp call j.turns;
                  waits = length j.speech.reports;
                })
                j.workers;
        })

unfoldable pub function_calls : List FunctionCall → Jarvis → Jarvis
function_calls [] j = j
function_calls (call ∷ calls) j = function_calls calls (function_call call j)

abbrev pub ended : CallBatch → CallBatch
ended b = record b { done = true }

-- What jarvisResponseDone does before it delivers.
abbrev pub response_over : ℕ → Jarvis → Jarvis
response_over response_id j = record j {
  turns = record j.turns { response_turns = delete response_id j.turns.response_turns };
  speech = record j.speech { responding = without_id response_id j.speech.responding };
  batches = update_where (is_batch_of response_id) ended j.batches;
}

-- jarvisResponseDone
unfoldable pub response_done : ℕ → List FunctionCall → Jarvis → Jarvis
response_done response_id calls j = deliver (response_over response_id (function_calls calls j))

-- jarvisResult
unfoldable pub call_result : ToolResult → Jarvis → Jarvis
call_result r j =
    complete_call r
      (record j { workers = record j.workers { in_flight = j.workers.in_flight - 1 } })

-- jarvisNotice
unfoldable pub notice : Notice → Jarvis → Jarvis
notice e j =
    let (sent, j') = send_provider (Sent.message e) j in
    if sent
    then respond
        (record j' { speech = added (some (Question.asked_by_event e.event_id)) j'.speech })
    else j'
