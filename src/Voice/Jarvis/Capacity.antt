-- ===== src/Voice/Jarvis/Capacity.antt =====
-- The calls of a session stay counted, and at most eight run at a time.
use cratos_ai.Prelude.{
  ℕ, ◌-◌, ltb, leb, ◌==◌, ◌≡◌, refl, Bool, true, false, some, List, [], ◌∷◌, String, arith, length,
  find_where, update_where, is_some, Bool-cases, Option-cases, inl, inr,
}
use cratos_ai.Prelude.Rows.{All-update, find-own}
use cratos_ai.Voice.Jarvis.Model.{
  Role, ToolResult, CallBatch, FunctionCall, Notice, Running, Workers, Jarvis, max_calls_in_flight,
  max_create_retries, look,
}
use cratos_ai.Voice.Jarvis.Delivery.{next, send_provider, is_batch_of}
use cratos_ai.Voice.Jarvis.Handlers.{
  record_item, speech_started, speech_stopped, transcript_delta, response_created, create_failed,
  provider_error, returned, complete_call, function_call, function_calls, ended, response_over,
  response_done, call_result, notice,
}
use cratos_ai.Voice.Jarvis.Steps.{
  CallReply, Event, run_call, replied, timed_out, unavailable, finish_call, is_run_of, without_run,
  report_handled, step, run, starts_speaking, stops_speaking, transcribed, creates_response,
  ends_response, fails, calls_function, finishes_call, notices, handles_report,
}
use cratos_ai.Voice.Jarvis.Calls.{
  Balanced, CallsFor, Counted, Awaited-update, All-without, length-without, start-CallsFor,
  busy-CallsFor, result-Balanced, deliver-Counted, respond-Counted,
}

function_call-Counted :
    (call : FunctionCall) (j : Jarvis) → Counted j → Counted (function_call call j)
unfolding function_call complete_call
function_call-Counted call j h = elim (Bool-cases (is_some (look call.call_id j.call_response))) [
  | inl e ↦ rw e h
  | inr e ↦ elim (Bool-cases (leb max_calls_in_flight j.workers.in_flight)) [
    | inl b ↦ rw (e, b) (deliver-Counted _ (busy-CallsFor _ j.workers j.batches h))
    | inr b ↦ rw (e, b) (start-CallsFor _ j.workers j.batches b h)
  ]
]

function_calls-Counted :
    (calls : List FunctionCall) (j : Jarvis) → Counted j → Counted (function_calls calls j)
unfolding function_calls
function_calls-Counted [] j h = h
function_calls-Counted (call ∷ calls) j h =
    function_calls-Counted calls (function_call call j) (function_call-Counted call j h)

response_done-Counted :
    (id : ℕ) (calls : List FunctionCall) (j : Jarvis)
    → Counted j
    → Counted (response_done id calls j)
unfolding response_done
response_done-Counted id calls j h =
    let j' = function_calls calls j in
    let (n, m, hb, hw) = function_calls-Counted calls j h in
    deliver-Counted (response_over id j') (
      n,
      m,
      All-update (Balanced j'.workers.running) (is_batch_of id) ended (λ b z t. z) j'.batches hb,
      Awaited-update (is_batch_of id) ended j'.batches (λ b. refl) j'.workers.running hw,
    )

run_call-response :
    (w : Running) (reply : CallReply) → (run_call w reply).response_id ≡ w.response_id
unfolding run_call
run_call-response w (replied output ack) = refl
run_call-response w timed_out = refl
run_call-response w unavailable = refl

abbrev run_id : Running → ℕ
run_id w = w.call.call_id

result-CallsFor :
    (call_id : ℕ) (w : Running) (r : ToolResult) (s : Workers) (bs : List CallBatch)
    → find_where (is_run_of call_id) s.running ≡ some w
    → r.response_id ≡ w.response_id
    → CallsFor s bs
    → CallsFor
        (record s { in_flight = s.in_flight - 1; running = without_run w.call.call_id s.running })
        (update_where (is_batch_of r.response_id) (returned r) bs)
result-CallsFor call_id w r s bs e same (n, m, hb, hw) =
    let f = find-own run_id call_id s.running w e in
    (
      ground (arith, length-without w.call.call_id s.running w f),
      ground arith,
      result-Balanced r w s.running bs same f hb,
      All-without _ w.call.call_id s.running
          (Awaited-update (is_batch_of r.response_id) (returned r) bs (λ b. refl) s.running hw),
    )

finish_call-Counted :
    (call_id : ℕ) (reply : CallReply) (j : Jarvis)
    → Counted j
    → Counted (finish_call call_id reply j)
unfolding finish_call call_result complete_call
finish_call-Counted call_id reply j h =
    elim (Option-cases (find_where (is_run_of call_id) j.workers.running)) [
      | inl e ↦ rw e h
      | inr (w, e) ↦
          let same = run_call-response w reply in
          let k = result-CallsFor call_id w (run_call w reply) j.workers j.batches e same h in
          elim (Bool-cases (leb w.waits j.stored)) [
            | inl b ↦ rw (e, b) (deliver-Counted _ k)
            | inr b ↦ rw (e, b) h
          ]
    ]

provider_error-Counted : (j : Jarvis) → Counted j → Counted (provider_error j)
unfolding provider_error create_failed
provider_error-Counted j h = elim (Bool-cases j.speech.requested) [
  | inr e ↦ rw e h
  | inl e ↦ elim (Bool-cases (ltb max_create_retries (create_failed j.speech).create_failures)) [
    | inl many ↦ rw (e, many) h
    | inr few ↦ rw (e, few) (respond-Counted (record j { speech = create_failed j.speech }) h)
  ]
]

notice-Counted : (e : Notice) (j : Jarvis) → Counted j → Counted (notice e j)
unfolding notice send_provider
notice-Counted e j h = elim (Bool-cases (next j.connection.accepts)) [
  | inl t ↦ rw t (respond-Counted _ h)
  | inr t ↦ rw t h
]

record_item-Counted :
    (role : Role) (turn item : ℕ) (text : String) (j : Jarvis)
    → Counted j
    → Counted (record_item role turn item text j)
unfolding record_item
record_item-Counted role turn item text j h = elim (Bool-cases (item == 0)) [
  | inl e ↦ rw e h
  | inr e ↦ rw e h
]

transcript_delta-Counted :
    (final : Bool) (role : Role) (item : ℕ) (text : String) (j : Jarvis)
    → Counted j
    → Counted (transcript_delta final role item text j)
unfolding transcript_delta
transcript_delta-Counted false role item text j h = h
transcript_delta-Counted true Role.user item text j h = record_item-Counted _ _ item text _ h
transcript_delta-Counted true Role.assistant item text j h = record_item-Counted _ _ item text j h

report_handled-Counted : (j : Jarvis) → Counted j → Counted (report_handled j)
unfolding report_handled
report_handled-Counted j h = elim (Bool-cases (ltb j.stored (length j.speech.reports))) [
  | inl b ↦ rw b h
  | inr b ↦ rw b h
]

step-Counted : (e : Event) (j : Jarvis) → Counted j → Counted (step e j)
unfolding step speech_started speech_stopped response_created
step-Counted starts_speaking j h = h
step-Counted (stops_speaking item) j h = record_item-Counted _ _ item _ _ h
step-Counted (transcribed final role item text) j h =
    transcript_delta-Counted final role item text j h
step-Counted (creates_response id) j h = h
step-Counted (ends_response id calls) j h = response_done-Counted id calls j h
step-Counted fails j h = provider_error-Counted j h
step-Counted (calls_function call) j h = function_call-Counted call j h
step-Counted (finishes_call call_id reply) j h = finish_call-Counted call_id reply j h
step-Counted (notices e) j h = notice-Counted e j h
step-Counted handles_report j h = report_handled-Counted j h

-- The calls of a session are counted as they run, through every sequence of events: as many are in
-- flight as goroutines have not reported, and at most eight; the calls that a batch waits for are
-- the goroutines of its response; and every goroutine has a batch that its result goes to. It holds
-- after the events where it held before.
pub run-Counted : (es : List Event) (j : Jarvis) → Counted j → Counted (run es j)
unfolding run
run-Counted [] j h = h
run-Counted (e ∷ es) j h = run-Counted es (step e j) (step-Counted e j h)
