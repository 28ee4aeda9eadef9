-- ===== src/Voice/Jarvis/Questions.antt =====
-- Every question that is put into the conversation is kept once, in order, until it is reported.
use cratos_ai.Prelude.{
  ℕ, ltb, leb, ◌==◌, ◌≡◌, refl, sym, ap, ◌∙◌, Bool, true, false, ◌||◌, Option, none, some, List, [],
  ◌∷◌, ◌++◌, String, length, Bool-cases, Option-cases, inl, inr, is_some, find_where, map,
  append_assoc, append-nil, map-append,
}
use cratos_ai.Voice.Jarvis.Model.{
  Role, Question, Delivered, add, FunctionCall, Notice, Sent, Speech, Jarvis, max_calls_in_flight,
  max_create_retries, look,
}
use cratos_ai.Voice.Jarvis.Delivery.{
  ask, added, next, send_provider, respond, result_question, deliver, is_empty,
}
use cratos_ai.Voice.Jarvis.Handlers.{
  record_item, speech_started, speech_stopped, transcript_delta, reported_at, start_acks, spoken_by,
  response_created, create_failed, provider_error, complete_call, function_call, function_calls,
  response_done, call_result, notice,
}
use cratos_ai.Voice.Jarvis.Steps.{
  CallReply, Event, finish_call, is_run_of, report_handled, step, run, starts_speaking,
  stops_speaking, transcribed, creates_response, ends_response, fails, calls_function,
  finishes_call, notices, handles_report,
}
use cratos_ai.Voice.Jarvis.Keeping.{respond-keeps, deliver-keeps}

abbrev pub as_list : Option Question → List Question
as_list none = []
as_list (some q) = q ∷ []

abbrev pub asked_in : Sent → List Question
asked_in (Sent.function_output r) = as_list (result_question r)
asked_in (Sent.message e) = Question.asked_by_event e.event_id ∷ []
asked_in Sent.create_response = []

-- The questions that the conversation has been given.
abbrev pub questions : List Sent → List Question
questions [] = []
questions (m ∷ ms) = asked_in m ++ questions ms

-- Those that are reported, or wait for a response.
abbrev pub accounted : Speech → List Question
accounted s = map (λ r. r.question) s.reports ++ s.unspoken.acks ++ s.after_request.acks

-- Nothing waits behind a request that was not made.
abbrev pub is_settled : Speech → Bool
is_settled s = s.requested || is_empty s.after_request.acks

abbrev pub AccountedFor : List Sent → Speech → Type 0
AccountedFor sent s = (questions sent ≡ accounted s) × (is_settled s ≡ true)

abbrev pub Accounted : Jarvis → Type 0
Accounted j = AccountedFor j.connection.sent j.speech

questions-append : (xs ys : List Sent) → questions (xs ++ ys) ≡ questions xs ++ questions ys
questions-append [] ys = refl
questions-append (m ∷ xs) ys =
    ap (λ r. asked_in m ++ r) (questions-append xs ys)
    ∙ sym (append_assoc (asked_in m) (questions xs) (questions ys))

pub empty-nil : (xs : List Question) → is_empty xs ≡ true → xs ≡ []
empty-nil [] e = refl
empty-nil (x ∷ xs) e = cc

ask-acks : (q : Option Question) (d : Delivered) → (ask q d).acks ≡ d.acks ++ as_list q
ask-acks none d = sym (append-nil d.acks)
ask-acks (some q) d = refl

added-accounted :
    (q : Option Question) (s : Speech)
    → is_settled s ≡ true
    → (accounted (added q s) ≡ accounted s ++ as_list q) × (is_settled (added q s) ≡ true)
unfolding added
added-accounted q s h = elim (Bool-cases s.requested) [
  | inl e ↦ (simp (e, ask-acks q, append_assoc) refl, simp e refl)
  | inr e ↦
      let none_after = empty-nil s.after_request.acks (simp e at h) in
      (simp (e, ask-acks q, none_after, append_assoc, append-nil) refl, simp (e, none_after) refl)
]

giving-Accounted :
    (q : Option Question) (m : Sent) (sent : List Sent) (s : Speech)
    → asked_in m ≡ as_list q
    → AccountedFor sent s
    → AccountedFor (sent ++ m ∷ []) (added q s)
giving-Accounted q m sent s a (e, h) =
    let (more, fine) = added-accounted q s h in
    (simp (more, questions-append, a, append-nil, e) refl, fine)

asking-sent : (s : List Sent) → questions (s ++ Sent.create_response ∷ []) ≡ questions s
asking-sent s = simp (questions-append, append-nil) refl

deliver-Accounted : (j : Jarvis) → Accounted j → Accounted (deliver j)
deliver-Accounted =
    deliver-keeps Accounted (λ j h. h) (λ j e (h, z). (asking-sent j.connection.sent ∙ h, refl))
      (λ r j h.
        giving-Accounted (result_question r) (Sent.function_output r) j.connection.sent j.speech
          refl h)
      (λ c j h. h) (λ b j f d h. h) (λ os j h. h)

respond-Accounted : (j : Jarvis) → Accounted j → Accounted (respond j)
respond-Accounted =
    respond-keeps Accounted (λ j h. h) (λ j e (h, z). (asking-sent j.connection.sent ∙ h, refl))
      (λ r j h.
        giving-Accounted (result_question r) (Sent.function_output r) j.connection.sent j.speech
          refl h)
      (λ c j h. h) (λ b j f d h. h) (λ os j h. h)

map-reported :
    (turn : ℕ) (qs : List Question) → map (λ r. r.question) (map (reported_at turn) qs) ≡ qs
map-reported turn [] = refl
map-reported turn (q ∷ qs) = ap (λ r. q ∷ r) (map-reported turn qs)

spoken_by-accounted :
    (id turn : ℕ) (s : Speech)
    → (accounted (spoken_by id turn s) ≡ accounted s) × (is_settled (spoken_by id turn s) ≡ true)
unfolding spoken_by start_acks
spoken_by-accounted id turn s = elim (Bool-cases (is_empty s.unspoken.acks)) [
  | inl e ↦ rw e (simp (empty-nil s.unspoken.acks e, append-nil) refl, refl)
  | inr e ↦ rw e (simp (map-append, map-reported, append_assoc, append-nil) refl, refl)
]

create_failed-accounted : (s : Speech) → accounted (create_failed s) ≡ accounted s
unfolding create_failed add
create_failed-accounted s = simp (append_assoc, append-nil) refl

provider_error-Accounted : (j : Jarvis) → Accounted j → Accounted (provider_error j)
unfolding provider_error create_failed
provider_error-Accounted j (h, z) =
    let k : Accounted (record j { speech = create_failed j.speech }) =
      (h ∙ sym (create_failed-accounted j.speech), refl) in
    elim (Bool-cases j.speech.requested) [
      | inr e ↦ rw e (h, rw e at z)
      | inl e ↦
          elim (Bool-cases (ltb max_create_retries (create_failed j.speech).create_failures)) [
            | inl many ↦ rw (e, many) k
            | inr few ↦
                rw (e, few) (respond-Accounted (record j { speech = create_failed j.speech }) k)
          ]
    ]

function_call-Accounted :
    (call : FunctionCall) (j : Jarvis) → Accounted j → Accounted (function_call call j)
unfolding function_call complete_call
function_call-Accounted call j h = elim (Bool-cases (is_some (look call.call_id j.call_response))) [
  | inl e ↦ rw e h
  | inr e ↦ elim (Bool-cases (leb max_calls_in_flight j.workers.in_flight)) [
    | inl b ↦ rw (e, b) (deliver-Accounted _ h)
    | inr b ↦ rw (e, b) h
  ]
]

function_calls-Accounted :
    (calls : List FunctionCall) (j : Jarvis) → Accounted j → Accounted (function_calls calls j)
unfolding function_calls
function_calls-Accounted [] j h = h
function_calls-Accounted (call ∷ calls) j h =
    function_calls-Accounted calls (function_call call j) (function_call-Accounted call j h)

finish_call-Accounted :
    (call_id : ℕ) (reply : CallReply) (j : Jarvis)
    → Accounted j
    → Accounted (finish_call call_id reply j)
unfolding finish_call call_result complete_call
finish_call-Accounted call_id reply j h =
    elim (Option-cases (find_where (is_run_of call_id) j.workers.running)) [
      | inl e ↦ rw e h
      | inr (w, e) ↦ elim (Bool-cases (leb w.waits j.stored)) [
        | inl b ↦ rw (e, b) (deliver-Accounted _ h)
        | inr b ↦ rw (e, b) h
      ]
    ]

notice-Accounted : (e : Notice) (j : Jarvis) → Accounted j → Accounted (notice e j)
unfolding notice send_provider
notice-Accounted e j h = elim (Bool-cases (next j.connection.accepts)) [
  | inl t ↦ rw t (
      respond-Accounted _ (
        giving-Accounted (some (Question.asked_by_event e.event_id)) (Sent.message e)
          j.connection.sent j.speech refl h))
  | inr t ↦ rw t h
]

transcript_delta-Accounted :
    (final : Bool) (role : Role) (item : ℕ) (text : String) (j : Jarvis)
    → Accounted j
    → Accounted (transcript_delta final role item text j)
unfolding transcript_delta record_item
transcript_delta-Accounted false role item text j h = h
transcript_delta-Accounted true Role.user item text j h = elim (Bool-cases (item == 0)) [
  | inl e ↦ rw e h
  | inr e ↦ rw e h
]
transcript_delta-Accounted true Role.assistant item text j h = elim (Bool-cases (item == 0)) [
  | inl e ↦ rw e h
  | inr e ↦ rw e h
]

stop-Accounted : (item : ℕ) (j : Jarvis) → Accounted j → Accounted (speech_stopped item j)
unfolding speech_stopped record_item
stop-Accounted item j h = elim (Bool-cases (item == 0)) [ inl e ↦ rw e h | inr e ↦ rw e h ]

report_handled-Accounted : (j : Jarvis) → Accounted j → Accounted (report_handled j)
unfolding report_handled
report_handled-Accounted j h = elim (Bool-cases (ltb j.stored (length j.speech.reports))) [
  | inl b ↦ rw b h
  | inr b ↦ rw b h
]

pub step-Accounted : (e : Event) (j : Jarvis) → Accounted j → Accounted (step e j)
unfolding step speech_started response_created response_done
step-Accounted starts_speaking j h = h
step-Accounted (stops_speaking item) j h = stop-Accounted item j h
step-Accounted (transcribed final role item text) j h =
    transcript_delta-Accounted final role item text j h
step-Accounted (creates_response id) j (h, z) =
    let (same, fine) = spoken_by-accounted id j.turns.user_turn j.speech in (h ∙ sym same, fine)
step-Accounted (ends_response id calls) j h =
    deliver-Accounted _ (function_calls-Accounted calls j h)
step-Accounted fails j h = provider_error-Accounted j h
step-Accounted (calls_function call) j h = function_call-Accounted call j h
step-Accounted (finishes_call call_id reply) j h = finish_call-Accounted call_id reply j h
step-Accounted (notices e) j h = notice-Accounted e j h
step-Accounted handles_report j h = report_handled-Accounted j h

pub run-Accounted : (es : List Event) (j : Jarvis) → Accounted j → Accounted (run es j)
unfolding run
run-Accounted [] j h = h
run-Accounted (e ∷ es) j h = run-Accounted es (step e j) (step-Accounted e j h)
