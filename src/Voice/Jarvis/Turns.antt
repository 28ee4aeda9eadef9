-- ===== src/Voice/Jarvis/Turns.antt =====
-- The user turns that the calls of services/voice-gateway/internal/session/jarvis.go are stamped
-- with, and what the orchestrator lets them settle.
use cratos_ai.Prelude.{
  ℕ, ◌+◌, ◌≤◌, ◌==◌, ltb, leb, ◌≡◌, refl, Bool, true, false, List, [], ◌∷◌, arith, length, All,
  All-append, if◌then◌else◌, Bool-cases, Option-cases, inl, inr, is_some, coalesce, find_where,
  String,
}
use mathlib.Core.Path.{subst}
use cratos_ai.Voice.Counts.{Entry, put, delete}
use cratos_ai.Voice.Jarvis.Model.{
  Role, FunctionCall, Notice, Running, Turns, Workers, Jarvis, max_calls_in_flight,
  max_create_retries, look,
}
use cratos_ai.Voice.Jarvis.Delivery.{deliver, respond, send_provider, next}
use cratos_ai.Voice.Jarvis.Handlers.{
  record_item, speech_started, speech_stopped, transcript_delta, response_created, provider_error,
  complete_call, response_of, function_call, function_calls, response_done, call_result, notice,
  create_failed,
}
use cratos_ai.Voice.Jarvis.Steps.{
  CallReply, Event, finish_call, is_run_of, is_stop, report_handled, step, run, user_turns,
  starts_speaking, stops_speaking, transcribed, creates_response, ends_response, fails,
  calls_function, finishes_call, notices, handles_report,
}
use cratos_ai.Voice.Jarvis.Keeping.{respond-keeps, deliver-keeps}

abbrev AtMost : ℕ → Entry → Type 0
AtMost u e = e.count ≤ u

abbrev RunAtMost : ℕ → Running → Type 0
RunAtMost u w = w.turn ≤ u

-- No response in progress and no call is stamped with a turn after `u`, which is the user's.
abbrev Within : ℕ → Turns → Workers → Type 0
Within u t ws = (t.user_turn ≡ u) × All (AtMost u) t.response_turns × All (RunAtMost u) ws.started

abbrev pub Stamped : Jarvis → Type 0
Stamped j = Within j.turns.user_turn j.turns j.workers

put-AtMost : (u k n : ℕ) (es : List Entry) → n ≤ u → All (AtMost u) es → All (AtMost u) (put k n es)
put-AtMost u k n [] l h = (l, tt)
put-AtMost u k n (e ∷ es) l (he, h) = elim (Bool-cases (e.key == k)) [
  | inl t ↦ rw t (l, h)
  | inr t ↦ rw t (he, put-AtMost u k n es l h)
]

delete-AtMost : (u k : ℕ) (es : List Entry) → All (AtMost u) es → All (AtMost u) (delete k es)
delete-AtMost u k [] h = tt
delete-AtMost u k (e ∷ es) (he, h) = elim (Bool-cases (e.key == k)) [
  | inl t ↦ rw t (delete-AtMost u k es h)
  | inr t ↦ rw t (he, delete-AtMost u k es h)
]

look-AtMost : (u k d : ℕ) (es : List Entry) → d ≤ u → All (AtMost u) es → coalesce (look k es) d ≤ u
look-AtMost u k d [] l h = l
look-AtMost u k d (e ∷ es) l (he, h) = elim (Bool-cases (e.key == k)) [
  | inl t ↦ rw t he
  | inr t ↦ rw t (look-AtMost u k d es l h)
]

AtMost-more : (u v : ℕ) (es : List Entry) → u ≤ v → All (AtMost u) es → All (AtMost v) es
AtMost-more u v [] l h = tt
AtMost-more u v (e ∷ es) l (he, h) = (omega arith, AtMost-more u v es l h)

RunAtMost-more : (u v : ℕ) (ws : List Running) → u ≤ v → All (RunAtMost u) ws → All (RunAtMost v) ws
RunAtMost-more u v [] l h = tt
RunAtMost-more u v (w ∷ ws) l (hw, h) = (omega arith, RunAtMost-more u v ws l h)

abbrev Kept : ℕ → Jarvis → Type 0
Kept u j = Within u j.turns j.workers

deliver-Kept : (u : ℕ) (j : Jarvis) → Kept u j → Kept u (deliver j)
deliver-Kept u =
    deliver-keeps (Kept u) (λ j h. h) (λ j e h. h) (λ r j h. h) (λ c j h. h) (λ b j f d h. h)
      (λ os j h. h)

respond-Kept : (u : ℕ) (j : Jarvis) → Kept u j → Kept u (respond j)
respond-Kept u =
    respond-keeps (Kept u) (λ j h. h) (λ j e h. h) (λ r j h. h) (λ c j h. h) (λ b j f d h. h)
      (λ os j h. h)

function_call-Kept :
    (u : ℕ) (call : FunctionCall) (j : Jarvis) → Kept u j → Kept u (function_call call j)
unfolding function_call complete_call
function_call-Kept u call j (hu, hr, hs) =
    elim (Bool-cases (is_some (look call.call_id j.call_response))) [
      | inl e ↦ rw e (hu, hr, hs)
      | inr e ↦ elim (Bool-cases (leb max_calls_in_flight j.workers.in_flight)) [
        | inl b ↦ rw (e, b) (deliver-Kept u _ (hu, hr, hs))
        | inr b ↦
            let l =
              look-AtMost u (response_of call j.turns) j.turns.user_turn j.turns.response_turns
                (omega arith) hr in
            rw (e, b) (hu, hr, All-append (RunAtMost u) j.workers.started _ hs (l, tt))
      ]
    ]

function_calls-Kept :
    (u : ℕ) (calls : List FunctionCall) (j : Jarvis) → Kept u j → Kept u (function_calls calls j)
unfolding function_calls
function_calls-Kept u [] j h = h
function_calls-Kept u (call ∷ calls) j h =
    function_calls-Kept u calls (function_call call j) (function_call-Kept u call j h)

response_done-Kept :
    (u id : ℕ) (calls : List FunctionCall) (j : Jarvis)
    → Kept u j
    → Kept u (response_done id calls j)
unfolding response_done
response_done-Kept u id calls j h =
    let (hu, hr, hs) = function_calls-Kept u calls j h in
    deliver-Kept u _ (hu, delete-AtMost u id _ hr, hs)

transcript_delta-Kept :
    (u : ℕ) (final : Bool) (role : Role) (item : ℕ) (text : String) (j : Jarvis)
    → Kept u j
    → Kept u (transcript_delta final role item text j)
unfolding transcript_delta record_item
transcript_delta-Kept u false role item text j h = h
transcript_delta-Kept u true Role.user item text j h = elim (Bool-cases (item == 0)) [
  | inl e ↦ rw e h
  | inr e ↦ rw e h
]
transcript_delta-Kept u true Role.assistant item text j h = elim (Bool-cases (item == 0)) [
  | inl e ↦ rw e h
  | inr e ↦ rw e h
]

provider_error-Kept : (u : ℕ) (j : Jarvis) → Kept u j → Kept u (provider_error j)
unfolding provider_error create_failed
provider_error-Kept u j h = elim (Bool-cases j.speech.requested) [
  | inr e ↦ rw e h
  | inl e ↦ elim (Bool-cases (ltb max_create_retries (create_failed j.speech).create_failures)) [
    | inl many ↦ rw (e, many) h
    | inr few ↦ rw (e, few) (respond-Kept u (record j { speech = create_failed j.speech }) h)
  ]
]

finish_call-Kept :
    (u call_id : ℕ) (reply : CallReply) (j : Jarvis)
    → Kept u j
    → Kept u (finish_call call_id reply j)
unfolding finish_call call_result complete_call
finish_call-Kept u call_id reply j h =
    elim (Option-cases (find_where (is_run_of call_id) j.workers.running)) [
      | inl e ↦ rw e h
      | inr (w, e) ↦ elim (Bool-cases (leb w.waits j.stored)) [
        | inl b ↦ rw (e, b) (deliver-Kept u _ h)
        | inr b ↦ rw (e, b) h
      ]
    ]

notice-Kept : (u : ℕ) (e : Notice) (j : Jarvis) → Kept u j → Kept u (notice e j)
unfolding notice send_provider
notice-Kept u e j h = elim (Bool-cases (next j.connection.accepts)) [
  | inl t ↦ rw t (respond-Kept u _ h)
  | inr t ↦ rw t h
]

stop-Kept : (u item : ℕ) (j : Jarvis) → Kept u j → Kept (u + 1) (speech_stopped item j)
unfolding speech_stopped record_item
stop-Kept u item j (hu, hr, hs) =
    let l : u ≤ u + 1 = omega arith in
    let all_r = AtMost-more u (u + 1) j.turns.response_turns l hr in
    let all_s = RunAtMost-more u (u + 1) j.workers.started l hs in
    elim (Bool-cases (item == 0)) [
      | inl e ↦ rw e (omega arith, all_r, all_s)
      | inr e ↦ rw e (omega arith, all_r, all_s)
    ]

report_handled-Kept : (u : ℕ) (j : Jarvis) → Kept u j → Kept u (report_handled j)
unfolding report_handled
report_handled-Kept u j h = elim (Bool-cases (ltb j.stored (length j.speech.reports))) [
  | inl b ↦ rw b h
  | inr b ↦ rw b h
]

abbrev turn_after : Event → ℕ → ℕ
turn_after e u = if is_stop e then u + 1 else u

step-Kept : (u : ℕ) (e : Event) (j : Jarvis) → Kept u j → Kept (turn_after e u) (step e j)
unfolding step speech_started response_created
step-Kept u starts_speaking j h = h
step-Kept u (stops_speaking item) j h = stop-Kept u item j h
step-Kept u (transcribed final role item text) j h =
    transcript_delta-Kept u final role item text j h
step-Kept u (creates_response id) j (hu, hr, hs) =
    (hu, put-AtMost u id j.turns.user_turn j.turns.response_turns (omega arith) hr, hs)
step-Kept u (ends_response id calls) j h = response_done-Kept u id calls j h
step-Kept u fails j h = provider_error-Kept u j h
step-Kept u (calls_function call) j h = function_call-Kept u call j h
step-Kept u (finishes_call call_id reply) j h = finish_call-Kept u call_id reply j h
step-Kept u (notices e) j h = notice-Kept u e j h
step-Kept u handles_report j h = report_handled-Kept u j h

run-Kept : (es : List Event) (u : ℕ) (j : Jarvis) → Kept u j → Kept (user_turns es + u) (run es j)
unfolding run
run-Kept [] u j h = subst (λ n. Kept n j) (omega arith) h
run-Kept (e ∷ es) u j h =
    let k = run-Kept es (turn_after e u) (step e j) (step-Kept u e j h) in
    let same : user_turns es + turn_after e u ≡ user_turns (e ∷ es) + u = ground arith in
    subst (λ n. Kept n (run es (step e j))) same k

-- The user turn of a session counts the times that the user stopped speaking, whatever the provider,
-- the orchestrator and the calls do in between, and no call that was started and no response in
-- progress is stamped with a later one, where that was so before.
pub user_turns-Stamped :
    (es : List Event) (j : Jarvis)
    → Stamped j
    → ((run es j).turns.user_turn ≡ user_turns es + j.turns.user_turn) × Stamped (run es j)
user_turns-Stamped es j h =
    let (hu, hr, hs) = run-Kept es j.turns.user_turn j h in
    let own : (run es j).turns.user_turn ≡ (run es j).turns.user_turn = refl in
    (hu, (own, rw hu hr, rw hu hs))

pub run-started :
    (es : List Event) (j : Jarvis)
    → Stamped j
    → user_turns es ≡ 0
    → All (RunAtMost j.turns.user_turn) (run es j).workers.started
run-started es j h n =
    let (hu, hr, hs) = run-Kept es j.turns.user_turn j h in
    subst (λ n. All (RunAtMost n) (run es j).workers.started) (ground (arith, n)) hs
