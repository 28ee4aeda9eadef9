-- ===== src/Voice/Session.antt =====
-- services/voice-gateway/internal/session/session.go: what a session does with the audio and the
-- messages of its client and with the events of its provider, over the outbox and the bridge to the
-- orchestrator. Metrics, logs, the measuring of latency and the framing of messages are left out.
pub mod Silence
pub mod Upstream
pub mod Starting
mod Tests
use cratos_ai.Prelude.{
  is_ok, ℕ, ◌+◌, ◌/◌, ◌%◌, ◌-◌, ltb, leb, ◌==◌, Bool, true, false, not, ◌&&◌, ◌||◌, Option, none,
  some, List, [], ◌∷◌, ◌++◌, String, str_eq, length, changed, holds, select_where, find_where,
  is_some, if◌then◌else◌, Result, Error, ok, err,
}
use cratos_ai.Voice.Outbox.{OutItem, Outbox, push, drop_audio}
use cratos_ai.Voice.Jarvis.Model.{Role, FunctionCall, Jarvis}
use cratos_ai.Voice.Jarvis.Handlers.{
  speech_started, speech_stopped, transcript_delta, response_created, response_done, provider_error,
  function_call,
}

-- The status that the socket is closed with.
pub data CloseStatus : Type 0 where
  normal_closure policy_violation internal_error try_again_later going_away : CloseStatus

pub data ErrorCode : Type 0 where
  invalid_message session_limit_reached key_missing_code internal provider_auth_failed : ErrorCode
  provider_unavailable_code rate_limited_code shutting_down_code session_expired : ErrorCode
  provider_error_code : ErrorCode

-- ending: the reason, the status and the final message, if any.
pub record Ending : Type 0 where
  pub reason : String
  pub status : CloseStatus
  pub final : Option (ErrorCode × String)

-- fatal
abbrev pub fatal : String → CloseStatus → ErrorCode → String → Ending
fatal reason status code message = record {
  reason = reason;
  status = status;
  final = some (code, message);
}

abbrev pub end_client_closed : Ending
end_client_closed = record { reason = "client_closed"; status = normal_closure; final = none }

abbrev pub end_client_ended : Ending
end_client_ended = record { reason = "client_ended"; status = normal_closure; final = none }

-- What providerFailed ends the session with.
abbrev pub provider_lost : Ending
provider_lost =
    fatal "provider_lost" internal_error provider_unavailable_code
      "the connection to the provider was lost; reconnect"

-- The realtime events.
pub data ProviderEvent : Type 0 where
  audio_delta : ℕ → ℕ → String → ℕ → ProviderEvent
  transcribes : Bool → Role → ℕ → String → ProviderEvent
  speech_starts : ProviderEvent
  speech_stops : ℕ → ProviderEvent
  response_starts : ℕ → ProviderEvent
  response_ends : ℕ → List FunctionCall → String → ProviderEvent
  calls_tool : FunctionCall → ProviderEvent
  reports_error : String → String → ProviderEvent

-- ServerMessage, but for the start of a session.
pub data ServerMessage : Type 0 where
  output_audio : String → ℕ → ServerMessage
  transcript : Role → String → Bool → ℕ → ServerMessage
  speech_started_message speech_stopped_message : ServerMessage
  response_done_message : ℕ → String → ServerMessage
  error_message : ErrorCode → String → ServerMessage

-- What interrupt asks of the provider.
pub data Control : Type 0 where
  cancel_response : Control
  truncate : ℕ → ℕ → Control

-- session: an id is the number that its text stands for, 0 for the empty text.
pub record VoiceSession : Type 0 where
  pub out : Outbox
  pub jarvis : Option Jarvis
  pub current_response : ℕ
  pub current_item : ℕ
  pub interrupted : List ℕ
  pub controls : List Control
  pub end : Option Ending

-- realtime.BytesPerMillisecond: 24 kHz of 16 bits
abbrev pub bytes_per_millisecond : ℕ
bytes_per_millisecond = 48

abbrev pub is_in : ℕ → List ℕ → Bool
is_in id ids = is_some (find_where (λ x. x == id) ids)

-- m[id] = true and delete(m, id)
abbrev pub mark : ℕ → List ℕ → List ℕ
mark id ids = if is_in id ids then ids else id ∷ ids

abbrev pub unmark : ℕ → List ℕ → List ℕ
unmark id ids = select_where (λ x. not (x == id)) ids

-- finish: the first reason counts.
unfoldable pub finish_session : Ending → VoiceSession → VoiceSession
finish_session e s = if is_some s.end then s else record s { end = some e }

abbrev pub is_harmless : String → Bool
is_harmless code =
    str_eq code "response_cancel_not_active"
    || str_eq code "conversation_already_has_active_response"

-- responseStatus, cancelled when the response was interrupted
abbrev pub response_status : Bool → String → String
response_status true status = "cancelled"
response_status false status =
    if str_eq status "completed" || str_eq status "cancelled" then status else "failed"

abbrev pub with_jarvis : (Jarvis → Jarvis) → VoiceSession → VoiceSession
with_jarvis f s = record s { jarvis = changed f s.jarvis }

-- The controls of interrupt, in order.
abbrev pub controls_of : Bool → ℕ → ℕ → ℕ → ℕ → List Control
controls_of cancels response item dropped delivered =
    (if cancels && not (response == 0) then cancel_response ∷ [] else [])
    ++ (if not (item == 0) && ltb 0 dropped
        then truncate item (delivered / bytes_per_millisecond) ∷ []
        else [])

-- interrupt
unfoldable pub interrupt : Bool → VoiceSession → VoiceSession
interrupt cancels s =
    let ((dropped, delivered), out) = drop_audio s.current_item s.out in
    record s {
      out = out;
      interrupted =
          if s.current_response == 0 then s.interrupted else mark s.current_response s.interrupted;
      controls =
          s.controls ++ controls_of cancels s.current_response s.current_item dropped delivered;
    }

module _ (encode : ServerMessage → String) where
  abbrev pub pushed : Result (Unit {0}) × Outbox → VoiceSession → Result (Unit {0}) × VoiceSession
  pushed (r, out) s = (r, record s { out = out })

  -- push
  unfoldable pub push_message : ℕ → ServerMessage → VoiceSession → Result (Unit {0}) × VoiceSession
  push_message now m s =
      pushed (push (record { msg = encode m; item_id = 0; audio_bytes = 0; enqueued = now }) s.out)
        s

  abbrev pub set_current : ℕ → ℕ → VoiceSession → VoiceSession
  set_current response item s = record s {
    current_item = item;
    current_response = if s.current_response == 0 then response else s.current_response;
  }

  abbrev pub audio_item : ℕ → ℕ → ℕ → String → ℕ → OutItem
  audio_item now response item pcm bytes = record {
    msg = encode (output_audio pcm response);
    item_id = item;
    audio_bytes = bytes;
    enqueued = now;
  }

  -- The AudioDelta of handleEvent.
  unfoldable pub play : ℕ → ℕ → ℕ → String → ℕ → VoiceSession → Result (Unit {0}) × VoiceSession
  play now response item pcm bytes s =
      if is_in response s.interrupted
      then (ok tt, s)
      else if bytes == 0
      then (ok tt, set_current response item s)
      else pushed (push (audio_item now response item pcm bytes) s.out)
          (set_current response item s)

  -- The ResponseDone of handleEvent.
  abbrev pub forget_response : ℕ → VoiceSession → VoiceSession
  forget_response id s = record s {
    interrupted = unmark id s.interrupted;
    current_response = if s.current_response == id then 0 else s.current_response;
  }

  -- handleEvent
  unfoldable pub handle_event : ℕ → ProviderEvent → VoiceSession → Result (Unit {0}) × VoiceSession
  handle_event now (audio_delta response item pcm bytes) s = play now response item pcm bytes s
  handle_event now (transcribes final role item text) s =
      push_message now (transcript role text final item)
        (with_jarvis (transcript_delta final role item text) s)
  handle_event now speech_starts s =
      push_message now speech_started_message (with_jarvis speech_started (interrupt false s))
  handle_event now (speech_stops item) s =
      push_message now speech_stopped_message (with_jarvis (speech_stopped item) s)
  handle_event now (response_starts id) s =
      (ok tt, with_jarvis (response_created id) (record s { current_response = id }))
  handle_event now (response_ends id calls status) s =
      push_message now (response_done_message id (response_status (is_in id s.interrupted) status))
        (with_jarvis (response_done id calls) (forget_response id s))
  handle_event now (calls_tool call) s = (ok tt, with_jarvis (function_call call) s)
  handle_event now (reports_error code message) s =
      let s' = with_jarvis provider_error s in
      if is_harmless code
      then (ok tt, s')
      else push_message now (error_message provider_error_code message) s'

  abbrev pub client_too_slow : Ending
  client_too_slow =
      fatal "client_too_slow" policy_violation internal "client is not reading fast enough"

  -- providerFailed, when a send of the bridge failed
  abbrev pub if_lost : VoiceSession → VoiceSession
  if_lost s =
      if holds s.jarvis (λ j. j.connection.failed) then finish_session provider_lost s else s

  -- The provider loop over the events that it takes: it stops when the client is too slow.
  unfoldable pub provider_loop : List (ℕ × ProviderEvent) → VoiceSession → VoiceSession
  provider_loop [] s = s
  provider_loop ((now, e) ∷ es) s =
      let (r, s') = handle_event now e s in
      let rest = provider_loop es (if_lost s') in
      if is_ok r then rest else finish_session client_too_slow (if_lost s')
