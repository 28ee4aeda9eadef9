-- ===== src/Voice/Session/Starting.antt =====
-- How a session of services/voice-gateway/internal/session/session.go starts, is served and ends:
-- resolve, connect, run, readerLoop, writerLoop and watchdog. What the client, the vault and the
-- provider answer is given; a provider is known by the number of its kind.
pub mod Slots
use cratos_ai.Prelude.{
  ℕ, ◌+◌, ◌-◌, ltb, ◌==◌, Bool, true, false, not, ◌&&◌, ◌||◌, Option, none, some, List, [], ◌∷◌,
  ◌++◌, String, str_eq, if◌then◌else◌, is_some,
}
use cratos_ai.Voice.Limiter.{Gate, acquire, release}
use cratos_ai.Voice.Outbox.{OutItem, Outbox, try_pop, mark_delivered}
use cratos_ai.Voice.Session.{
  Ending, fatal, end_client_closed, end_client_ended, policy_violation, internal_error,
  try_again_later, going_away, invalid_message, session_limit_reached, key_missing_code, internal,
  provider_auth_failed, provider_unavailable_code, session_expired, VoiceSession, finish_session,
  interrupt,
}
use cratos_ai.Voice.Session.Upstream.{
  ClientMessage, input_audio, cancel_message, end_message, unexpected_message, Uplink, accept_audio,
}

-- StartSession
pub record Start : Type 0 where
  pub provider : ℕ
  pub voice : String
  pub locale : String

-- realtime.Provider
pub record Provider : Type 0 where
  pub name : String
  pub default_voice : String

-- Config, with what the patterns of a voice and of a locale accept and the rendering of a provider.
pub record Config : Type 0 where
  pub providers : ℕ → Option Provider
  pub default_provider : ℕ
  pub is_voice : String → Bool
  pub is_locale : String → Bool
  pub not_enabled : ℕ → String
  pub says : String → String → String
  pub max_duration : ℕ
  pub idle_timeout : ℕ

-- The answers of the vault and of the provider to a connection.
pub data KeyAnswer : Type 0 where
  key_found no_key key_failed : KeyAnswer

pub data DialAnswer : Type 0 where
  dialed dial_unauthorized dial_limited dial_failed : DialAnswer

pub data Resolved : Type 0 where
  bad : Ending → Resolved
  resolved : ℕ → Provider → String → Resolved

abbrev pub protocol_error : String → Ending
protocol_error = fatal "protocol_error" policy_violation invalid_message

module _ (cfg : Config) where
  abbrev pub resolve_provider : ℕ → String → String → Option Provider → Resolved
  resolve_provider kind voice locale none = bad (protocol_error (cfg.not_enabled kind))
  resolve_provider kind voice locale (some p) =
      let v = if str_eq voice "" then p.default_voice else voice in
      if not (cfg.is_voice v)
      then bad (protocol_error "voice must be 1-32 characters of a-z 0-9 _ -")
      else if not (str_eq locale "") && not (cfg.is_locale locale)
      then bad (protocol_error "locale must be a BCP 47 tag such as el-GR")
      else resolved kind p v

  -- resolve; 0 is PROVIDER_UNSPECIFIED.
  unfoldable pub resolve : Start → Resolved
  resolve s =
      let kind = if s.provider == 0 then cfg.default_provider else s.provider in
      resolve_provider kind s.voice s.locale (cfg.providers kind)

  -- connect: why it failed, if it did.
  unfoldable pub connect : Provider → KeyAnswer → DialAnswer → Option Ending
  connect p no_key dial = some (
      fatal "key_missing" policy_violation key_missing_code
        (cfg.says p.name "no active API key is configured for your workspace"))
  connect p key_failed dial =
      some (fatal "vault_error" internal_error internal "could not load your API key; try again")
  connect p key_found dialed = none
  connect p key_found dial_unauthorized = some (
      fatal "provider_auth" policy_violation provider_auth_failed
        (cfg.says p.name "rejected your API key; update it in the dashboard"))
  connect p key_found dial_limited = some (
      fatal "provider_rate_limited" try_again_later provider_unavailable_code
        (cfg.says p.name "rate limit reached; try again shortly"))
  connect p key_found dial_failed = some (
      fatal "provider_unavailable" internal_error provider_unavailable_code
        (cfg.says p.name "could not reach; try again"))

  abbrev pub session_limit : Ending
  session_limit =
      fatal "session_limit" policy_violation session_limit_reached
        "too many concurrent voice sessions"

  -- What is left of run once the session has a slot: the slot is given back at the end.
  abbrev pub run_connected :
      ℕ → Bool → Ending → (Gate → Gate) → Gate → Option Ending → Ending × Gate
  run_connected id written body others g (some e) = (e, release id g)
  run_connected id written body others g none =
      if written then (body, release id (others g)) else (end_client_closed, release id g)

  abbrev pub run_limited :
      Provider
      → KeyAnswer
      → DialAnswer
      → Bool
      → Ending
      → (Gate → Gate)
      → Option ℕ × Gate
      → Ending × Gate
  run_limited p key dial written body others (none, g) = (session_limit, g)
  run_limited p key dial written body others (some id, g) =
      run_connected id written body others g (connect p key dial)

  abbrev pub run_resolved :
      ℕ → KeyAnswer → DialAnswer → Bool → Ending → (Gate → Gate) → Gate → Resolved → Ending × Gate
  run_resolved tenant key dial written body others g (bad e) = (e, g)
  run_resolved tenant key dial written body others g (resolved kind p voice) =
      run_limited p key dial written body others (acquire tenant g)

  -- run: `written` is whether SessionReady was sent, `body` what the loops end the session with, and
  -- `others` what other sessions do to the limiter in the meantime.
  unfoldable pub run_session :
      ℕ → Start → KeyAnswer → DialAnswer → Bool → Ending → (Gate → Gate) → Gate → Ending × Gate
  run_session tenant start key dial written body others g =
      run_resolved tenant key dial written body others g (resolve start)

  -- A tick of watchdog.
  unfoldable pub watchdog : ℕ → ℕ → ℕ → VoiceSession → VoiceSession
  watchdog started last_audio now s =
      if not (ltb now (started + cfg.max_duration))
      then finish_session
          (fatal "max_duration" going_away session_expired
            "the session reached its maximum duration; reconnect to continue")
          s
      else if ltb cfg.idle_timeout (now - last_audio)
      then finish_session
          (fatal "idle" going_away session_expired "no audio received; the session idled out") s
      else s

module _ {B : Type 0} (take_tokens : ℕ → ℕ → B → Bool × B) where
  abbrev pub after_audio : VoiceSession → Option Ending × Uplink B → Bool × VoiceSession × Uplink B
  after_audio s (none, u) = (true, s, u)
  after_audio s (some e, u) = (false, finish_session e s, u)

  -- One message of readerLoop: whether it reads on.
  unfoldable pub read_message :
      ℕ → ClientMessage → VoiceSession → Uplink B → Bool × VoiceSession × Uplink B
  read_message now (input_audio pcm) s u = after_audio s (accept_audio take_tokens now pcm u)
  read_message now cancel_message s u = (true, interrupt true s, u)
  read_message now end_message s u = (false, finish_session end_client_ended s, u)
  read_message now unexpected_message s u =
      (false, finish_session (protocol_error "unexpected message after StartSession") s, u)

  -- readerLoop over the messages, until the socket closes.
  unfoldable pub reader_loop :
      List (ℕ × ClientMessage) → VoiceSession → Uplink B → VoiceSession × Uplink B
  reader_loop [] s u = (finish_session end_client_closed s, u)
  reader_loop ((now, m) ∷ ms) s u =
      let (on, s', u') = read_message now m s u in
      let rest = reader_loop ms s' u' in if on then rest else (s', u')

abbrev pub written_item : Bool → VoiceSession → Option OutItem × Outbox → VoiceSession
written_item sent s (none, out) = s
written_item sent s (some item, out) =
    if sent
    then record s { out = mark_delivered item out }
    else finish_session end_client_closed (record s { out = out })

-- A round of writerLoop: the first item of the queue is written to the client, or that fails.
unfoldable pub write_next : Bool → VoiceSession → VoiceSession
write_next sent s = written_item sent s (try_pop s.out)
