-- ===== src/Voice/Session/Upstream.antt =====
-- The audio of the client: acceptAudio, readerLoop and upstreamLoop of
-- services/voice-gateway/internal/session/session.go. The token bucket is floating-point: what it
-- answers is given, with the state that it keeps.
pub mod Sound
use cratos_ai.Prelude.{
  ℕ, ◌+◌, ◌*◌, ◌%◌, ◌≤◌, ◌<◌, ltb, leb, ◌==◌, ◌≡◌, refl, sym, ◌∙◌, ap, Bool, true, false, not, ◌&&◌,
  ◌||◌, Option, none, some, List, [], ◌∷◌, ◌++◌, arith, length, length-append, append_assoc,
  append-nil, All, All-append, if◌then◌else◌, Bool-cases, inl, inr,
}
use cratos_ai.Voice.Session.{
  Ending, fatal, end_client_ended, policy_violation, invalid_message, rate_limited_code,
  bytes_per_millisecond,
}

abbrev pub max_frame_bytes : ℕ
max_frame_bytes = 100 * bytes_per_millisecond

abbrev pub audio_backlog : ℕ
audio_backlog = 100

abbrev pub max_batch_bytes : ℕ
max_batch_bytes = 2 * max_frame_bytes

-- A message of the client after StartSession.
pub data ClientMessage : Type 0 where
  input_audio : List ℕ → ClientMessage
  cancel_message end_message unexpected_message : ClientMessage

abbrev pub invalid_frame : Ending
invalid_frame =
    fatal "protocol_error" policy_violation invalid_message
      "audio frames must be PCM16 of 1 to 4800 bytes"

abbrev pub too_fast : Ending
too_fast =
    fatal "rate_limited" policy_violation rate_limited_code
      "audio is arriving faster than real time"

abbrev pub backlog_exceeded : Ending
backlog_exceeded =
    fatal "rate_limited" policy_violation rate_limited_code
      "audio backlog exceeded; the provider is not keeping up"

abbrev pub is_frame : List ℕ → Bool
is_frame pcm =
    not (length pcm == 0 || not (length pcm % 2 == 0) || ltb max_frame_bytes (length pcm))

abbrev pub join : List (List ℕ) → List ℕ
join [] = []
join (x ∷ xs) = x ++ join xs

-- The drain of upstreamLoop: the frames that wait are merged while the batch is short.
unfoldable pub drain : List (List ℕ) → List ℕ → List ℕ × List (List ℕ)
drain [] batch = (batch, [])
drain (more ∷ waiting) batch =
    let merged = drain waiting (batch ++ more) in
    if ltb (length batch) max_batch_bytes then merged else (batch, more ∷ waiting)

-- The token bucket, the channel audioIn and the counters of a session, with the frames that were
-- accepted and the batches that the provider was sent.
pub record Uplink (B : Type 0) : Type 0 where
  pub bucket : B
  pub audio_in : List (List ℕ)
  pub last_audio : ℕ
  pub bytes_in : ℕ
  pub accepted : List (List ℕ)
  pub appended : List (List ℕ)

abbrev pub forward_from : {B : Type 0} → List (List ℕ) → Uplink B → Uplink B
forward_from [] u = u
forward_from (first ∷ waiting) u =
    let (batch, rest) = drain waiting first in
    record u { audio_in = rest; appended = u.appended ++ batch ∷ [] }

-- One round of upstreamLoop, while the provider takes the audio.
unfoldable pub forward : {B : Type 0} → Uplink B → Uplink B
forward u = forward_from u.audio_in u

module _ {B : Type 0} (take_tokens : ℕ → ℕ → B → Bool × B) where
  abbrev pub queued : ℕ → List ℕ → Uplink B → Uplink B
  queued now pcm u = record u {
    audio_in = u.audio_in ++ pcm ∷ [];
    last_audio = now;
    bytes_in = u.bytes_in + length pcm;
    accepted = u.accepted ++ pcm ∷ [];
  }

  -- acceptAudio
  unfoldable pub accept_audio : ℕ → List ℕ → Uplink B → Option Ending × Uplink B
  accept_audio now pcm u =
      let (taken, bucket) = take_tokens (length pcm) now u.bucket in
      let u' : Uplink B = record u { bucket = bucket } in
      if not (is_frame pcm)
      then (some invalid_frame, u)
      else if not taken
      then (some too_fast, u')
      else if leb audio_backlog (length u.audio_in)
      then (some backlog_exceeded, u')
      else (none, queued now pcm u')

  pub data Op : Type 0 where
    receives : ℕ → List ℕ → Op
    forwards : Op

  unfoldable pub step : Op → Uplink B → Uplink B
  step (receives now pcm) u = (accept_audio now pcm u).1
  step forwards u = forward u

  unfoldable pub run : List Op → Uplink B → Uplink B
  run [] u = u
  run (op ∷ ops) u = run ops (step op u)
