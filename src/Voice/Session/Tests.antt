-- ===== src/Voice/Session/Tests.antt =====
-- A session at concrete events: a response is interrupted, audio is forwarded, a start is refused.
use cratos_ai.Prelude.{ℕ, refl, Bool, true, none, some, List, [], ◌∷◌, String, arith}
use cratos_ai.Voice.Limiter.{Gate, new_limiter}
use cratos_ai.Voice.Outbox.{new_outbox}
use cratos_ai.Voice.Session.{
  ProviderEvent, audio_delta, speech_stops, response_starts, ServerMessage, VoiceSession,
  end_client_ended,
}
use cratos_ai.Voice.Session.Upstream.{Uplink, Op, receives, forwards, run}
use cratos_ai.Voice.Session.Upstream.Sound.{Sound, run-Sound}
use cratos_ai.Voice.Session.Starting.{Start, Config, key_found, dial_limited, run_session}
use cratos_ai.Voice.Session.Starting.Slots.{SameCounts, run_session-SameCounts}

abbrev encoding : ServerMessage → String
encoding m = "m"

-- Response 2 is heard.
abbrev heard : VoiceSession
heard = record {
  out = new_outbox 8;
  jarvis = none;
  current_response = 2;
  current_item = 20;
  interrupted = [];
  controls = [];
  end = none;
}

abbrev late_audio : List (ℕ × ProviderEvent)
late_audio =
    (1, audio_delta 2 20 "aa" 96)
    ∷ (2, speech_stops 30)
    ∷ (3, response_starts 4)
    ∷ (4, audio_delta 2 20 "ab" 96)
    ∷ (5, audio_delta 4 40 "b" 48)
    ∷ []

abbrev generous : ℕ → ℕ → Unit {0} → Bool × Unit {0}
generous n now b = (true, b)

abbrev quiet : Uplink (Unit {0})
quiet = record {
  bucket = tt;
  audio_in = [];
  last_audio = 0;
  bytes_in = 0;
  accepted = [];
  appended = [];
}

abbrev frames : List (Op generous)
frames =
    receives 1 (1 ∷ 2 ∷ [])
    ∷ receives 2 (3 ∷ 4 ∷ [])
    ∷ forwards
    ∷ receives 3 (5 ∷ [])
    ∷ receives 4 (6 ∷ 7 ∷ [])
    ∷ []

run-Sound_example : Sound (run generous frames quiet)
run-Sound_example = run-Sound generous frames quiet (refl, tt, tt, omega arith)

abbrev two_slots : Gate
two_slots = record { limiter = new_limiter 2 1; leases = [] }

abbrev configured : Config
configured = record {
  providers = λ k. some (record { name = "openai"; default_voice = "marin" });
  default_provider = 1;
  is_voice = λ s. true;
  is_locale = λ s. true;
  not_enabled = λ k. "provider is not enabled on this gateway";
  says = λ name s. s;
  max_duration = 1000;
  idle_timeout = 100;
}

abbrev greek : Start
greek = record { provider = 0; voice = ""; locale = "el-GR" }

run_session-SameCounts_example :
    SameCounts two_slots
      (run_session configured 7 greek key_found dial_limited true end_client_ended
        (λ x. x)
        two_slots).1
run_session-SameCounts_example =
    run_session-SameCounts configured 7 greek key_found dial_limited true end_client_ended two_slots
