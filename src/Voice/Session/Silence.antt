-- ===== src/Voice/Session/Silence.antt =====
-- Barge-in: a response that was interrupted is not heard again.
use cratos_ai.Prelude.{
  ℕ, ◌==◌, ◌≡◌, Bool, true, false, not, List, String, select_where, holds, ◌||◌, is_some,
}
use cratos_ai.Voice.Session.{
  ProviderEvent, audio_delta, response_ends, ServerMessage, VoiceSession, is_in,
}

abbrev pub is_audio_of : ℕ → ℕ × ProviderEvent → Bool
is_audio_of response (now, audio_delta r item pcm bytes) = r == response
is_audio_of response _ = false

abbrev pub ends_of : ℕ → ℕ × ProviderEvent → Bool
ends_of response (now, response_ends r calls status) = r == response
ends_of response _ = false

-- The events without the audio of the response.
abbrev pub without_audio : ℕ → List (ℕ × ProviderEvent) → List (ℕ × ProviderEvent)
without_audio response = select_where (λ e. not (is_audio_of response e))

module _ (encode : ServerMessage → String) (response : ℕ) where
  abbrev Marked : VoiceSession → Type 0
  Marked s = is_in response s.interrupted ≡ true

  -- A connection that failed has ended the session.
  abbrev pub is_settled : VoiceSession → Bool
  is_settled s = not (holds s.jarvis (λ j. j.connection.failed)) || is_some s.end
