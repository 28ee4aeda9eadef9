-- ===== src/Voice/Jarvis/Reporting.antt =====
-- When the questions of a conversation are reported: services/voice-gateway/internal/session/jarvis.go
-- tells the orchestrator that a question was asked when a response that speaks it is created.
use cratos_ai.Prelude.{ℕ, ◌≡◌, refl, ◌∙◌, List, [], ◌++◌, Bool-cases, inl, inr, map, append-nil}
use cratos_ai.Voice.Jarvis.Model.{Jarvis}
use cratos_ai.Voice.Jarvis.Delivery.{is_empty}
use cratos_ai.Voice.Jarvis.Handlers.{start_acks, spoken_by, response_created}
use cratos_ai.Voice.Jarvis.Steps.{Event, step, run, creates_response}
use cratos_ai.Voice.Jarvis.Questions.{
  questions, accounted, Accounted, empty-nil, step-Accounted, run-Accounted,
}

-- The creation of a response reports what it speaks, and what was added after its request waits.
created-reports :
    (id : ℕ) (j : Jarvis)
    → let after = response_created id j in
      (after.speech.reports
        ≡ j.speech.reports
          ++ map (λ q. record { question = q; turn = j.turns.user_turn }) j.speech.unspoken.acks)
      × (after.speech.unspoken.acks ≡ j.speech.after_request.acks)
      × (after.speech.after_request.acks ≡ [])
unfolding response_created spoken_by start_acks
created-reports id j = elim (Bool-cases (is_empty j.speech.unspoken.acks)) [
  | inl e ↦ rw e (simp (empty-nil j.speech.unspoken.acks e, append-nil) refl, refl, refl)
  | inr e ↦ rw e (refl, refl, refl)
]

-- Every question is reported once, in order, by a response that speaks it. Through every sequence of
-- events, the questions that the conversation has been given are, in order, those that have been
-- reported, then those that the next response speaks, then those that were added while a response was
-- being asked for; and nothing waits in the last place unless one is being asked for. When a response
-- is created, every question that was given before it was asked for has been reported: those that
-- were not yet are reported then, at the present turn of the user. It holds after the events where
-- the first part held before.
pub run-Reported :
    (es : List Event) (id : ℕ) (j : Jarvis)
    → Accounted j
    → let before = run es j in
      let after = step (creates_response id) before in
      Accounted before
      × (after.speech.reports
          ≡ before.speech.reports
            ++ map
                (λ q. record { question = q; turn = before.turns.user_turn })
                before.speech.unspoken.acks)
      × (questions after.connection.sent
          ≡ map (λ r. r.question) after.speech.reports ++ before.speech.after_request.acks)
unfolding step
run-Reported es id j h =
    let before = run es j in
    let k = run-Accounted es j h in
    let (reports, waits, none_after) = created-reports id before in
    let (e, _) = step-Accounted (creates_response id) before k in
    let after = response_created id before in
    let told = map (λ r. r.question) after.speech.reports in
    let tail : accounted after.speech ≡ told ++ before.speech.after_request.acks =
      rw (waits, none_after) (append-nil (told ++ before.speech.after_request.acks)) in
    (k, reports, e ∙ tail)
