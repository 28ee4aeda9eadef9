-- ===== src/Voice/Session/Upstream/Sound.antt =====
-- The audio of a client reaches the provider whole, in order and in short batches.
use cratos_ai.Prelude.{
  ℕ, ◌+◌, ◌≤◌, ◌<◌, ltb, leb, ◌≡◌, refl, sym, ◌∙◌, ap, Bool, List, [], ◌∷◌, ◌++◌, arith, length,
  length-append, append_assoc, append-nil, All, All-append, Bool-cases, inl, inr,
}
use cratos_ai.Voice.Session.Upstream.{
  max_frame_bytes, audio_backlog, max_batch_bytes, is_frame, join, drain, Uplink, queued,
  accept_audio, forward_from, forward, Op, receives, forwards, step, run,
}

abbrev pub IsFrame : List ℕ → Type 0
IsFrame pcm = (0 < length pcm) × (length pcm ≤ max_frame_bytes)

abbrev pub IsBatch : List ℕ → Type 0
IsBatch batch = (0 < length batch) × (length batch < max_batch_bytes + max_frame_bytes)

-- What is sent and what waits is what was accepted, in order; a batch is short, and so is the queue.
abbrev pub Sound : {B : Type 0} → Uplink B → Type 0
Sound u =
    (join u.appended ++ join u.audio_in ≡ join u.accepted)
    × All IsBatch u.appended
    × All IsFrame u.audio_in
    × (length u.audio_in ≤ audio_backlog)

join-append : (xs ys : List (List ℕ)) → join (xs ++ ys) ≡ join xs ++ join ys
join-append [] ys = refl
join-append (x ∷ xs) ys =
    ap (λ r. x ++ r) (join-append xs ys) ∙ sym (append_assoc x (join xs) (join ys))

drain-bytes :
    (waiting : List (List ℕ)) (batch : List ℕ)
    → (drain waiting batch).0 ++ join (drain waiting batch).1 ≡ batch ++ join waiting
unfolding drain
drain-bytes [] batch = refl
drain-bytes (more ∷ waiting) batch = elim (Bool-cases (ltb (length batch) max_batch_bytes)) [
  | inl e ↦ rw e (drain-bytes waiting (batch ++ more) ∙ append_assoc batch more (join waiting))
  | inr e ↦ rw e refl
]

drain-IsBatch :
    (waiting : List (List ℕ)) (batch : List ℕ)
    → IsBatch batch
    → All IsFrame waiting
    → IsBatch (drain waiting batch).0
unfolding drain
drain-IsBatch [] batch h k = h
drain-IsBatch (more ∷ waiting) batch (l, m) ((lm, mm), k) =
    elim (Bool-cases (ltb (length batch) max_batch_bytes)) [
      | inr e ↦ rw e (l, m)
      | inl e ↦
          let n = length-append batch more in
          rw e (drain-IsBatch waiting (batch ++ more) (omega (arith, n), ground (arith, n)) k)
    ]

drain-IsFrame :
    (waiting : List (List ℕ)) (batch : List ℕ)
    → All IsFrame waiting
    → All IsFrame (drain waiting batch).1 × (length (drain waiting batch).1 ≤ length waiting)
unfolding drain
drain-IsFrame [] batch k = (tt, omega arith)
drain-IsFrame (more ∷ waiting) batch (km, k) =
    let (f, l) = drain-IsFrame waiting (batch ++ more) k in
    elim (Bool-cases (ltb (length batch) max_batch_bytes)) [
      | inl e ↦ rw e (f, omega (arith, l))
      | inr e ↦ rw e ((km, k), omega arith)
    ]

module _ {B : Type 0} where
  forward-Sound :
      (u : Uplink B) (frames : List (List ℕ))
      → u.audio_in ≡ frames
      → Sound u
      → Sound (forward_from frames u)
  forward-Sound u [] e h = h
  forward-Sound u (first ∷ waiting) e (same, batches, frames, short) =
      let (batch, rest) = drain waiting first in
      let ((l, m), more) = rw e at frames in
      let (f, n) = drain-IsFrame waiting first more in
      let b = drain-IsBatch waiting first (l, omega (arith, m)) more in
      let kept : join u.appended ++ (first ++ join waiting) ≡ join u.accepted = rw e at same in
      (
        simp (join-append, append_assoc, append-nil, drain-bytes waiting first) kept,
        All-append IsBatch u.appended (batch ∷ []) batches (b, tt),
        f,
        omega (arith, n, rw e at short),
      )

  module _ (take_tokens : ℕ → ℕ → B → Bool × B) where
    queued-Sound :
        (now : ℕ) (pcm : List ℕ) (u : Uplink B)
        → IsFrame pcm
        → length u.audio_in < audio_backlog
        → Sound u
        → Sound (queued take_tokens now pcm u)
    queued-Sound now pcm u h l (same, batches, frames, short) = (
      simp (join-append, append-nil, ← same, append_assoc) refl,
      batches,
      All-append IsFrame u.audio_in (pcm ∷ []) frames (h, tt),
      omega (arith, length-append u.audio_in (pcm ∷ [])),
    )

    accept_audio-Sound :
        (now : ℕ) (pcm : List ℕ) (u : Uplink B)
        → Sound u
        → Sound (accept_audio take_tokens now pcm u).1
    unfolding accept_audio
    accept_audio-Sound now pcm u h = elim (Bool-cases (is_frame pcm)) [
      | inr e ↦ rw e h
      | inl e ↦ elim (Bool-cases (take_tokens (length pcm) now u.bucket).0) [
        | inr t ↦ rw (e, t) h
        | inl t ↦ elim (Bool-cases (leb audio_backlog (length u.audio_in))) [
          | inl f ↦ rw (e, t, f) h
          | inr f ↦
              let u' : Uplink B = record u { bucket = (take_tokens (length pcm) now u.bucket).1 } in
              rw (e, t, f) (queued-Sound now pcm u' (ground arith, ground arith) (ground arith) h)
        ]
      ]
    ]

    step-Sound : (op : Op take_tokens) (u : Uplink B) → Sound u → Sound (step take_tokens op u)
    unfolding step forward
    step-Sound (receives now pcm) u h = accept_audio-Sound now pcm u h
    step-Sound forwards u h = forward-Sound u u.audio_in refl h

    -- No audio of the user is lost, reordered or held back beyond its bounds. Through every sequence
    -- of frames that arrive and of rounds in which the provider takes the audio, what the provider
    -- was sent, followed by what waits, is what was accepted, byte by byte; each batch that was sent
    -- has at least one byte and fewer than three frames of the greatest size, each frame that waits
    -- at most one; and at most a hundred frames wait. It holds afterwards where it held before.
    pub run-Sound :
        (ops : List (Op take_tokens)) (u : Uplink B) → Sound u → Sound (run take_tokens ops u)
    unfolding run
    run-Sound [] u h = h
    run-Sound (op ∷ ops) u h = run-Sound ops (step take_tokens op u) (step-Sound op u h)
