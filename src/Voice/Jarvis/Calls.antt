-- ===== src/Voice/Jarvis/Calls.antt =====
-- The calls that a session runs at a time, and the batches that their outputs wait in.
use cratos_ai.Prelude.{
  ℕ, ◌+◌, ◌≤◌, leb, ◌==◌, ◌≡◌, refl, sym, ◌∙◌, Bool, true, false, not, none, some, List, [], ◌∷◌,
  ◌++◌, arith, length, length-append, All, All-append, count_where, select_where, find_where,
  update_where, if◌then◌else◌, is_some, ==→eq, Bool-cases, Option-cases, inl, inr,
}
use cratos_ai.Prelude.Rows.{All-find, All-select}
use cratos_ai.Voice.Jarvis.Model.{
  ToolResult, CallBatch, Running, Workers, Jarvis, max_calls_in_flight,
}
use cratos_ai.Voice.Jarvis.Delivery.{respond, is_batch_of, is_deliverable, deliver}
use cratos_ai.Voice.Jarvis.Handlers.{returned, one_more, new_batch, expect_call, start_worker}
use cratos_ai.Voice.Jarvis.Steps.{is_run_of, without_run}
use cratos_ai.Voice.Jarvis.Keeping.{respond-keeps, deliver-keeps}

abbrev pub runs_for : ℕ → Running → Bool
runs_for response_id w = w.response_id == response_id

abbrev pub Balanced : List Running → CallBatch → Type 0
Balanced ws b = b.outstanding ≡ count_where (runs_for b.response_id) ws

abbrev pub Awaited : List CallBatch → Running → Type 0
Awaited bs w = is_some (find_where (is_batch_of w.response_id) bs) ≡ true

abbrev pub CallsFor : Workers → List CallBatch → Type 0
CallsFor s bs =
    (s.in_flight ≡ length s.running)
    × (s.in_flight ≤ max_calls_in_flight)
    × All (Balanced s.running) bs
    × All (Awaited bs) s.running

-- The calls of a session are counted: in all, where they are at most eight, and for each response;
-- and there is a batch for the result of each.
abbrev pub Counted : Jarvis → Type 0
Counted j = CallsFor j.workers j.batches

none_run :
    (id : ℕ) (bs : List CallBatch) (ws : List Running)
    → find_where (is_batch_of id) bs ≡ none
    → All (Awaited bs) ws
    → count_where (runs_for id) ws ≡ 0
none_run id bs [] e h = refl
none_run id bs (w ∷ ws) e (hw, h) = elim (Bool-cases (w.response_id == id)) [
  | inl t ↦
      let same : w.response_id ≡ id = ==→eq w.response_id id t in
      let found : is_some (find_where (is_batch_of id) bs) ≡ true = rw same at hw in
      absurd (cc (rw e at found))
  | inr t ↦ rw t (none_run id bs ws e h)
]

pub find-update_same :
    (p : CallBatch → Bool) (f : CallBatch → CallBatch) (id : ℕ) (bs : List CallBatch)
    → ((b : CallBatch) → (f b).response_id ≡ b.response_id)
    → is_some (find_where (is_batch_of id) (update_where p f bs))
      ≡ is_some (find_where (is_batch_of id) bs)
find-update_same p f id [] same = refl
find-update_same p f id (b ∷ bs) same = ground (arith, same b, find-update_same p f id bs same)

pub Awaited-update :
    (p : CallBatch → Bool) (f : CallBatch → CallBatch) (bs : List CallBatch)
    → ((b : CallBatch) → (f b).response_id ≡ b.response_id)
    → (ws : List Running) → All (Awaited bs) ws
    → All (Awaited (update_where p f bs)) ws
Awaited-update p f bs same [] h = tt
Awaited-update p f bs same (w ∷ ws) (hw, h) =
    let k = find-update_same p f w.response_id bs same in
    (ground (arith, k), Awaited-update p f bs same ws h)

count-snoc :
    (p : Running → Bool) (ws : List Running) (w : Running)
    → count_where p (ws ++ w ∷ []) ≡ count_where p ws + (if p w then 1 else 0)
count-snoc p [] w = ground arith
count-snoc p (x ∷ ws) w = ground (arith, count-snoc p ws w)

find-select_other :
    (id other : ℕ) (bs : List CallBatch)
    → (id == other) ≡ false
    → find_where (is_batch_of id) (select_where (λ x. not (is_batch_of other x)) bs)
      ≡ find_where (is_batch_of id) bs
find-select_other id other [] n = refl
find-select_other id other (b ∷ bs) n = ground (arith, find-select_other id other bs n)

Awaited-select :
    (id : ℕ) (bs : List CallBatch) (ws : List Running)
    → count_where (runs_for id) ws ≡ 0
    → All (Awaited bs) ws
    → All (Awaited (select_where (λ x. not (is_batch_of id x)) bs)) ws
Awaited-select id bs [] n h = tt
Awaited-select id bs (w ∷ ws) n (hw, h) = elim (Bool-cases (w.response_id == id)) [
  | inl t ↦ absurd (ground (arith, t))
  | inr t ↦
      let k = find-select_other w.response_id id bs t in
      (ground (arith, k), Awaited-select id bs ws (ground (arith, t)) h)
]

count-without :
    (p : Running → Bool) (id : ℕ) (ws : List Running) (w : Running)
    → find_where (is_run_of id) ws ≡ some w
    → count_where p (without_run id ws) + (if p w then 1 else 0) ≡ count_where p ws
count-without p id [] w e = cc
count-without p id (x ∷ ws) w e = elim (Bool-cases (is_run_of id x)) [
  | inl t ↦ let same : x ≡ w = ground (arith, t) in rw (t, same) (ground arith)
  | inr t ↦ let k = count-without p id ws w (rw t at e) in rw t (ground (arith, k))
]

pub length-without :
    (id : ℕ) (ws : List Running) (w : Running)
    → find_where (is_run_of id) ws ≡ some w
    → length (without_run id ws) + 1 ≡ length ws
length-without id [] w e = cc
length-without id (x ∷ ws) w e = elim (Bool-cases (is_run_of id x)) [
  | inl t ↦ rw t (omega arith)
  | inr t ↦ let k = length-without id ws w (rw t at e) in rw t (omega (arith, k))
]

pub All-without :
    (P : Running → Type 0) (id : ℕ) (ws : List Running) → All P ws → All P (without_run id ws)
All-without P id [] h = tt
All-without P id (x ∷ ws) (hx, h) = elim (Bool-cases (is_run_of id x)) [
  | inl t ↦ rw t h
  | inr t ↦ rw t (hx, All-without P id ws h)
]

Balanced-select :
    (id : ℕ) (ws : List Running) (bs : List CallBatch)
    → All (Balanced ws) bs
    → All (Balanced ws) (select_where (λ x. not (is_batch_of id x)) bs)
Balanced-select id ws = All-select (Balanced ws) (λ x. not (is_batch_of id x))

find-Balanced :
    (id : ℕ) (ws : List Running) (bs : List CallBatch) (b : CallBatch)
    → find_where (is_batch_of id) bs ≡ some b
    → All (Balanced ws) bs
    → Balanced ws b
find-Balanced id ws bs b e h = (All-find (Balanced ws) (is_batch_of id) bs b e h).1

dropping-CallsFor :
    (s : Workers) (bs : List CallBatch) (b : CallBatch)
    → find_where (is_batch_of b.response_id) bs ≡ some b
    → is_deliverable b ≡ true
    → CallsFor s bs
    → CallsFor s (select_where (λ x. not (is_batch_of b.response_id x)) bs)
dropping-CallsFor s bs b e d (n, m, hb, hw) =
    let own = find-Balanced b.response_id s.running bs b e hb in
    let idle : count_where (runs_for b.response_id) s.running ≡ 0 = ground (arith, own) in
    (
      n,
      m,
      Balanced-select b.response_id s.running bs hb,
      Awaited-select b.response_id bs s.running idle hw,
    )

pub deliver-Counted : (j : Jarvis) → Counted j → Counted (deliver j)
deliver-Counted =
    deliver-keeps Counted (λ j h. h) (λ j e h. h) (λ r j h. h) (λ c j h. h)
      (λ b j f d h. dropping-CallsFor j.workers j.batches b f d h) (λ os j h. h)

pub respond-Counted : (j : Jarvis) → Counted j → Counted (respond j)
respond-Counted =
    respond-keeps Counted (λ j h. h) (λ j e h. h) (λ r j h. h) (λ c j h. h)
      (λ b j f d h. dropping-CallsFor j.workers j.batches b f d h) (λ os j h. h)

-- The batches before an expected call is counted: there is one for its response.
abbrev with_batch : ℕ → List CallBatch → List CallBatch
with_batch id bs = if is_some (find_where (is_batch_of id) bs) then bs else new_batch id ∷ bs

Awaited-more :
    (b : CallBatch) (bs : List CallBatch) (ws : List Running)
    → All (Awaited bs) ws
    → All (Awaited (b ∷ bs)) ws
Awaited-more b bs [] h = tt
Awaited-more b bs (w ∷ ws) (hw, h) = (ground arith, Awaited-more b bs ws h)

with_batch-CallsFor :
    (id : ℕ) (s : Workers) (bs : List CallBatch) → CallsFor s bs → CallsFor s (with_batch id bs)
with_batch-CallsFor id s bs (n, m, hb, hw) = elim (Option-cases (find_where (is_batch_of id) bs)) [
  | inr (b, e) ↦ rw e (n, m, hb, hw)
  | inl e ↦
      rw e (
        n,
        m,
        (sym (none_run id bs s.running e hw), hb),
        Awaited-more (new_batch id) bs s.running hw,
      )
]

with_batch-found :
    (id : ℕ) (bs : List CallBatch) → is_some (find_where (is_batch_of id) (with_batch id bs)) ≡ true
with_batch-found id bs = elim (Option-cases (find_where (is_batch_of id) bs)) [
  | inr (b, e) ↦ rw e (rw e refl)
  | inl e ↦ rw e (ground arith)
]

-- One more call of a response that has a batch.
start-Balanced :
    (w : Running) (ws : List Running) (bs : List CallBatch)
    → All (Balanced ws) bs
    → All (Balanced (ws ++ w ∷ [])) (update_where (is_batch_of w.response_id) one_more bs)
start-Balanced w ws [] h = tt
start-Balanced w ws (b ∷ bs) (hb, h) =
    let k = count-snoc (runs_for b.response_id) ws w in
    (
      elim (Bool-cases (b.response_id == w.response_id)) [
        | inl t ↦ rw t (ground (arith, k, hb))
        | inr t ↦ rw t (ground (arith, k, hb))
      ],
      start-Balanced w ws bs h,
    )

pub start-CallsFor :
    (w : Running) (s : Workers) (bs : List CallBatch)
    → leb max_calls_in_flight s.in_flight ≡ false
    → CallsFor s bs
    → CallsFor (start_worker w s) (expect_call w.response_id bs)
start-CallsFor w s bs l h =
    let id = w.response_id in
    let (n, m, hb, hw) = with_batch-CallsFor id s bs h in
    let found = with_batch-found id bs in
    let same = find-update_same (is_batch_of id) one_more id (with_batch id bs) (λ b. refl) in
    (
      ground (arith, length-append s.running (w ∷ [])),
      ground arith,
      start-Balanced w s.running (with_batch id bs) hb,
      All-append (Awaited (expect_call id bs)) s.running (w ∷ [])
          (Awaited-update (is_batch_of id) one_more (with_batch id bs) (λ b. refl) s.running hw)
          (same ∙ found, tt),
    )

-- A call that is refused at once leaves the counts.
busy-Balanced :
    (id : ℕ) (r : ToolResult) (ws : List Running) (bs : List CallBatch)
    → r.response_id ≡ id
    → All (Balanced ws) bs
    → All (Balanced ws) (
        update_where
          (is_batch_of r.response_id)
          (returned r)
          (update_where (is_batch_of id) one_more bs))
busy-Balanced id r ws [] e h = tt
busy-Balanced id r ws (b ∷ bs) e (hb, h) = (
  elim (Bool-cases (b.response_id == id)) [
    | inl t ↦ rw (e, t) (rw t (ground (arith, hb)))
    | inr t ↦ rw (e, t) (rw t hb)
  ],
  busy-Balanced id r ws bs e h,
)

pub busy-CallsFor :
    (r : ToolResult) (s : Workers) (bs : List CallBatch)
    → CallsFor s bs
    → CallsFor s
        (update_where (is_batch_of r.response_id) (returned r) (expect_call r.response_id bs))
busy-CallsFor r s bs h =
    let id = r.response_id in
    let (n, m, hb, hw) = with_batch-CallsFor id s bs h in
    let more =
      Awaited-update (is_batch_of id) one_more (with_batch id bs) (λ b. refl) s.running hw in
    (
      n,
      m,
      busy-Balanced id r s.running (with_batch id bs) refl hb,
      Awaited-update (is_batch_of id) (returned r) (expect_call id bs) (λ b. refl) s.running more,
    )

-- The result of a goroutine that ends.
pub result-Balanced :
    (r : ToolResult) (w : Running) (ws : List Running) (bs : List CallBatch)
    → r.response_id ≡ w.response_id
    → find_where (is_run_of w.call.call_id) ws ≡ some w
    → All (Balanced ws) bs
    → All
        (Balanced (without_run w.call.call_id ws))
        (update_where (is_batch_of r.response_id) (returned r) bs)
result-Balanced r w ws [] e f h = tt
result-Balanced r w ws (b ∷ bs) e f (hb, h) =
    let k = count-without (runs_for b.response_id) w.call.call_id ws w f in
    (
      elim (Bool-cases (b.response_id == w.response_id)) [
        | inl t ↦ rw (e, t) (ground (arith, k, hb))
        | inr t ↦ rw (e, t) (ground (arith, k, hb))
      ],
      result-Balanced r w ws bs e f h,
    )
