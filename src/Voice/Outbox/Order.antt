-- ===== src/Voice/Outbox/Order.antt =====
-- The outbox is bounded, and what is not audio goes out in order.
use cratos_ai.Prelude.{
  append_assoc, ℕ, ◌≤◌, leb, ◌==◌, ◌≡◌, refl, Bool, not, List, [], ◌∷◌, ◌++◌, arith, length,
  select_where, Bool-cases, inl, inr, Result, ok, err, ap, sym, ◌∙◌, length-append,
  select_where-append,
}
use cratos_ai.Voice.Outbox.{
  OutItem, Outbox, enqueue, signal, push, mark_delivered, is_audio, drop_audio, len,
}
use cratos_ai.Voice.Outbox.Accounting.{
  Op, pushes, sends, barges, send, step, run, drop_audio-answer,
}

abbrev pub is_control : OutItem → Bool
is_control x = not (is_audio x)

abbrev pub controls : List OutItem → List OutItem
controls xs = select_where is_control xs

abbrev pub if_accepted : OutItem → Result (Unit {0}) → List OutItem
if_accepted item (ok u) = item ∷ []
if_accepted item (err e) = []

-- The items that pushes took in, in order.
abbrev pub accepted : List Op → Outbox → List OutItem
accepted [] o = []
accepted (pushes item ∷ ops) o =
    if_accepted item (push item o).0 ++ accepted ops (step (pushes item) o)
accepted (op ∷ ops) o = accepted ops (step op o)

abbrev pub first : List OutItem → List OutItem
first [] = []
first (x ∷ xs) = x ∷ []

-- The items that were sent, in order.
abbrev pub sent : List Op → Outbox → List OutItem
sent [] o = []
sent (sends ∷ ops) o = first o.items ++ sent ops (step sends o)
sent (op ∷ ops) o = sent ops (step op o)

append_nil : (xs : List OutItem) → xs ++ [] ≡ xs
append_nil [] = refl
append_nil (x ∷ xs) = ap (λ r. x ∷ r) (append_nil xs)

push-items :
    (item : OutItem) (o : Outbox)
    → (push item o).1.items ≡ o.items ++ if_accepted item (push item o).0
unfolding push enqueue signal
push-items item o = elim (Bool-cases (leb o.capacity (length o.items))) [
  | inl e ↦ rw e (sym (append_nil o.items))
  | inr e ↦ rw e refl
]

mark-items : (item : OutItem) (o : Outbox) → (mark_delivered item o).items ≡ o.items
unfolding mark_delivered
mark-items item o = elim (Bool-cases (item.audio_bytes == 0)) [
  | inl e ↦ rw e refl
  | inr e ↦ rw e refl
]

send-items :
    (o : Outbox) (xs : List OutItem) → o.items ≡ xs → first xs ++ (send o xs).items ≡ o.items
send-items o [] e = refl
send-items o (x ∷ xs) e = ap (λ r. x ∷ r) (mark-items x (record o { items = xs })) ∙ sym e

controls-controls : (xs : List OutItem) → controls (controls xs) ≡ controls xs
controls-controls [] = refl
controls-controls (x ∷ xs) = elim (Bool-cases (is_control x)) [
  | inl e ↦ rw (e, e) (ap (λ r. x ∷ r) (controls-controls xs))
  | inr e ↦ rw e (controls-controls xs)
]

-- No message but audio is lost, doubled or overtaken by another: those that were sent, followed by
-- those that are still queued, are those that were queued, followed by those that pushes took in.
pub controls-in_order :
    (ops : List Op) (o : Outbox)
    → controls (sent ops o) ++ controls (run ops o).items
      ≡ controls o.items ++ controls (accepted ops o)
unfolding run step
controls-in_order [] o = sym (append_nil (controls o.items))
controls-in_order (pushes item ∷ ops) o =
    let o' = (push item o).1 in
    let new = if_accepted item (push item o).0 in
    controls-in_order ops o'
    ∙ rw
        (
          push-items item o,
          select_where-append is_control o.items new,
          select_where-append is_control new (accepted ops o'),
        )
        (append_assoc (controls o.items) (controls new) _)
controls-in_order (sends ∷ ops) o =
    let o' = send o o.items in
    let go = first o.items in
    ap (λ r. r ++ controls (run ops o').items) (select_where-append is_control go (sent ops o'))
    ∙ append_assoc (controls go) (controls (sent ops o')) (controls (run ops o').items)
    ∙ ap (λ r. controls go ++ r) (controls-in_order ops o')
    ∙ sym (append_assoc (controls go) (controls o'.items) (controls (accepted ops o')))
    ∙ ap (λ r. r ++ controls (accepted ops o'))
        (sym (select_where-append is_control go o'.items) ∙ ap controls (send-items o o.items refl))
controls-in_order (barges key ∷ ops) o =
    let o' = (drop_audio key o).1 in
    controls-in_order ops o'
    ∙ ap (λ r. r ++ controls (accepted ops o'))
        (ap (λ r. controls r.1.items) (drop_audio-answer key o) ∙ controls-controls o.items)

length-controls : (xs : List OutItem) → length (controls xs) ≤ length xs
length-controls [] = omega arith
length-controls (x ∷ xs) = ground (arith, length-controls xs)

abbrev Bounded : ℕ → Outbox → Type 0
Bounded capacity o = (length o.items ≤ capacity) × (o.capacity ≡ capacity)

push-Bounded :
    (item : OutItem) (capacity : ℕ) (o : Outbox)
    → Bounded capacity o
    → Bounded capacity (push item o).1
unfolding push enqueue signal
push-Bounded item capacity o (h, c) = elim (Bool-cases (leb o.capacity (length o.items))) [
  | inl e ↦ rw e (h, c)
  | inr e ↦ rw e (ground (arith, length-append o.items (item ∷ [])), c)
]

mark-Bounded :
    (item : OutItem) (capacity : ℕ) (o : Outbox)
    → Bounded capacity o
    → Bounded capacity (mark_delivered item o)
unfolding mark_delivered
mark-Bounded item capacity o h = elim (Bool-cases (item.audio_bytes == 0)) [
  | inl e ↦ rw e h
  | inr e ↦ rw e h
]

send-Bounded :
    (capacity : ℕ) (o : Outbox) (xs : List OutItem)
    → o.items ≡ xs
    → Bounded capacity o
    → Bounded capacity (send o xs)
send-Bounded capacity o [] e h = h
send-Bounded capacity o (x ∷ xs) e (h, c) =
    mark-Bounded x capacity (record o { items = xs }) (omega (arith, h, ap length e), c)

drop-Bounded :
    (key capacity : ℕ) (o : Outbox) → Bounded capacity o → Bounded capacity (drop_audio key o).1
drop-Bounded key capacity o (h, c) =
    rw (drop_audio-answer key o) (omega (arith, length-controls o.items), c)

run-Bounded :
    (ops : List Op) (capacity : ℕ) (o : Outbox) → Bounded capacity o → Bounded capacity (run ops o)
unfolding run step
run-Bounded [] capacity o h = h
run-Bounded (pushes item ∷ ops) capacity o h =
    run-Bounded ops capacity (push item o).1 (push-Bounded item capacity o h)
run-Bounded (sends ∷ ops) capacity o h =
    run-Bounded ops capacity (send o o.items) (send-Bounded capacity o o.items refl h)
run-Bounded (barges key ∷ ops) capacity o h =
    run-Bounded ops capacity (drop_audio key o).1 (drop-Bounded key capacity o h)

-- An outbox that starts within its capacity never holds more items than that.
pub outbox_bounded :
    (ops : List Op) (o : Outbox) → len o ≤ o.capacity → len (run ops o) ≤ o.capacity
unfolding len
outbox_bounded ops o h = (run-Bounded ops o.capacity o (h, refl)).0
