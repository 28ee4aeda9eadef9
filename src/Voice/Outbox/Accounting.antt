-- ===== src/Voice/Outbox/Accounting.antt =====
-- Every byte of an assistant's speech is queued, delivered or dropped.
use cratos_ai.Prelude.{
  ℕ, ◌+◌, leb, ◌==◌, ◌≡◌, refl, not, List, [], ◌∷◌, ◌++◌, arith, length, select_where, Bool-cases,
  inl, inr, Result, ok, err, ap, sym, ◌∙◌,
}
use cratos_ai.Voice.Counts.{get, get-put}
use cratos_ai.Voice.Outbox.{
  OutItem, Outbox, enqueue, signal, push, mark_delivered, is_audio, queued_bytes, drop_loop,
  drop_audio,
}

-- The provider's side pushes an item; the writer pops one, sends it and marks it; the user barges in
-- on an item.
pub data Op : Type 0 where
  pushes : OutItem → Op
  sends : Op
  barges : ℕ → Op

abbrev pub send : Outbox → List OutItem → Outbox
send o [] = o
send o (item ∷ rest) = mark_delivered item (record o { items = rest })

unfoldable pub step : Op → Outbox → Outbox
step (pushes item) o = (push item o).1
step sends o = send o o.items
step (barges id) o = (drop_audio id o).1

unfoldable pub run : List Op → Outbox → Outbox
run [] o = o
run (op ∷ ops) o = run ops (step op o)

abbrev pub accepted_bytes : ℕ → OutItem → Result (Unit {0}) → ℕ
accepted_bytes id item (ok u) = queued_bytes id (item ∷ [])
accepted_bytes id item (err e) = 0

-- The bytes of an item's audio that pushes took in.
abbrev pub pushed_bytes : ℕ → List Op → Outbox → ℕ
pushed_bytes id [] o = 0
pushed_bytes id (pushes item ∷ ops) o =
    accepted_bytes id item (push item o).0 + pushed_bytes id ops (step (pushes item) o)
pushed_bytes id (op ∷ ops) o = pushed_bytes id ops (step op o)

-- The bytes of an item's audio that barge-ins threw away, of that item or of another.
abbrev pub dropped_bytes : ℕ → List Op → Outbox → ℕ
dropped_bytes id [] o = 0
dropped_bytes id (barges key ∷ ops) o =
    queued_bytes id o.items + dropped_bytes id ops (step (barges key) o)
dropped_bytes id (op ∷ ops) o = dropped_bytes id ops (step op o)

queued-append :
    (id : ℕ) (xs ys : List OutItem)
    → queued_bytes id (xs ++ ys) ≡ queued_bytes id xs + queued_bytes id ys
queued-append id [] ys = omega arith
queued-append id (x ∷ xs) ys = ground (arith, queued-append id xs ys)

drop_loop-answer :
    (id : ℕ) (xs : List OutItem)
    → drop_loop id xs ≡ (queued_bytes id xs, select_where (λ x. not (is_audio x)) xs)
drop_loop-answer id [] = refl
drop_loop-answer id (x ∷ xs) = elim (Bool-cases (is_audio x)) [
  | inl a ↦ elim (Bool-cases (x.item_id == id)) [
    | inl e ↦ rw (a, e, drop_loop-answer id xs) refl
    | inr e ↦ rw (a, e, drop_loop-answer id xs) refl
  ]
  | inr a ↦ rw (a, drop_loop-answer id xs) refl
]

queued-kept :
    (id : ℕ) (xs : List OutItem) → queued_bytes id (select_where (λ x. not (is_audio x)) xs) ≡ 0
queued-kept id [] = refl
queued-kept id (x ∷ xs) = elim (Bool-cases (is_audio x)) [
  | inl a ↦ rw a (queued-kept id xs)
  | inr a ↦ rw a (ground (arith, queued-kept id xs))
]

-- dropAudio answers the bytes of the item that were in the queue and those that had reached the
-- client; it takes all audio out of the queue, of any item, and leaves the rest in its order.
pub drop_audio-answer :
    (id : ℕ) (o : Outbox)
    → drop_audio id o ≡ (
      (queued_bytes id o.items, get id o.delivered),
      record o { items = select_where (λ x. not (is_audio x)) o.items },
    )
unfolding drop_audio
drop_audio-answer id o = rw (drop_loop-answer id o.items) refl

-- Where an item's bytes are.
abbrev pub in_hand : ℕ → Outbox → ℕ
in_hand id o = queued_bytes id o.items + get id o.delivered

push-in_hand :
    (id : ℕ) (item : OutItem) (o : Outbox)
    → in_hand id (push item o).1 ≡ in_hand id o + accepted_bytes id item (push item o).0
unfolding push enqueue signal
push-in_hand id item o = elim (Bool-cases (leb o.capacity (length o.items))) [
  | inl e ↦ rw e (omega arith)
  | inr e ↦ rw e (omega (arith, queued-append id o.items (item ∷ [])))
]

mark-in_hand :
    (id : ℕ) (item : OutItem) (rest : List OutItem) (o : Outbox)
    → in_hand id (mark_delivered item (record o { items = rest }))
      ≡ queued_bytes id (item ∷ rest) + get id o.delivered
unfolding mark_delivered
mark-in_hand id item rest o = elim (Bool-cases (item.audio_bytes == 0)) [
  | inl e ↦ rw e (ground arith)
  | inr e ↦
      let n = get item.item_id o.delivered + item.audio_bytes in
      rw e (ground (arith, get-put item.item_id id n o.delivered))
]

sends-in_hand :
    (id : ℕ) (o : Outbox) (xs : List OutItem) → o.items ≡ xs → in_hand id (send o xs) ≡ in_hand id o
sends-in_hand id o [] e = refl
sends-in_hand id o (x ∷ xs) e =
    mark-in_hand id x xs o ∙ sym (ap (λ r. queued_bytes id r + get id o.delivered) e)

barges-in_hand :
    (id key : ℕ) (o : Outbox)
    → in_hand id (drop_audio key o).1 + queued_bytes id o.items ≡ in_hand id o
unfolding drop_audio
barges-in_hand id key o =
    let kept = ap (λ r. queued_bytes id r.1) (drop_loop-answer key o.items) in
    omega (arith, kept, queued-kept id o.items)

-- Whatever is pushed, sent and dropped, in any order, no byte of an item's audio is lost or made:
-- what is queued and delivered at the end, with what barge-ins dropped, is what was queued and
-- delivered at the start, with what the accepted pushes brought.
pub outbox_accounts :
    (id : ℕ) (ops : List Op) (o : Outbox)
    → in_hand id (run ops o) + dropped_bytes id ops o ≡ in_hand id o + pushed_bytes id ops o
unfolding run step
outbox_accounts id [] o = refl
outbox_accounts id (pushes item ∷ ops) o =
    omega (arith, outbox_accounts id ops (push item o).1, push-in_hand id item o)
outbox_accounts id (sends ∷ ops) o =
    omega (arith, outbox_accounts id ops (send o o.items), sends-in_hand id o o.items refl)
outbox_accounts id (barges key ∷ ops) o =
    omega (arith, outbox_accounts id ops (drop_audio key o).1, barges-in_hand id key o)
