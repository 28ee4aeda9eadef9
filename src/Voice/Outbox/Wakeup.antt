-- ===== src/Voice/Outbox/Wakeup.antt =====
-- pop and push in any interleaving: push queues its item under the lock and signals after it, and pop
-- waits for a signal once it has seen an empty queue.
use cratos_ai.Prelude.{
  ℕ, suc, ◌+◌, leb, ◌≡◌, refl, ltb, not, ◌||◌, ok, err, rejected, Bool, true, false, none, some,
  List, [], ◌∷◌, arith, length, inl, inr, Bool-cases,
}
use cratos_ai.Voice.Outbox.{
  OutItem, Outbox, enqueue, signal, try_pop, take_first, drop_audio, drop_loop,
}

-- The writer is about to look at the queue, or waits for a signal.
pub data Writer : Type 0 where
  looking waiting : Writer

-- `unsignalled` counts the pushes that have queued their item and not signalled yet.
pub record System : Type 0 where
  pub outbox : Outbox
  pub writer : Writer
  pub unsignalled : ℕ

-- One step of a thread that changes the state.
pub data Step : System → System → Type 0 where
  queue :
      (item : OutItem) (s : System)
      → (enqueue item s.outbox).0 ≡ ok tt
      → Step s (record s { outbox = (enqueue item s.outbox).1; unsignalled = s.unsignalled + 1 })
  refuse :
      (item : OutItem) (s : System)
      → (enqueue item s.outbox).0 ≡ err rejected
      → Step s (record s { outbox = (enqueue item s.outbox).1 })
  signals :
      (s : System) (n : ℕ)
      → s.unsignalled ≡ suc n
      → Step s (record s { outbox = signal s.outbox; unsignalled = n })
  takes :
      (s : System) (item : OutItem)
      → s.writer ≡ Writer.looking
      → (try_pop s.outbox).0 ≡ some item
      → Step s (record s { outbox = (try_pop s.outbox).1 })
  waits :
      (s : System)
      → s.writer ≡ Writer.looking
      → (try_pop s.outbox).0 ≡ none
      → Step s (record s { outbox = (try_pop s.outbox).1; writer = Writer.waiting })
  wakes :
      (s : System)
      → s.writer ≡ Writer.waiting
      → s.outbox.notify ≡ true
      → Step s (record s { outbox = record s.outbox { notify = false }; writer = Writer.looking })
  drops : (key : ℕ) (s : System) → Step s (record s { outbox = (drop_audio key s.outbox).1 })

pub data Steps : System → System → Type 0 where
  stop : (s : System) → Steps s s
  more : (s s' s'' : System) → Step s s' → Steps s' s'' → Steps s s''

abbrev pub is_waiting : Writer → Bool
is_waiting Writer.looking = false
is_waiting Writer.waiting = true

abbrev pub is_empty : List OutItem → Bool
is_empty [] = true
is_empty (x ∷ xs) = false

-- If the writer waits although the queue holds something, a signal is there or on its way.
abbrev pub is_roused : System → Bool
is_roused s =
    not (is_waiting s.writer) || is_empty s.outbox.items || s.outbox.notify || ltb 0 s.unsignalled

rouse_queued :
    (item : OutItem) (s : System)
    → (enqueue item s.outbox).0 ≡ ok tt
    → is_roused (record s { outbox = (enqueue item s.outbox).1; unsignalled = s.unsignalled + 1 })
      ≡ true
rouse_queued item s e = ground arith

refuse-same :
    (item : OutItem) (o : Outbox) → (enqueue item o).0 ≡ err rejected → (enqueue item o).1 ≡ o
unfolding enqueue
refuse-same item o e = elim (Bool-cases (leb o.capacity (length o.items))) [
  | inl t ↦ rw t refl
  | inr t ↦ absurd (cc (rw t at e))
]

empty-pop : (o : Outbox) (xs : List OutItem) → (take_first o xs).0 ≡ none → is_empty xs ≡ true
empty-pop o [] e = refl
empty-pop o (x ∷ xs) e = cc

none-same : (o : Outbox) (xs : List OutItem) → (take_first o xs).0 ≡ none → (take_first o xs).1 ≡ o
none-same o [] e = refl
none-same o (x ∷ xs) e = cc

empty-dropped :
    (key : ℕ) (xs : List OutItem) → is_empty xs ≡ true → is_empty (drop_loop key xs).1 ≡ true
empty-dropped key [] e = refl
empty-dropped key (x ∷ xs) e = cc

rouse_one : {s s' : System} → Step s s' → is_roused s ≡ true → is_roused s' ≡ true
unfolding signal try_pop drop_audio
rouse_one (queue item s e) h = rouse_queued item s e
rouse_one (refuse item s e) h = rw (refuse-same item s.outbox e) h
rouse_one (signals s n e) h = ground arith
rouse_one (takes s item w e) h = rw w refl
rouse_one (waits s w e) h =
    rw (none-same s.outbox s.outbox.items e) (ground (arith, empty-pop s.outbox s.outbox.items e))
rouse_one (wakes s w e) h = refl
rouse_one (drops key s) h = ground (arith, empty-dropped key s.outbox.items)

rouse_all : {s s' : System} → Steps s s' → is_roused s ≡ true → is_roused s' ≡ true
rouse_all (stop s) h = h
rouse_all (more s s' s'' one rest) h = rouse_all rest (rouse_one one h)

-- No lost wake-up. If a waiting writer is roused whenever there is something to send, every
-- interleaving of pushes, pops and barge-ins keeps it so: a writer never waits on a queue that holds
-- something unless a signal is there or a push is still to give it.
pub no_lost_wakeup : (s s' : System) → Steps s s' → is_roused s ≡ true → is_roused s' ≡ true
no_lost_wakeup s s' t h = rouse_all t h
