-- ===== src/Router/Limits/Rate.antt =====
-- How many calls a rule lets through.
use cratos_ai.Prelude.{
  ℕ, ◌+◌, ◌-◌, ◌*◌, ◌≤◌, ◌<◌, max, ltb, ◌≡◌, refl, Bool, true, false, Option, none, some, List, [],
  ◌∷◌, arith, if◌then◌else◌, Bool-cases, ltb-false-le, inl, inr,
}
use cratos_ai.Router.Limits.{Rule, Cell, start, gcra}

-- Calls at the given times, in order: how many are allowed, and the cell after them.
abbrev pub calls : Rule → List ℕ → Option Cell → ℕ × Option Cell
calls r [] cell = (0, cell)
calls r (now ∷ later) cell =
    let (reply, cell') = gcra r now cell in
    let rest = calls r later cell' in ((if reply.allowed then rest.0 + 1 else rest.0), rest.1)

-- The stored time, 0 where there is none.
abbrev pub tat_of : Option Cell → ℕ
tat_of none = 0
tat_of (some c) = c.tat

-- A key lives as long as its time is ahead, as the script sets it.
abbrev pub Kept : Option Cell → Type 0
Kept none = Unit {0}
Kept (some c) = c.expires ≡ c.tat

-- Times that do not decrease, from one to another.
abbrev pub Ordered : ℕ → List ℕ → ℕ → Type 0
Ordered from [] to = from ≤ to
Ordered from (t ∷ ts) to = (from ≤ t) × Ordered t ts to

pub start-Kept : (now : ℕ) (cell : Option Cell) → Kept cell → start now cell ≡ max (tat_of cell) now
start-Kept now none k = omega arith
start-Kept now (some c) k = ground arith

pub gcra-Kept : (r : Rule) (now : ℕ) (cell : Option Cell) → Kept cell → Kept (gcra r now cell).1
unfolding gcra
gcra-Kept r now cell k =
    elim (Bool-cases (ltb (now + r.burst * r.interval_ms) (start now cell + r.interval_ms))) [
      | inl e ↦ rw e k
      | inr e ↦ rw e (omega (arith, start-Kept now cell k))
    ]

-- One call: it takes an interval if it is allowed, and nothing otherwise, and the stored time stays
-- within the burst.
gcra-step :
    (r : Rule) (now : ℕ) (cell : Option Cell)
    → Kept cell
    → tat_of cell ≤ now + r.burst * r.interval_ms
    → (max (tat_of cell) now + (if (gcra r now cell).0.allowed then r.interval_ms else 0)
        ≤ max (tat_of (gcra r now cell).1) now)
      × (tat_of (gcra r now cell).1 ≤ now + r.burst * r.interval_ms)
unfolding gcra
gcra-step r now cell k h =
    elim (Bool-cases (ltb (now + r.burst * r.interval_ms) (start now cell + r.interval_ms))) [
      | inl e ↦ rw e (omega arith, h)
      | inr e ↦
          let s = start-Kept now cell k in
          let l = ltb-false-le (now + r.burst * r.interval_ms) (start now cell + r.interval_ms) e in
          rw e (omega (arith, s), omega (arith, l))
    ]

taken : (b : Bool) (n i : ℕ) → (if b then n + 1 else n) * i ≡ n * i + (if b then i else 0)
taken true n i = ground arith
taken false n i = ground arith

calls-bound :
    (r : Rule) (from to : ℕ) (ts : List ℕ) (cell : Option Cell)
    → Kept cell
    → Ordered from ts to
    → tat_of cell ≤ from + r.burst * r.interval_ms
    → (max (tat_of cell) from + (calls r ts cell).0 * r.interval_ms
        ≤ max (tat_of (calls r ts cell).1) to)
      × (tat_of (calls r ts cell).1 ≤ to + r.burst * r.interval_ms)
calls-bound r from to [] cell k o h = (omega arith, omega arith)
calls-bound r from to (t ∷ ts) cell k (l, o) h =
    let (one, within) = gcra-step r t cell k (omega arith) in
    let cell' = (gcra r t cell).1 in
    let (rest, last) = calls-bound r t to ts cell' (gcra-Kept r t cell k) o within in
    let n = (calls r ts cell').0 in
    (omega (arith, one, rest, taken (gcra r t cell).0.allowed n r.interval_ms), last)

-- However many calls come, at times that do not decrease, those that a rule allows between two times
-- take no more than the time between them, and the burst, at one interval a call. The key must live
-- as the script sets it, and hold at the first time no more than the burst.
pub calls_within_rate :
    (r : Rule) (from to : ℕ) (ts : List ℕ) (cell : Option Cell)
    → Kept cell
    → Ordered from ts to
    → tat_of cell ≤ from + r.burst * r.interval_ms
    → from + (calls r ts cell).0 * r.interval_ms ≤ to + r.burst * r.interval_ms
calls_within_rate r from to ts cell k o h =
    let (one, two) = calls-bound r from to ts cell k o h in omega (arith, one, two)

-- What a refusal says of the wait is exact: if the key is not used in the meantime, a call that
-- waits as long as it was told is allowed, for a burst of one or more, and one that waits less is
-- refused.
pub retry_exact :
    (r : Rule) (now sooner : ℕ) (cell : Option Cell)
    → Kept cell
    → r.interval_ms ≤ r.burst * r.interval_ms
    → (gcra r now cell).0.allowed ≡ false
    → sooner < (gcra r now cell).0.retry_ms
    → ((gcra r (now + (gcra r now cell).0.retry_ms) (gcra r now cell).1).0.allowed ≡ true)
      × ((gcra r (now + sooner) (gcra r now cell).1).0.allowed ≡ false)
unfolding gcra
retry_exact r now sooner cell k burst refused soon =
    let b = r.burst * r.interval_ms in
    elim (Bool-cases (ltb (now + b) (start now cell + r.interval_ms))) [
      | inr e ↦ absurd (cc (rw e at refused))
      | inl e ↦
          let s = start-Kept now cell k in
          let wait = start now cell + r.interval_ms - (now + b) in
          let s' = start-Kept (now + wait) cell k in
          let s'' = start-Kept (now + sooner) cell k in
          let soon' : sooner < wait = rw e at soon in
          let late : ltb (now + wait + b) (start (now + wait) cell + r.interval_ms) ≡ false =
            ground (arith, s, s', e) in
          let early : ltb (now + sooner + b) (start (now + sooner) cell + r.interval_ms) ≡ true =
            ground (arith, s, s'', e) in
          rw e (rw late refl, rw early refl)
    ]
