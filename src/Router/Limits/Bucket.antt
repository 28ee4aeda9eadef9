-- ===== src/Router/Limits/Bucket.antt =====
-- The rate limit as a leaky bucket, which each call fills and time drains.
use cratos_ai.Prelude.{
  ℕ, ◌+◌, ◌-◌, ◌*◌, ◌≤◌, max, ltb, ◌≡◌, refl, true, false, Option, List, [], ◌∷◌, arith,
  if◌then◌else◌, Bool-cases, inl, inr, ap, ◌∙◌,
}
use cratos_ai.Router.Limits.{Rule, Cell, Reply, start, gcra}
use cratos_ai.Router.Limits.Rate.{tat_of, Kept, Ordered, start-Kept, gcra-Kept}

-- A bucket holds `level` at the time `at`, and loses one in each millisecond.
pub record Bucket : Type 0 where
  pub level : ℕ
  pub at : ℕ

abbrev pub empty : ℕ → Bucket
empty now = record { level = 0; at = now }

-- What is left in the bucket at a time.
unfoldable pub drained : ℕ → Bucket → ℕ
drained now b = b.level - (now - b.at)

-- A call pours one interval into the bucket, which holds `burst` of them, or it spills nothing and
-- waits until there is room.
unfoldable pub pour : Rule → ℕ → Bucket → Reply × Bucket
pour r now b =
    let full = drained now b + r.interval_ms in
    if ltb (r.burst * r.interval_ms) full
    then (record { allowed = false; retry_ms = full - r.burst * r.interval_ms }, b)
    else (record { allowed = true; retry_ms = 0 }, record { level = full; at = now })

-- The answers to calls at the given times.
unfoldable pub replies : Rule → List ℕ → Option Cell → List Reply
replies r [] cell = []
replies r (now ∷ later) cell = (gcra r now cell).0 ∷ replies r later (gcra r now cell).1

unfoldable pub pours : Rule → List ℕ → Bucket → List Reply
pours r [] b = []
pours r (now ∷ later) b = (pour r now b).0 ∷ pours r later (pour r now b).1

-- The stored time is when the bucket is empty again.
abbrev pub Shows : Option Cell → Bucket → Type 0
Shows cell b = max (tat_of cell) b.at ≡ b.at + b.level

start-drained :
    (now : ℕ) (cell : Option Cell) (b : Bucket)
    → Kept cell
    → Shows cell b
    → b.at ≤ now
    → start now cell ≡ now + drained now b
unfolding drained
start-drained now cell b k s l = omega (arith, start-Kept now cell k, s)

-- One call: the same answer, and the states still agree.
gcra-pour :
    (r : Rule) (now : ℕ) (cell : Option Cell) (b : Bucket)
    → Kept cell
    → Shows cell b
    → b.at ≤ now
    → ((gcra r now cell).0 ≡ (pour r now b).0)
      × Shows (gcra r now cell).1 (pour r now b).1
      × ((pour r now b).1.at ≤ now)
unfolding gcra pour
gcra-pour r now cell b k s l =
    let room = r.burst * r.interval_ms in
    let d = start-drained now cell b k s l in
    elim (Bool-cases (ltb (now + room) (start now cell + r.interval_ms))) [
      | inl e ↦
          let e' : ltb room (drained now b + r.interval_ms) ≡ true = ground (arith, d, e) in
          let wait : start now cell + r.interval_ms - (now + room)
              ≡ drained now b + r.interval_ms - room =
            omega (arith, d) in
          rw (e, e') (ap (λ w. record { allowed = false; retry_ms = w }) wait, s, l)
      | inr e ↦
          let e' : ltb room (drained now b + r.interval_ms) ≡ false = ground (arith, d, e) in
          rw (e, e') (refl, omega (arith, d), omega arith)
    ]

-- The script of the rate limit implements a leaky bucket. Where the stored time shows what is in the
-- bucket, and the key lives as the script sets it, the script gives the same answers as the bucket to
-- any calls at times that do not decrease: which are allowed, and how long the others have to wait.
pub gcra_is_bucket :
    (r : Rule) (from to : ℕ) (ts : List ℕ) (cell : Option Cell) (b : Bucket)
    → Kept cell
    → Shows cell b
    → b.at ≤ from
    → Ordered from ts to
    → replies r ts cell ≡ pours r ts b
unfolding replies pours
gcra_is_bucket r from to [] cell b k s l o = refl
gcra_is_bucket r from to (t ∷ ts) cell b k s l (h, o) =
    let (same, s', l') = gcra-pour r t cell b k s (omega arith) in
    ap (λ x. x ∷ replies r ts (gcra r t cell).1) same
    ∙ ap (λ x. (pour r t b).0 ∷ x)
        (gcra_is_bucket r t to ts (gcra r t cell).1 (pour r t b).1 (gcra-Kept r t cell k) s' l' o)
