-- ===== src/Voice/Limiter/Caps.antt =====
-- The limiter's counts are those of the open sessions, so its caps hold.
use cratos_ai.Prelude.{
  ℕ, ◌+◌, ◌-◌, ◌≤◌, leb, ◌==◌, ◌≡◌, refl, Bool, true, false, not, ◌&&◌, ◌||◌, some, List, [], ◌∷◌,
  ◌++◌, arith, get_elem?, set, count_where, if◌then◌else◌, is_some, Bool-cases, Option-cases, inl,
  inr, ◌∙◌, zero, suc,
}
use cratos_ai.Voice.Counts.{Entry, get, put, get-put, get-delete}
use cratos_ai.Voice.Limiter.{
  Lease, Gate, Op, open_session, close_session, new_limiter, is_full, acquire, decrement, release,
  active, step, run,
}

abbrev pub is_open : Lease → Bool
is_open l = not l.released

abbrev pub is_open_of : ℕ → Lease → Bool
is_open_of tenant l = l.tenant == tenant && not l.released

abbrev pub Counts : Gate → Type 0
Counts g =
    (g.limiter.total ≡ count_where is_open g.leases)
    × ((tenant : ℕ) → get tenant g.limiter.per_tenant ≡ count_where (is_open_of tenant) g.leases)

abbrev pub Capped : Gate → Type 0
Capped g =
    (g.limiter.total ≤ g.limiter.max_total)
    × ((tenant : ℕ) → get tenant g.limiter.per_tenant ≤ g.limiter.max_per_tenant)

count-snoc :
    (p : Lease → Bool) (xs : List Lease) (x : Lease)
    → count_where p (xs ++ x ∷ []) ≡ count_where p xs + (if p x then 1 else 0)
count-snoc p [] x = ground arith
count-snoc p (y ∷ xs) x = ground (arith, count-snoc p xs x)

get-set :
    (xs : List Lease) (i : ℕ) (x y : Lease)
    → get_elem? xs i ≡ some x
    → get_elem? (set xs i y) i ≡ some y
get-set [] i x y e = cc
get-set (z ∷ xs) zero x y e = refl
get-set (z ∷ xs) (suc i) x y e = get-set xs i x y e

-- A lease that is counted and then is not.
count-set :
    (p : Lease → Bool) (xs : List Lease) (i : ℕ) (x y : Lease)
    → get_elem? xs i ≡ some x
    → p y ≡ false
    → count_where p (set xs i y) + (if p x then 1 else 0) ≡ count_where p xs
count-set p [] i x y e n = cc
count-set p (z ∷ xs) zero x y e n = ground arith
count-set p (z ∷ xs) (suc i) x y e n = ground (arith, count-set p xs i x y e n)

pub get-decrement :
    (k k' : ℕ) (es : List Entry)
    → get k' (decrement k es) ≡ (if k == k' then get k' es - 1 else get k' es)
get-decrement k k' es =
    let n = get k es - 1 in
    elim (Bool-cases (n == 0)) [
      | inl t ↦ rw t (ground (arith, get-delete k k' (put k n es), get-put k k' n es))
      | inr t ↦ rw t (ground (arith, get-put k k' n es))
    ]

acquire-Counts :
    (tenant : ℕ) (g : Gate)
    → Counts g
    → Capped g
    → Counts (acquire tenant g).1 × Capped (acquire tenant g).1
unfolding acquire
acquire-Counts tenant g (c, ct) (b, bt) = elim (Bool-cases (is_full tenant g.limiter)) [
  | inl e ↦ rw e ((c, ct), (b, bt))
  | inr e ↦
      let one : Lease = record { tenant = tenant; released = false } in
      let n = get tenant g.limiter.per_tenant + 1 in
      rw e (
        (
          omega (arith, c, count-snoc is_open g.leases one),
          λ t. ground (
            arith,
            ct t,
            ct tenant,
            get-put tenant t n g.limiter.per_tenant,
            count-snoc (is_open_of t) g.leases one,
          ),
        ),
        (ground arith, λ t. ground (arith, bt t, get-put tenant t n g.limiter.per_tenant)),
      )
]

release-Counts :
    (id : ℕ) (g : Gate) → Counts g → Capped g → Counts (release id g) × Capped (release id g)
unfolding release
release-Counts id g (c, ct) (b, bt) = elim (Option-cases (get_elem? g.leases id)) [
  | inl e ↦ rw e ((c, ct), (b, bt))
  | inr (lease, e) ↦ elim (Bool-cases lease.released) [
    | inl r ↦ rw (e, r) ((c, ct), (b, bt))
    | inr r ↦
        let done : Lease = record lease { released = true } in
        let es = g.limiter.per_tenant in
        rw (e, r)
          (
            (
              ground (arith, c, count-set is_open g.leases id lease done e),
              λ t. ground (
                arith,
                ct t,
                get-decrement lease.tenant t es,
                count-set (is_open_of t) g.leases id lease done e,
              ),
            ),
            (omega (arith, b), λ t. ground (arith, bt t, get-decrement lease.tenant t es)),
          )
  ]
]

-- The caps are fixed when the limiter is made.
abbrev SameCaps : Gate → Gate → Type 0
SameCaps g h =
    (h.limiter.max_total ≡ g.limiter.max_total)
    × (h.limiter.max_per_tenant ≡ g.limiter.max_per_tenant)

acquire-SameCaps : (tenant : ℕ) (g : Gate) → SameCaps g (acquire tenant g).1
unfolding acquire
acquire-SameCaps tenant g = elim (Bool-cases (is_full tenant g.limiter)) [
  | inl e ↦ rw e (refl, refl)
  | inr e ↦ rw e (refl, refl)
]

release-SameCaps : (id : ℕ) (g : Gate) → SameCaps g (release id g)
unfolding release
release-SameCaps id g = elim (Option-cases (get_elem? g.leases id)) [
  | inl e ↦ rw e (refl, refl)
  | inr (lease, e) ↦ elim (Bool-cases lease.released) [
    | inl r ↦ rw (e, r) (refl, refl)
    | inr r ↦ rw (e, r) (refl, refl)
  ]
]

step-Counts :
    (op : Op) (g : Gate)
    → Counts g
    → Capped g
    → (Counts (step op g) × Capped (step op g)) × SameCaps g (step op g)
unfolding step
step-Counts (open_session tenant) g c b = (acquire-Counts tenant g c b, acquire-SameCaps tenant g)
step-Counts (close_session id) g c b = (release-Counts id g c b, release-SameCaps id g)

run-Counts :
    (ops : List Op) (g : Gate)
    → Counts g
    → Capped g
    → (Counts (run ops g) × Capped (run ops g)) × SameCaps g (run ops g)
unfolding run
run-Counts [] g c b = ((c, b), (refl, refl))
run-Counts (op ∷ ops) g c b =
    let ((c', b'), (t', p')) = step-Counts op g c b in
    let (h, (t, p)) = run-Counts ops (step op g) c' b' in (h, (t ∙ t', p ∙ p'))

-- Whatever order sessions are opened and closed in, and however often the function that closes one
-- is called, a limiter's total is the number of sessions that are open, each tenant's count is the
-- number of its open sessions, and neither is above its cap.
pub limiter_counts :
    (max_total max_per_tenant tenant : ℕ) (ops : List Op)
    → let g = run ops (record { limiter = new_limiter max_total max_per_tenant; leases = [] }) in
      (active g ≡ count_where is_open g.leases)
      × (get tenant g.limiter.per_tenant ≡ count_where (is_open_of tenant) g.leases)
      × (count_where is_open g.leases ≤ max_total)
      × (count_where (is_open_of tenant) g.leases ≤ max_per_tenant)
unfolding new_limiter active
limiter_counts max_total max_per_tenant tenant ops =
    let start : Gate = record { limiter = new_limiter max_total max_per_tenant; leases = [] } in
    let (((c, ct), (b, bt)), (t, p)) =
      run-Counts ops start (refl, λ k. refl) (omega arith, λ k. omega arith) in
    (c, ct tenant, omega (arith, c, b, t), omega (arith, ct tenant, bt tenant, p))

-- A second call of a lease's release function changes nothing.
pub release-release : (id : ℕ) (g : Gate) → release id (release id g) ≡ release id g
unfolding release
release-release id g = elim (Option-cases (get_elem? g.leases id)) [
  | inl e ↦ rw (e, e) refl
  | inr (lease, e) ↦ elim (Bool-cases lease.released) [
    | inl r ↦ rw (e, r, e, r) refl
    | inr r ↦ rw (e, r, get-set g.leases id lease (record lease { released = true }) e) refl
  ]
]

-- A session is refused only when a cap is reached: of all sessions, or of those of its tenant.
pub acquire-refuses :
    (tenant : ℕ) (g : Gate)
    → Counts g
    → not (is_some (acquire tenant g).0) ≡ (
        leb g.limiter.max_total (count_where is_open g.leases)
        || leb g.limiter.max_per_tenant (count_where (is_open_of tenant) g.leases))
unfolding acquire
acquire-refuses tenant g (c, ct) = elim (Bool-cases (is_full tenant g.limiter)) [
  | inl e ↦ rw e (ground (arith, c, ct tenant, e))
  | inr e ↦ rw e (ground (arith, c, ct tenant, e))
]
