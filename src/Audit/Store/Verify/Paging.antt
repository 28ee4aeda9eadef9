-- ===== src/Audit/Store/Verify/Paging.antt =====
-- Reading a chain in pages checks the same rows in the same order as one pass over it.
use mathlib.Core.List.{foldl, foldl-append}
use cratos_ai.Prelude.{
  ℕ, zero, suc, ◌≤◌, ◌<◌, ◌≡◌, refl, ap, sym, ◌∙◌, true, List, [], ◌∷◌, arith, ltb, if◌then◌else◌,
  length, take, drop, select_where, take-append-drop, length-drop, length-take-le, ltb-false-le,
  Bool-cases, ltb→lt, inl, inr,
}
use cratos_ai.Audit.Encoding.Keys.{Bytes}
use cratos_ai.Audit.Store.{Row}
use cratos_ai.Audit.Store.Verify.{Verification, after, read_page, check_row, verify_loop}

-- Rows by strictly rising sequence, all above n.
abbrev pub Ascending : ℕ → List Row → Type 0
Ascending n [] = Unit {0}
Ascending n (r ∷ rs) = (n < r.event.sequence) × Ascending r.event.sequence rs

last_sequence : ℕ → List Row → ℕ
last_sequence n [] = n
last_sequence n (r ∷ rs) = last_sequence r.event.sequence rs

Ascending-weaken : (m n : ℕ) (rs : List Row) → m ≤ n → Ascending n rs → Ascending m rs
Ascending-weaken m n [] h a = tt
Ascending-weaken m n (r ∷ rs) h a = (omega arith, a.1)

pub select_all : (n : ℕ) (rs : List Row) → Ascending n rs → select_where (after n) rs ≡ rs
select_all n [] a = refl
select_all n (r ∷ rs) a =
    ground (arith, select_all n rs (Ascending-weaken n r.event.sequence rs (omega arith) a.1))

select-select :
    (m n : ℕ) (rs : List Row)
    → m ≤ n
    → select_where (after n) (select_where (after m) rs) ≡ select_where (after n) rs
select-select m n [] h = refl
select-select m n (r ∷ rs) h = ground (arith, select-select m n rs h)

le-last_sequence : (n : ℕ) (rs : List Row) → Ascending n rs → n ≤ last_sequence n rs
unfolding last_sequence
le-last_sequence n [] a = omega arith
le-last_sequence n (r ∷ rs) a = omega (arith, le-last_sequence r.event.sequence rs a.1)

Ascending-take : (k n : ℕ) (rs : List Row) → Ascending n rs → Ascending n (take k rs)
Ascending-take zero n rs a = tt
Ascending-take (suc k) n [] a = tt
Ascending-take (suc k) n (r ∷ rs) a = (a.0, Ascending-take k r.event.sequence rs a.1)

-- What follows a page is what the next query selects.
select-drop :
    (k n : ℕ) (rs : List Row)
    → Ascending n rs
    → (select_where (after (last_sequence n (take k rs))) rs ≡ drop k rs)
      × Ascending (last_sequence n (take k rs)) (drop k rs)
unfolding last_sequence
select-drop zero n rs a = (select_all n rs a, a)
select-drop (suc k) n [] a = (refl, tt)
select-drop (suc k) n (r ∷ rs) a =
    let (same, rising) = select-drop k r.event.sequence rs a.1 in
    let low = le-last_sequence r.event.sequence (take k rs) (Ascending-take k _ rs a.1) in
    (ground (arith, same, low), rising)

-- A page that is not full is all that is left.
short_page : (k : ℕ) (rs : List Row) → ltb (length (take k rs)) k ≡ true → take k rs ≡ rs
short_page zero rs h = absurd (omega (arith, ltb→lt 0 0 h))
short_page (suc k) [] h = refl
short_page (suc k) (r ∷ rs) h = ap (λ t. r ∷ t) (short_page k rs (ground arith))

module _ (sha256 : Bytes → Bytes) where
  events-check :
      (v : Verification) (rs : List Row)
      → (foldl (check_row sha256) v rs).events ≡ last_sequence v.events rs
  unfolding last_sequence check_row
  events-check v [] = refl
  events-check v (r ∷ rs) = events-check (check_row sha256 v r) rs

  abbrev checked : Verification → List Row → Verification
  checked = foldl (check_row sha256)

  -- One round of the loop, when the rows above the last checked one are `todo`.
  loop_round :
      (fuel size : ℕ) (rows todo : List Row) (v : Verification)
      → select_where (after v.events) rows ≡ todo
      → verify_loop sha256 (suc fuel) size rows v ≡ (
          if ltb (length (take size todo)) size
          then checked v (take size todo)
          else verify_loop sha256 fuel size rows (checked v (take size todo)))
  unfolding verify_loop read_page
  loop_round fuel size rows todo v e = rw e

  -- The query for the next page selects what the last page left.
  next_page :
      (size : ℕ) (rows todo : List Row) (v : Verification)
      → Ascending v.events todo
      → select_where (after v.events) rows ≡ todo
      → let v' = checked v (take size todo) in
        (select_where (after v'.events) rows ≡ drop size todo)
        × Ascending v'.events (drop size todo)
  next_page size rows todo v a e =
      let page = take size todo in
      let (same, rising) = select-drop size v.events todo a in
      let low = le-last_sequence v.events page (Ascending-take size _ todo a) in
      rw (events-check v page)
        (sym (select-select v.events (last_sequence v.events page) rows low) ∙ rw e same, rising)

  -- Once the rows above the last checked one are `todo`, the loop checks exactly those.
  pub verify_loop-eq-foldl :
      (fuel size : ℕ) (rows todo : List Row) (v : Verification)
      → 0 < size
      → length todo < fuel
      → Ascending v.events todo
      → select_where (after v.events) rows ≡ todo
      → verify_loop sha256 fuel size rows v ≡ checked v todo
  verify_loop-eq-foldl zero size rows todo v pos h a e = elim h [ ]
  verify_loop-eq-foldl (suc fuel) size rows todo v pos h a e =
      let page = take size todo in
      elim (Bool-cases (ltb (length page) size)) [
        | inl short ↦ rw (loop_round fuel size rows todo v e, short, short_page size todo short)
        | inr full ↦
            let (next, rising) = next_page size rows todo v a e in
            let less : length (drop size todo) < fuel = omega (
              arith,
              length-drop size todo,
              length-take-le size todo,
              ltb-false-le (length page) size full,
            ) in
            let ih =
              verify_loop-eq-foldl fuel size rows (drop size todo) (checked v page) pos less rising
                next in
            rw (loop_round fuel size rows todo v e, full, ih)
              (sym (foldl-append (check_row sha256) v page (drop size todo))
                ∙ ap (checked v) (take-append-drop size todo))
      ]
