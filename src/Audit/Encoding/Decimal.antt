-- ===== src/Audit/Encoding/Decimal.antt =====
-- strconv.FormatInt and strconv.Itoa in base 10.
use cratos_ai.Prelude.{
  ℕ, zero, suc, ◌+◌, ◌-◌, ◌*◌, ◌/◌, ◌%◌, ◌<◌, ◌≡◌, refl, ap, sym, ◌∙◌, List, [], ◌∷◌, ◌++◌, arith,
  ltb, if◌then◌else◌, Bool-cases, inl, inr,
}

-- An int64: `negsuc n` is -(n + 1).
pub data ℤ : Type 0 where
  pos : ℕ → ℤ
  negsuc : ℕ → ℤ

-- The digits of n; n + 1 rounds are more than it has digits.
digits_loop : ℕ → ℕ → List ℕ
digits_loop zero n = []
digits_loop (suc fuel) n =
    let more = digits_loop fuel (n / 10) ++ (48 + n % 10) ∷ [] in
    if ltb n 10 then (48 + n) ∷ [] else more

unfoldable pub format_nat : ℕ → List ℕ
unfolding digits_loop
format_nat n = digits_loop (suc n) n

unfoldable pub format_int : ℤ → List ℕ
unfolding format_nat
format_int (pos n) = format_nat n
format_int (negsuc n) = b'-' ∷ format_nat (suc n)

value_from : ℕ → List ℕ → ℕ
value_from acc [] = acc
value_from acc (d ∷ ds) = value_from (acc * 10 + (d - 48)) ds

value_from-append :
    (acc : ℕ) (xs : List ℕ) (d : ℕ)
    → value_from acc (xs ++ d ∷ []) ≡ value_from acc xs * 10 + (d - 48)
unfolding value_from
value_from-append acc [] d = refl
value_from-append acc (x ∷ xs) d = value_from-append (acc * 10 + (x - 48)) xs d

value-digits_loop : (fuel n : ℕ) → n < fuel → value_from 0 (digits_loop fuel n) ≡ n
unfolding digits_loop value_from
value-digits_loop zero n h = elim h [ ]
value-digits_loop (suc fuel) n h = elim (Bool-cases (ltb n 10)) [
  | inl small ↦ rw small (omega arith)
  | inr big ↦
      rw big (rw value_from-append (ground (arith, value-digits_loop fuel (n / 10) (ground arith))))
]

-- The first digit is no minus sign.
head_code : List ℕ → ℕ
head_code [] = 0
head_code (x ∷ xs) = x

tail_codes : List ℕ → List ℕ
tail_codes [] = []
tail_codes (x ∷ xs) = xs

head-append : (xs : List ℕ) (d : ℕ) → 0 < head_code xs → head_code (xs ++ d ∷ []) ≡ head_code xs
unfolding head_code
head-append [] d h = elim h [ ]
head-append (x ∷ xs) d h = refl

head-digits_loop : (fuel n : ℕ) → n < fuel → 47 < head_code (digits_loop fuel n)
unfolding digits_loop head_code
head-digits_loop zero n h = elim h [ ]
head-digits_loop (suc fuel) n h = elim (Bool-cases (ltb n 10)) [
  | inl small ↦ rw small (omega arith)
  | inr big ↦
      let ih : 47 < head_code (digits_loop fuel (n / 10)) =
        head-digits_loop fuel (n / 10) (ground arith) in
      rw big (omega (arith, head-append (digits_loop fuel (n / 10)) (48 + n % 10) (omega arith)))
]

pub format_nat-injective : (m n : ℕ) → format_nat m ≡ format_nat n → m ≡ n
unfolding format_nat
format_nat-injective m n e =
    sym (value-digits_loop (suc m) m (omega arith))
    ∙ ap (value_from 0) e
    ∙ value-digits_loop (suc n) n (omega arith)

format_int_signs : (m n : ℕ) → format_int (pos m) ≡ format_int (negsuc n) → ⊥
unfolding format_int head_code
format_int_signs m n e =
    let h : head_code (format_nat m) ≡ b'-' = ap head_code e in
    omega (arith, head-digits_loop (suc m) m (omega arith), h)

-- Two numbers with one text are equal, negative ones included.
pub format_int-injective : (a b : ℤ) → format_int a ≡ format_int b → a ≡ b
unfolding format_int tail_codes
format_int-injective (pos m) (pos n) e = ap pos (format_nat-injective m n e)
format_int-injective (pos m) (negsuc n) e = absurd (format_int_signs m n e)
format_int-injective (negsuc m) (pos n) e = absurd (format_int_signs n m (sym e))
format_int-injective (negsuc m) (negsuc n) e =
    let same : suc m ≡ suc n = format_nat-injective (suc m) (suc n) (ap tail_codes e) in
    ap negsuc (omega (arith, same))
