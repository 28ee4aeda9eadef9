-- ===== src/Audit/Encoding/Varint.antt =====
-- binary.PutUvarint, and the length-prefixed fields that chain.go writes with it.
use cratos_ai.Prelude.{
  ℕ, zero, suc, ◌+◌, ◌-◌, ◌*◌, ◌/◌, ◌%◌, ◌<◌, ◌≡◌, ◌≢◌, refl, ap, sym, ◌∙◌, Option, none, some,
  List, [], ◌∷◌, ◌++◌, arith, ltb, length, if◌then◌else◌, Bool-cases, inl, inr,
}
use mathlib.Core.List.{append_assoc}

-- Groups of seven bits, the lowest first; the top bit says that more follow.
uvarint_loop : ℕ → ℕ → List ℕ
uvarint_loop zero n = []
uvarint_loop (suc fuel) n =
    let more = (n % 128 + 128) ∷ uvarint_loop fuel (n / 128) in if ltb n 128 then n ∷ [] else more

-- n + 1 rounds are more than it has groups.
unfoldable pub put_uvarint : ℕ → List ℕ
unfolding uvarint_loop
put_uvarint n = uvarint_loop (suc n) n

-- The closure `field` of Hash: the length of a text, then its bytes.
unfoldable pub field : List ℕ → List ℕ
field s = put_uvarint (length s) ++ s

-- The fields that are written one after another.
unfoldable pub fields : List (List ℕ) → List ℕ
fields [] = []
fields (s ∷ rest) = field s ++ fields rest

-- Reads one varint back, with what follows it.
read_uvarint : List ℕ → Option (ℕ × List ℕ)
read_uvarint [] = none
read_uvarint (b ∷ bs) =
    let more : Option (ℕ × List ℕ) = elim (read_uvarint bs) [
      | none ↦ none
      | some (v, rest) ↦ some (v * 128 + (b - 128), rest)
    ] in
    if ltb b 128 then some (b, bs) else more

read-uvarint_loop :
    (fuel n : ℕ) (rest : List ℕ)
    → n < fuel
    → read_uvarint (uvarint_loop fuel n ++ rest) ≡ some (n, rest)
unfolding uvarint_loop read_uvarint
read-uvarint_loop zero n rest h = elim h [ ]
read-uvarint_loop (suc fuel) n rest h = elim (Bool-cases (ltb n 128)) [
  | inl small ↦ ground arith
  | inr big ↦ ground (arith, read-uvarint_loop fuel (n / 128) rest)
]

same_uvarint :
    (m n : ℕ) {x y : List ℕ} → put_uvarint m ++ x ≡ put_uvarint n ++ y → (m ≡ n) × (x ≡ y)
unfolding put_uvarint
same_uvarint m n {x} {y} e =
    let hm = read-uvarint_loop (suc m) m x (omega arith) in
    let hn = read-uvarint_loop (suc n) n y (omega arith) in
    let both : some (m, x) ≡ some (n, y) = sym hm ∙ ap read_uvarint e ∙ hn in (cc both, cc both)

pub same_prefix :
    (s t : List ℕ) {x y : List ℕ} → length s ≡ length t → s ++ x ≡ t ++ y → (s ≡ t) × (x ≡ y)
same_prefix [] [] l e = (refl, e)
same_prefix [] (b ∷ t) l e = absurd (omega arith)
same_prefix (a ∷ s) [] l e = absurd (omega arith)
same_prefix (a ∷ s) (b ∷ t) {x} {y} l e =
    let (same, rest) = same_prefix s t {x = x} {y = y} (omega arith) (cc e) in (cc (e, same), rest)

-- A field ends where its length says: what follows it cannot be read as a part of it.
pub field-prefix_free :
    (s t : List ℕ) {x y : List ℕ} → field s ++ x ≡ field t ++ y → (s ≡ t) × (x ≡ y)
unfolding field
field-prefix_free s t {x} {y} e =
    let (l, rest) =
      same_uvarint (length s) (length t) {x = s ++ x} {y = t ++ y} (simp append_assoc at e) in
    same_prefix s t l rest

field-ne-nil : (s x : List ℕ) → field s ++ x ≢ []
unfolding field put_uvarint uvarint_loop
field-ne-nil s x e = ground arith

pub fields-injective : (xs ys : List (List ℕ)) → fields xs ≡ fields ys → xs ≡ ys
unfolding fields
fields-injective [] [] e = refl
fields-injective [] (t ∷ ys) e = absurd (field-ne-nil t _ (sym e))
fields-injective (s ∷ xs) [] e = absurd (field-ne-nil s _ e)
fields-injective (s ∷ xs) (t ∷ ys) e =
    let (same, rest) = field-prefix_free s t e in cc (same, fields-injective xs ys rest)
