-- ===== src/Audit/Store/Anchor.antt =====
-- What a logged head (Heads of store.go) anchors: the whole trail before it.
use cratos_ai.Prelude.{
  ℕ, ◌+◌, ◌≡◌, refl, ap, sym, ◌∙◌, ◌⊎◌, inl, inr, true, List, [], ◌∷◌, arith, length,
}
use cratos_ai.Audit.Encoding.Keys.{Bytes}
use cratos_ai.Audit.Chain.{hash}
use cratos_ai.Audit.Chain.Binding.{SameEvent, Collision, hash-binds, length-hash}
use cratos_ai.Audit.Store.{Row, Db, rows_of, chain_of, head_of}
use cratos_ai.Audit.Store.Verify.{sort_rows, verify}
use cratos_ai.Audit.Store.Verify.Paging.{Ascending}
use cratos_ai.Audit.Store.Verify.Intact.{Linked, end_of, verify-intact_iff}

-- As many rows, with the same events and links one by one.
abbrev pub SameTrail : List Row → List Row → Type 0
SameTrail [] [] = Unit {0}
SameTrail [] (s ∷ ss) = ⊥
SameTrail (r ∷ rs) [] = ⊥
SameTrail (r ∷ rs) (s ∷ ss) =
    SameEvent r.event s.event × (r.prev_hash ≡ s.prev_hash) × (r.hash ≡ s.hash) × SameTrail rs ss

module _ (sha256 : Bytes → Bytes) (size : (x : Bytes) → length (sha256 x) ≡ 32) where
  end_of-sequence : (n : ℕ) (p : Bytes) (rs : List Row) → (end_of sha256 n p rs).0 ≡ n + length rs
  end_of-sequence n p [] = omega arith
  end_of-sequence n p (r ∷ rs) = omega (arith, end_of-sequence (n + 1) (hash sha256 p r.event) rs)

  Linked-binds :
      (n : ℕ) (p q : Bytes) (xs ys : List Row)
      → length p ≡ length q
      → Linked sha256 n p xs
      → Linked sha256 n q ys
      → end_of sha256 n p xs ≡ end_of sha256 n q ys
      → ((p ≡ q) × SameTrail xs ys) ⊎ Collision sha256
  Linked-binds n p q [] [] l lx ly e = inl (cc e, tt)
  Linked-binds n p q [] (y ∷ ys) l lx ly e = absurd (
      omega
        (arith, end_of-sequence (n + 1) (hash sha256 q y.event) ys, ap (λ (t : ℕ × Bytes). t.0) e))
  Linked-binds n p q (x ∷ xs) [] l lx ly e = absurd (
      omega
        (arith, end_of-sequence (n + 1) (hash sha256 p x.event) xs, ap (λ (t : ℕ × Bytes). t.0) e))
  Linked-binds n p q (x ∷ xs) (y ∷ ys) l (sx, px, hx, lx) (sy, py, hy, ly) e =
      elim (Linked-binds (n + 1) (hash sha256 p x.event) (hash sha256 q y.event) xs ys
        (length-hash sha256 p x.event size ∙ sym (length-hash sha256 q y.event size)) lx ly e) [
          | inr bad ↦ inr bad
          | inl (same, rest) ↦ elim (hash-binds sha256 p q x.event y.event l same) [
            | inr bad ↦ inr bad
            | inl (prev, event) ↦ inl (prev, (event, cc (px, py, prev), cc (hx, hy, same), rest))
          ]
        ]

  -- Two states of the tables whose chains of a tenant both verify as intact and have the same head
  -- hold the same trail of that tenant, event by event, or give a collision of SHA-256.
  pub head-anchors :
      (tenant : Bytes) (c d : Db)
      → Ascending 0 (sort_rows (rows_of tenant c))
      → Ascending 0 (sort_rows (rows_of tenant d))
      → (verify sha256 tenant c).intact ≡ true
      → (verify sha256 tenant d).intact ≡ true
      → head_of (chain_of tenant c) ≡ head_of (chain_of tenant d)
      → SameTrail (sort_rows (rows_of tenant c)) (sort_rows (rows_of tenant d)) ⊎ Collision sha256
  head-anchors tenant c d ac ad vc vd e =
      let (lc, hc) = (verify-intact_iff sha256 tenant c ac).0 vc in
      let (ld, hd) = (verify-intact_iff sha256 tenant d ad).0 vd in
      elim (Linked-binds 0 [] [] (sort_rows (rows_of tenant c)) (sort_rows (rows_of tenant d)) refl
        lc ld (sym hc ∙ e ∙ hd)) [ inl same ↦ inl same.1 | inr bad ↦ inr bad ]
