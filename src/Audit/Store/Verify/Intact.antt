-- ===== src/Audit/Store/Verify/Intact.antt =====
-- What Verify finds: exactly the chains whose rows link up to the head.
use mathlib.Core.List.{foldl}
use cratos_ai.Prelude.{ℕ, suc, ◌+◌, ◌≡◌, ◌↔◌, refl, true, List, [], ◌∷◌, arith, length}
use cratos_ai.Audit.Encoding.Keys.{Bytes, same_bytes→eq, same_bytes_refl}
use cratos_ai.Audit.Chain.{hash}
use cratos_ai.Audit.Store.{Row, Db, rows_of, chain_of, head_of}
use cratos_ai.Audit.Store.Verify.{
  Verification, start, insert_row, sort_rows, check_row, finish, verify,
}
use cratos_ai.Audit.Store.Verify.Paging.{Ascending, select_all, verify_loop-eq-foldl}

insert_row-Ascending :
    (r : Row) (rs : List Row) → Ascending r.event.sequence rs → insert_row r rs ≡ r ∷ rs
unfolding insert_row
insert_row-Ascending r [] a = refl
insert_row-Ascending r (x ∷ xs) a = ground arith

pub sort_rows-Ascending : (n : ℕ) (rs : List Row) → Ascending n rs → sort_rows rs ≡ rs
unfolding sort_rows
sort_rows-Ascending n [] a = refl
sort_rows-Ascending n (r ∷ rs) (_, a) =
    rw (sort_rows-Ascending r.event.sequence rs a) (insert_row-Ascending r rs a)

module _ (sha256 : Bytes → Bytes) where
  -- Each row follows the one before: by its sequence, its previous hash and its own hash.
  abbrev pub Linked : ℕ → Bytes → List Row → Type 0
  Linked n p [] = Unit {0}
  Linked n p (r ∷ rs) =
      (r.event.sequence ≡ n + 1)
      × (r.prev_hash ≡ p)
      × (r.hash ≡ hash sha256 p r.event)
      × Linked (n + 1) (hash sha256 p r.event) rs

  -- The sequence and the hash at the end of the rows.
  abbrev pub end_of : ℕ → Bytes → List Row → ℕ × Bytes
  end_of n p [] = (n, p)
  end_of n p (r ∷ rs) = end_of (n + 1) (hash sha256 p r.event) rs

  -- The tenant's rows in order link up from the start, and the head names their end.
  abbrev pub IsIntact : Bytes → Db → Type 0
  IsIntact tenant db =
      Linked 0 [] (sort_rows (rows_of tenant db))
      × (head_of (chain_of tenant db) ≡ end_of 0 [] (sort_rows (rows_of tenant db)))

  check_row-intact :
      (v : Verification) (r : Row)
      → (check_row sha256 v r).intact ≡ true
      → (v.intact ≡ true)
        × (r.event.sequence ≡ v.events + 1)
        × (r.prev_hash ≡ v.head)
        × (r.hash ≡ hash sha256 v.head r.event)
  unfolding check_row
  check_row-intact v r h =
      ground
        (arith, same_bytes→eq r.prev_hash v.head, same_bytes→eq r.hash (hash sha256 v.head r.event))

  check_row-linked :
      (v : Verification) (r : Row)
      → r.event.sequence ≡ v.events + 1
      → r.prev_hash ≡ v.head
      → r.hash ≡ hash sha256 v.head r.event
      → check_row sha256 v r ≡ record v { events = v.events + 1; head = hash sha256 v.head r.event }
  unfolding check_row
  check_row-linked v r s p h =
      ground (arith, same_bytes_refl v.head, same_bytes_refl (hash sha256 v.head r.event))

  abbrev checked : Verification → List Row → Verification
  checked = foldl (check_row sha256)

  checked-Linked :
      (v : Verification) (rs : List Row)
      → Linked v.events v.head rs
      → checked v rs
        ≡ record v { events = (end_of v.events v.head rs).0; head = (end_of v.events v.head rs).1 }
  checked-Linked v [] l = refl
  checked-Linked v (r ∷ rs) (s, p, h, l) =
      rw (check_row-linked v r s p h) (
        checked-Linked (record v { events = v.events + 1; head = hash sha256 v.head r.event }) rs l)

  Linked-checked :
      (v : Verification) (rs : List Row)
      → (checked v rs).intact ≡ true
      → (v.intact ≡ true) × Linked v.events v.head rs
  Linked-checked v [] h = (h, tt)
  Linked-checked v (r ∷ rs) h =
      let (ok, l) = Linked-checked (check_row sha256 v r) rs h in
      let (i, s, p, k) = check_row-intact v r ok in
      let next = check_row-linked v r s p k in (i, (s, p, k, rw next at l))

  pub Linked-Ascending : (n : ℕ) (p : Bytes) (rs : List Row) → Linked n p rs → Ascending n rs
  Linked-Ascending n p [] l = tt
  Linked-Ascending n p (r ∷ rs) (s, _, _, l) =
      (omega arith, rw s (Linked-Ascending (n + 1) (hash sha256 p r.event) rs l))

  finish-intact :
      (head : ℕ × Bytes) (v : Verification)
      → (finish sha256 head v).intact ≡ true
      → (v.intact ≡ true) × (head ≡ (v.events, v.head))
  unfolding finish
  finish-intact (n, h) v e = ground (arith, same_bytes→eq h v.head)

  finish_same :
      (n : ℕ) (h : Bytes) (v : Verification)
      → v.events ≡ n
      → v.head ≡ h
      → v.intact ≡ true
      → (finish sha256 (n, h) v).intact ≡ true
  unfolding finish
  finish_same n h v e k i = ground (arith, same_bytes_refl h)

  verify_pass :
      (tenant : Bytes) (db : Db)
      → Ascending 0 (sort_rows (rows_of tenant db))
      → verify sha256 tenant db
        ≡ finish sha256
            (head_of (chain_of tenant db))
            (checked start (sort_rows (rows_of tenant db)))
  unfolding verify
  verify_pass tenant db a =
      let rows = sort_rows (rows_of tenant db) in
      rw (
        verify_loop-eq-foldl sha256 (suc (length rows)) 1000 rows rows start (omega arith)
          (omega arith) a (select_all 0 rows a))

  -- For rows of distinct sequences from 1 on (the table's key and check), Verify reports a tenant's
  -- chain as intact exactly when its rows in order link up from the start and the chain's head names
  -- their end.
  pub verify-intact_iff :
      (tenant : Bytes) (db : Db)
      → Ascending 0 (sort_rows (rows_of tenant db))
      → ((verify sha256 tenant db).intact ≡ true) ↔ IsIntact tenant db
  verify-intact_iff tenant db a =
      let rows = sort_rows (rows_of tenant db) in
      (
        λ h.
            let (ok, head) =
              finish-intact (head_of (chain_of tenant db)) (checked start rows)
                (rw (verify_pass tenant db a) at h) in
            let (_, l) = Linked-checked start rows ok in
            (l, rw (checked-Linked start rows l) at head),
        λ (l, head).
            rw (verify_pass tenant db a, checked-Linked start rows l, head)
              (finish_same (end_of 0 [] rows).0 (end_of 0 [] rows).1 _ refl refl refl),
      )
