-- ===== src/Audit/Store/Verify.antt =====
-- Verify of services/audit/internal/store/store.go: a tenant's chain is recomputed page by page.
pub mod Paging
pub mod Intact
use mathlib.Core.List.{foldl}
use cratos_ai.Prelude.{
  ℕ, zero, suc, ◌+◌, Bool, true, false, not, ◌&&◌, ◌||◌, List, [], ◌∷◌, ltb, leb, ◌==◌,
  if◌then◌else◌, length, take, select_where,
}
use cratos_ai.Audit.Encoding.Keys.{Bytes, same_bytes}
use cratos_ai.Audit.Chain.{hash}
use cratos_ai.Audit.Store.{Row, Db, rows_of, chain_of, head_of}

pub record Verification : Type 0 where
  pub intact : Bool
  pub events : ℕ
  pub first_broken : ℕ  -- 0 when intact
  pub head : Bytes

-- The variables `v` and `prev` (kept in `head`) before the first event.
abbrev pub start : Verification
start = record { intact = true; events = 0; first_broken = 0; head = [] }

-- The closure `broken`: only the first break is kept.
unfoldable pub broken : ℕ → Verification → Verification
broken sequence v = if v.intact then record v { intact = false; first_broken = sequence } else v

-- ORDER BY sequence
unfoldable pub insert_row : Row → List Row → List Row
insert_row r [] = r ∷ []
insert_row r (x ∷ xs) =
    if leb r.event.sequence x.event.sequence then r ∷ x ∷ xs else x ∷ insert_row r xs

unfoldable pub sort_rows : List Row → List Row
sort_rows [] = []
sort_rows (r ∷ rs) = insert_row r (sort_rows rs)

abbrev pub after : ℕ → Row → Bool
after n r = ltb n r.event.sequence

-- WHERE sequence > n ORDER BY sequence LIMIT size, over the rows in their order
unfoldable pub read_page : ℕ → ℕ → List Row → List Row
read_page size n rows = take size (select_where (after n) rows)

abbrev pub page_size : ℕ
page_size = 1000

module _ (sha256 : Bytes → Bytes) where
  -- The body of the loop over a page.
  unfoldable pub check_row : Verification → Row → Verification
  unfolding broken
  check_row v r =
      let v' : Verification =
        if r.event.sequence == v.events + 1 then v else broken (v.events + 1) v in
      let computed = hash sha256 v.head r.event in
      let v'' : Verification =
        if same_bytes r.prev_hash v.head && same_bytes r.hash computed
        then v'
        else broken r.event.sequence v' in
      record v'' { head = computed; events = r.event.sequence }

  -- `for { … }`: a page that is not full is the last one.
  unfoldable pub verify_loop : ℕ → ℕ → List Row → Verification → Verification
  verify_loop zero size rows v = v
  verify_loop (suc fuel) size rows v =
      let page = read_page size v.events rows in
      let v' = foldl (check_row) v page in
      let rest = verify_loop fuel size rows v' in if ltb (length page) size then v' else rest

  -- The last test: the head names the last event.
  unfoldable pub finish : ℕ × Bytes → Verification → Verification
  unfolding broken
  finish (sequence, h) v =
      if sequence == v.events && same_bytes h v.head then v else broken (v.events + 1) v

  -- Each full page takes a row at least, so one round more than there are rows is enough.
  unfoldable pub verify : Bytes → Db → Verification
  verify tenant db =
      let rows = sort_rows (rows_of tenant db) in
      finish (head_of (chain_of tenant db)) (verify_loop (suc (length rows)) page_size rows start)
