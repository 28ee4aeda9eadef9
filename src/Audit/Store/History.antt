-- ===== src/Audit/Store/History.antt =====
-- Chains built by Append alone, in any number of batches, and what Verify says of them.
use cratos_ai.Prelude.{ℕ, ◌≡◌, refl, true, some, List, [], ◌∷◌, All, Bool-cases, inl, inr}
use cratos_ai.Audit.Encoding.Decimal.{ℤ}
use cratos_ai.Audit.Encoding.Keys.{Bytes, same_bytes, same_bytes→eq, sort_strings}
use cratos_ai.Audit.Chain.{Event}
use cratos_ai.Audit.Store.{
  Batch, ChainRow, Db, rows_of, chain_of, head_of, open_chain, append_tenant, append_tenants,
  append, commit_batch, select_events, tenants_of,
}
use cratos_ai.Audit.Store.Heads.{
  head-open_chain, chain-open_chain, events-open_chain, select_events-owned,
}
use cratos_ai.Audit.Store.Appending.{
  InOrder, Continues, start-Continues, append_events-Continues, commit_own, commit_other,
}
use cratos_ai.Audit.Store.Verify.{sort_rows, verify}
use cratos_ai.Audit.Store.Verify.Paging.{Ascending}
use cratos_ai.Audit.Store.Verify.Intact.{Linked-Ascending, sort_rows-Ascending, verify-intact_iff}

-- A call of Append: who records, when, and what.
pub record Call : Type 0 where
  pub source : Bytes
  pub record_time : ℤ
  pub events : List Event

abbrev pub empty : Db
empty = record { chains = []; events = [] }

module _ (sha256 : Bytes → Bytes) where
  open_chain-InOrder :
      (tenant t : Bytes) (db : Db) → InOrder sha256 t db → InOrder sha256 t (open_chain tenant db)
  open_chain-InOrder tenant t db (l, e) =
      rw (events-open_chain tenant db, head-open_chain t tenant db) (l, e)

  commit-InOrder :
      (tenant t : Bytes) (b : Batch) (db : Db)
      → Continues sha256 tenant (head_of (chain_of tenant db)).0 (head_of (chain_of tenant db)).1 b
      → (c : ChainRow) → chain_of tenant db ≡ some c
      → InOrder sha256 tenant db
      → InOrder sha256 t db
      → InOrder sha256 t (commit_batch tenant b db).1
  commit-InOrder tenant t b db cont c there own other = elim (Bool-cases (same_bytes tenant t)) [
    | inl same ↦ rw (← same_bytes→eq tenant t same) (commit_own sha256 tenant b db cont c there own)
    | inr foreign ↦ commit_other sha256 tenant b db t foreign cont other
  ]

  -- A tenant's part of the batch keeps every tenant's chain, its own and the others'.
  append_tenant-InOrder :
      (source : Bytes) (time : ℤ) (events : List Event) (db : Db) (tenant t : Bytes)
      → All (λ e. e.tenant_id ≡ tenant) events
      → InOrder sha256 tenant db
      → InOrder sha256 t db
      → InOrder sha256 t (append_tenant sha256 source time events db tenant).1
  unfolding append_tenant
  append_tenant-InOrder source time events db tenant t owned own other =
      let opened = open_chain tenant db in
      let (c, there) = chain-open_chain tenant db in
      commit-InOrder tenant t _ opened
        (append_events-Continues sha256 tenant _ _ source time _ events owned
          (start-Continues sha256 tenant _ _ _))
        c there (open_chain-InOrder tenant tenant db own) (open_chain-InOrder tenant t db other)

  append_tenants-InOrder :
      (source : Bytes) (time : ℤ) (events : List Event) (ts : List Bytes) (acc : (ℕ × ℕ) × Db)
      → ((t : Bytes) → InOrder sha256 t acc.1)
      → (t : Bytes) → InOrder sha256 t (append_tenants sha256 source time events ts acc).1
  unfolding append_tenants
  append_tenants-InOrder source time events [] acc h t = h t
  append_tenants-InOrder source time events (s ∷ ts) ((r, d), db) h t =
      append_tenants-InOrder source time events ts _
        (λ u.
          append_tenant-InOrder source time (select_events s events) db s u
            (select_events-owned s events) (h s) (h u))
        t

  -- Append keeps every tenant's chain linked up to its head.
  pub append-InOrder :
      (source : Bytes) (time : ℤ) (events : List Event) (db : Db)
      → ((t : Bytes) → InOrder sha256 t db)
      → (t : Bytes) → InOrder sha256 t (append sha256 source time events db).1
  unfolding append
  append-InOrder source time events db h t =
      append_tenants-InOrder source time events (sort_strings (tenants_of events)) ((0, 0), db) h t

  -- The tables after a sequence of calls.
  unfoldable pub appends : List Call → Db → Db
  appends [] db = db
  appends (c ∷ cs) db = appends cs (append sha256 c.source c.record_time c.events db).1

  appends-InOrder :
      (cs : List Call) (db : Db)
      → ((t : Bytes) → InOrder sha256 t db)
      → (t : Bytes) → InOrder sha256 t (appends cs db)
  unfolding appends
  appends-InOrder [] db h t = h t
  appends-InOrder (c ∷ cs) db h t =
      appends-InOrder cs (append sha256 c.source c.record_time c.events db).1
        (append-InOrder c.source c.record_time c.events db h) t

  InOrder-intact :
      (tenant : Bytes) (db : Db)
      → InOrder sha256 tenant db
      → (verify sha256 tenant db).intact ≡ true
  InOrder-intact tenant db (l, e) =
      let rows = rows_of tenant db in
      let rising = Linked-Ascending sha256 0 [] rows l in
      let sorted = sort_rows-Ascending 0 rows rising in
      (verify-intact_iff sha256 tenant db (rw sorted rising)).1 (rw sorted (l, e))

  pub appends-Ascending :
      (cs : List Call) (tenant : Bytes)
      → Ascending 0 (sort_rows (rows_of tenant (appends cs empty)))
  appends-Ascending cs tenant =
      let (l, _) = appends-InOrder cs empty (λ t. (tt, refl)) tenant in
      let rising = Linked-Ascending sha256 0 [] (rows_of tenant (appends cs empty)) l in
      rw (sort_rows-Ascending 0 (rows_of tenant (appends cs empty)) rising) rising

  -- Whatever the batches that were appended since the tables were empty, Verify reports every
  -- tenant's chain as intact.
  pub verify-appends :
      (cs : List Call) (tenant : Bytes) → (verify sha256 tenant (appends cs empty)).intact ≡ true
  verify-appends cs tenant =
      InOrder-intact tenant (appends cs empty) (appends-InOrder cs empty (λ t. (tt, refl)) tenant)
