-- ===== src/Audit/Store/Heads.antt =====
-- The rows of `chains` through the statements of appendTenant, and the rows of `events` that a tenant
-- owns.
use cratos_ai.Prelude.{
  ℕ, ◌≡◌, refl, false, none, some, List, [], ◌∷◌, ◌++◌, arith, All, select_where, find_where,
  update_where, Bool-cases, Option-cases, inl, inr,
}
use cratos_ai.Audit.Encoding.Keys.{Bytes, same_bytes, same_bytes→eq, same_bytes_refl}
use cratos_ai.Audit.Chain.{Event}
use cratos_ai.Audit.Store.{
  Row, ChainRow, Db, of_tenant, chain_of, head_of, open_chain, set_head, select_events,
}

-- Finding a chain's row after another, or the same, row was written.
pub find-set_head_other :
    (tenant t h : Bytes) (n : ℕ) (cs : List ChainRow)
    → same_bytes tenant t ≡ false
    → find_where
        (λ c. same_bytes c.tenant_id t)
        (update_where (λ c. same_bytes c.tenant_id tenant) (set_head n h) cs)
      ≡ find_where (λ c. same_bytes c.tenant_id t) cs
find-set_head_other tenant t h n [] d = refl
find-set_head_other tenant t h n (c ∷ cs) d =
    ground (arith, find-set_head_other tenant t h n cs, same_bytes→eq c.tenant_id tenant)

pub find-set_head_self :
    (t h : Bytes) (n : ℕ) (cs : List ChainRow) (c : ChainRow)
    → find_where (λ c. same_bytes c.tenant_id t) cs ≡ some c
    → find_where
        (λ c. same_bytes c.tenant_id t)
        (update_where (λ c. same_bytes c.tenant_id t) (set_head n h) cs)
      ≡ some (set_head n h c)
find-set_head_self t h n [] c e = cc
find-set_head_self t h n (d ∷ cs) c e = ground (arith, find-set_head_self t h n cs c)

find-append_new :
    (t tenant : Bytes) (cs : List ChainRow)
    → find_where (λ c. same_bytes c.tenant_id tenant) cs ≡ none
    → let new : ChainRow = record { tenant_id = tenant; last_sequence = 0; last_hash = [] } in
      (head_of (find_where (λ c. same_bytes c.tenant_id t) (cs ++ new ∷ []))
        ≡ head_of (find_where (λ c. same_bytes c.tenant_id t) cs))
      × (find_where (λ c. same_bytes c.tenant_id tenant) (cs ++ new ∷ []) ≡ some new)
find-append_new t tenant [] e = ground (arith, same_bytes_refl tenant)
find-append_new t tenant (d ∷ cs) e = ground (arith, find-append_new t tenant cs)

abbrev new_chain : Bytes → ChainRow
new_chain tenant = record { tenant_id = tenant; last_sequence = 0; last_hash = [] }

open_chain_new :
    (tenant : Bytes) (db : Db)
    → chain_of tenant db ≡ none
    → open_chain tenant db ≡ record db { chains = db.chains ++ new_chain tenant ∷ [] }
unfolding open_chain
open_chain_new tenant db e = ground arith

open_chain_old :
    (tenant : Bytes) (db : Db) (c : ChainRow)
    → chain_of tenant db ≡ some c
    → open_chain tenant db ≡ db
unfolding open_chain
open_chain_old tenant db c e = ground arith

-- Opening a chain changes no head, and afterwards the chain is there.
pub head-open_chain :
    (t tenant : Bytes) (db : Db)
    → head_of (chain_of t (open_chain tenant db)) ≡ head_of (chain_of t db)
head-open_chain t tenant db = elim (Option-cases (chain_of tenant db)) [
  | inl e ↦ rw (open_chain_new tenant db e) (find-append_new t tenant db.chains e).0
  | inr (c, e) ↦ rw (open_chain_old tenant db c e)
]

pub chain-open_chain :
    (tenant : Bytes) (db : Db) → (c : ChainRow) × (chain_of tenant (open_chain tenant db) ≡ some c)
chain-open_chain tenant db = elim (Option-cases (chain_of tenant db)) [
  | inl e ↦ (
    new_chain tenant,
    rw (open_chain_new tenant db e) (find-append_new tenant tenant db.chains e).1,
  )
  | inr (c, e) ↦ (c, rw (open_chain_old tenant db c e) e)
]

pub events-open_chain : (tenant : Bytes) (db : Db) → (open_chain tenant db).events ≡ db.events
unfolding open_chain
events-open_chain tenant db = ground arith

pub select_owned :
    (tenant : Bytes) (rs : List Row)
    → All (λ r. r.event.tenant_id ≡ tenant) rs
    → select_where (of_tenant tenant) rs ≡ rs
select_owned tenant [] h = refl
select_owned tenant (r ∷ rs) (e, h) =
    ground (arith, select_owned tenant rs h, same_bytes_refl tenant)

pub select_foreign :
    (tenant t : Bytes) (rs : List Row)
    → same_bytes tenant t ≡ false
    → All (λ r. r.event.tenant_id ≡ tenant) rs
    → select_where (of_tenant t) rs ≡ []
select_foreign tenant t [] d h = refl
select_foreign tenant t (r ∷ rs) d (e, h) = ground (arith, select_foreign tenant t rs d h)

pub select_events-owned :
    (tenant : Bytes) (es : List Event) → All (λ e. e.tenant_id ≡ tenant) (select_events tenant es)
select_events-owned tenant [] = tt
select_events-owned tenant (e ∷ es) = elim (Bool-cases (same_bytes e.tenant_id tenant)) [
  | inl own ↦ rw own (same_bytes→eq e.tenant_id tenant own, select_events-owned tenant es)
  | inr foreign ↦ rw foreign (select_events-owned tenant es)
]
