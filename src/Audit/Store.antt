-- ===== src/Audit/Store.antt =====
-- services/audit/internal/store/store.go: the tables `chains` and `events`, Append and Verify.
-- A transaction is one step. The database's own failures are not modelled: they roll it back.
pub mod Verify
pub mod Anchor
pub mod Heads
pub mod Appending
pub mod History
mod Tests
use mathlib.Core.List.{foldl}
use cratos_ai.Prelude.{
  ℕ, zero, suc, ◌+◌, Bool, true, false, not, ◌&&◌, ◌||◌, Option, none, some, List, [], ◌∷◌, ◌++◌,
  ltb, leb, ◌==◌, if◌then◌else◌, length, select_where, find_where, update_where, map,
}
use cratos_ai.Audit.Encoding.Decimal.{ℤ}
use cratos_ai.Audit.Encoding.Keys.{Bytes, same_bytes, sort_strings}
use cratos_ai.Audit.Chain.{Event, hash}

-- A row of `events`: the event with its link in the chain.
pub record Row : Type 0 where
  pub event : Event
  pub prev_hash : Bytes
  pub hash : Bytes

-- A row of `chains`.
pub record ChainRow : Type 0 where
  pub tenant_id : Bytes
  pub last_sequence : ℕ
  pub last_hash : Bytes

pub record Db : Type 0 where
  pub chains : List ChainRow
  pub events : List Row

abbrev pub of_tenant : Bytes → Row → Bool
of_tenant tenant r = same_bytes r.event.tenant_id tenant

-- The tenant's rows in the order of their insertion.
abbrev pub rows_of : Bytes → Db → List Row
rows_of tenant db = select_where (of_tenant tenant) db.events

abbrev pub chain_of : Bytes → Db → Option ChainRow
chain_of tenant db = find_where (λ c. same_bytes c.tenant_id tenant) db.chains

-- The end of a tenant's chain; a tenant with no row is at its start.
abbrev pub head_of : Option ChainRow → ℕ × Bytes
head_of none = (0, [])
head_of (some c) = (c.last_sequence, c.last_hash)

-- INSERT INTO chains … ON CONFLICT (tenant_id) DO NOTHING
unfoldable pub open_chain : Bytes → Db → Db
open_chain tenant db = elim (chain_of tenant db) [
  | some c ↦ db
  | none ↦ record db {
    chains = db.chains ++ record { tenant_id = tenant; last_sequence = 0; last_hash = [] } ∷ [];
  }
]

unfoldable pub contains : List Bytes → Bytes → Bool
contains [] s = false
contains (x ∷ xs) s = same_bytes x s || contains xs s

-- The variables of the loop of appendTenant; `queued` are the rows of its batch.
pub record Batch : Type 0 where
  pub seen : List Bytes
  pub sequence : ℕ
  pub prev : Bytes
  pub queued : List Row
  pub recorded : ℕ
  pub duplicates : ℕ

abbrev pub start_batch : List Bytes → ℕ × Bytes → Batch
start_batch known (sequence, prev) = record {
  seen = known;
  sequence = sequence;
  prev = prev;
  queued = [];
  recorded = 0;
  duplicates = 0;
}

abbrev pub event_id_of : Event → Bytes
event_id_of e = e.event_id

abbrev pub row_id : Row → Bytes
row_id r = r.event.event_id

-- UPDATE chains SET last_sequence = $2, last_hash = $3
abbrev pub set_head : ℕ → Bytes → ChainRow → ChainRow
set_head sequence prev c = record c { last_sequence = sequence; last_hash = prev }

abbrev pub select_events : Bytes → List Event → List Event
select_events tenant = select_where (λ e. same_bytes e.tenant_id tenant)

-- The keys of `byTenant`: each tenant of the batch once.
unfoldable pub tenants_of : List Event → List Bytes
tenants_of [] = []
tenants_of (e ∷ es) =
    let rest = tenants_of es in if contains rest e.tenant_id then rest else e.tenant_id ∷ rest

-- The end of appendTenant: with no new event nothing is written.
unfoldable pub commit_batch : Bytes → Batch → Db → (ℕ × ℕ) × Db
commit_batch tenant b db = if b.recorded == 0 then ((0, b.duplicates), db) else (
  (b.recorded, b.duplicates),
  record {
    chains =
        update_where (λ c. same_bytes c.tenant_id tenant) (set_head b.sequence b.prev) db.chains;
    events = db.events ++ b.queued;
  },
)

module _ (sha256 : Bytes → Bytes) where
  -- One round of the loop over a tenant's events.
  unfoldable pub append_event : Bytes → ℤ → Batch → Event → Batch
  append_event source record_time b e =
      let e' : Event = record e {
        sequence = b.sequence + 1;
        source = source;
        record_time = record_time;
      } in
      let link = hash sha256 b.prev e' in
      if contains b.seen e.event_id then record b { duplicates = b.duplicates + 1 } else record {
        seen = b.seen ++ e.event_id ∷ [];
        sequence = b.sequence + 1;
        prev = link;
        queued = b.queued ++ record { event = e'; prev_hash = b.prev; hash = link } ∷ [];
        recorded = b.recorded + 1;
        duplicates = b.duplicates;
      }

  unfoldable pub append_events : Bytes → ℤ → Batch → List Event → Batch
  append_events source record_time b [] = b
  append_events source record_time b (e ∷ es) =
      append_events source record_time (append_event source record_time b e) es

  -- appendTenant: how many events were recorded and skipped, and the tables after it.
  unfoldable pub append_tenant : Bytes → ℤ → List Event → Db → Bytes → (ℕ × ℕ) × Db
  append_tenant source record_time events db tenant =
      let opened = open_chain tenant db in
      let head = head_of (chain_of tenant opened) in
      let known : List Bytes =
        select_where (contains (map event_id_of events)) (map row_id (rows_of tenant opened)) in
      let b = append_events source record_time (start_batch known head) events in
      commit_batch tenant b opened

  -- The transaction of Append: each tenant's events in turn, the counts added up.
  unfoldable pub append_tenants : Bytes → ℤ → List Event → List Bytes → (ℕ × ℕ) × Db → (ℕ × ℕ) × Db
  append_tenants source record_time events [] acc = acc
  append_tenants source record_time events (t ∷ ts) ((recorded, duplicates), db) =
      let ((r, d), db') = append_tenant source record_time (select_events t events) db t in
      append_tenants source record_time events ts ((recorded + r, duplicates + d), db')

  unfoldable pub append : Bytes → ℤ → List Event → Db → (ℕ × ℕ) × Db
  append source record_time events db =
      append_tenants source record_time events (sort_strings (tenants_of events)) ((0, 0), db)
