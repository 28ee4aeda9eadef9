-- ===== src/Audit/Store/Tests.antt =====
-- The audit theorems at concrete tables, with a small function in the place of SHA-256.
use mathlib.Core.List.{foldl}
use cratos_ai.Prelude.{ℕ, ◌%◌, ◌≡◌, ◌↔◌, ◌⊎◌, refl, true, List, [], ◌∷◌, arith, length}
use cratos_ai.Audit.Encoding.Decimal.{pos}
use cratos_ai.Audit.Encoding.Keys.{Bytes, sort_strings, same_bytes, insert_key}
use cratos_ai.Audit.Chain.{Event}
use cratos_ai.Audit.Chain.Binding.{SameEvent, Collision, preimage-injective}
use cratos_ai.Audit.Store.{
  Row, Db, rows_of, append, append_tenants, tenants_of, contains, append_tenant, commit_batch,
  append_events, append_event, open_chain,
}
use cratos_ai.Audit.Store.Verify.{start, check_row, verify_loop, verify, sort_rows}
use cratos_ai.Audit.Store.Verify.Paging.{verify_loop-eq-foldl}
use cratos_ai.Audit.Store.Verify.Intact.{IsIntact, verify-intact_iff}
use cratos_ai.Audit.Store.Anchor.{SameTrail, head-anchors}
use cratos_ai.Audit.Store.History.{Call, empty, appends, appends-Ascending, verify-appends}

-- 32 bytes that depend on the length of the input only.
abbrev toy : Bytes → Bytes
toy x =
    length x % 256
    ∷ 1
    ∷ 2
    ∷ 3
    ∷ 4
    ∷ 5
    ∷ 6
    ∷ 7
    ∷ 8
    ∷ 9
    ∷ 10
    ∷ 11
    ∷ 12
    ∷ 13
    ∷ 14
    ∷ 15
    ∷ 16
    ∷ 17
    ∷ 18
    ∷ 19
    ∷ 20
    ∷ 21
    ∷ 22
    ∷ 23
    ∷ 24
    ∷ 25
    ∷ 26
    ∷ 27
    ∷ 28
    ∷ 29
    ∷ 30
    ∷ 31
    ∷ []

abbrev login : Bytes → Event
login id = record {
  tenant_id = b't' ∷ [];
  sequence = 0;
  event_id = id;
  occur_time = pos 1000;
  record_time = pos 0;
  actor_kind = b'u' ∷ [];
  actor_id = b'a' ∷ [];
  on_behalf_of = [];
  action = b'l' ∷ [];
  target_type = [];
  target_id = [];
  outcome = b'o' ∷ [];
  reason = [];
  request_id = [];
  source = [];
  details = (b'k' ∷ [], b'v' ∷ []) ∷ (b'a' ∷ [], []) ∷ [];
}

abbrev tenant : Bytes
tenant = b't' ∷ []

abbrev batch : List Call
batch =
    record {
      source = b's' ∷ [];
      record_time = pos 2000;
      events = login (b'1' ∷ []) ∷ login (b'2' ∷ []) ∷ login (b'1' ∷ []) ∷ [];
    }
    ∷ record { source = b's' ∷ []; record_time = pos 3000; events = login (b'2' ∷ []) ∷ [] }
    ∷ []

abbrev stored : Db
stored = appends toy batch empty

preimage-injective_example : (tenant ≡ tenant) × SameEvent (login tenant) (login tenant)
preimage-injective_example =
    preimage-injective tenant tenant (login tenant) (login tenant) refl refl

abbrev linked_row : ℕ → Row
linked_row n = record { event = record (login tenant) { sequence = n }; prev_hash = []; hash = [] }

abbrev three_rows : List Row
three_rows = linked_row 1 ∷ linked_row 2 ∷ linked_row 4 ∷ []

verify_loop-eq-foldl_example :
    verify_loop toy 4 2 three_rows start ≡ foldl (check_row toy) start three_rows
verify_loop-eq-foldl_example =
    verify_loop-eq-foldl toy 4 2 three_rows three_rows start (omega arith) (omega arith)
      (omega arith) refl

verify-intact_iff_example : ((verify toy tenant stored).intact ≡ true) ↔ IsIntact toy tenant stored
verify-intact_iff_example = verify-intact_iff toy tenant stored (appends-Ascending toy batch tenant)

head-anchors_example :
    SameTrail (sort_rows (rows_of tenant stored)) (sort_rows (rows_of tenant stored))
    ⊎ Collision toy
head-anchors_example =
    head-anchors toy (λ x. refl) tenant stored stored (appends-Ascending toy batch tenant)
      (appends-Ascending toy batch tenant) (verify-appends toy batch tenant)
      (verify-appends toy batch tenant) refl

verify-appends_example : (verify toy tenant stored).intact ≡ true
verify-appends_example = verify-appends toy batch tenant

-- The third event of the first batch and the event of the second are duplicates.
append_counts :
    ((append toy []
        (pos 0)
        (login (b'1' ∷ []) ∷ login (b'2' ∷ []) ∷ login (b'1' ∷ []) ∷ [])
        empty).0
      ≡ (2, 1))
unfolding append append_tenants sort_strings tenants_of contains same_bytes insert_key append_tenant
    commit_batch append_events append_event open_chain
append_counts = refl
