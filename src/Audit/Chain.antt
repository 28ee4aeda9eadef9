-- ===== src/Audit/Chain.antt =====
-- services/audit/internal/chain/chain.go: the hash of an event and its place in a tenant's chain.
-- SHA-256 is the parameter `sha256`; a Go string or byte slice is the list of its bytes.
pub mod Binding
use cratos_ai.Prelude.{ℕ, List, [], ◌∷◌, ◌++◌, length}
use cratos_ai.Audit.Encoding.Decimal.{ℤ, format_nat, format_int}
use cratos_ai.Audit.Encoding.Varint.{fields}
use cratos_ai.Audit.Encoding.Keys.{Bytes, Details, sort_strings, keys, detail_fields}

-- Times are Unix microseconds; sequences are counted from 1.
pub record Event : Type 0 where
  pub tenant_id : Bytes
  pub sequence : ℕ
  pub event_id : Bytes
  pub occur_time : ℤ
  pub record_time : ℤ
  pub actor_kind : Bytes
  pub actor_id : Bytes
  pub on_behalf_of : Bytes
  pub action : Bytes
  pub target_type : Bytes
  pub target_id : Bytes
  pub outcome : Bytes
  pub reason : Bytes
  pub request_id : Bytes
  pub source : Bytes
  pub details : Details

-- "jarvis.audit.v1\x00"
abbrev pub domain : Bytes
domain =
    b'j' ∷ b'a' ∷ b'r' ∷ b'v' ∷ b'i' ∷ b's' ∷ b'.' ∷ b'a' ∷ b'u' ∷ b'd' ∷ b'i' ∷ b't' ∷ b'.' ∷ b'v'
    ∷ b'1' ∷ 0 ∷ []

-- The texts that are hashed, in their order; the last ones are the sorted details.
unfoldable pub event_fields : Event → List Bytes
event_fields e =
    let names = sort_strings (keys e.details) in
    e.tenant_id
    ∷ format_nat e.sequence
    ∷ e.event_id
    ∷ format_int e.occur_time
    ∷ format_int e.record_time
    ∷ e.actor_kind
    ∷ e.actor_id
    ∷ e.on_behalf_of
    ∷ e.action
    ∷ e.target_type
    ∷ e.target_id
    ∷ e.outcome
    ∷ e.reason
    ∷ e.request_id
    ∷ e.source
    ∷ format_nat (length names)
    ∷ detail_fields e.details names

-- What is written to the hash: the domain, the previous hash, the fields.
unfoldable pub preimage : Bytes → Event → Bytes
preimage prev e = domain ++ (prev ++ fields (event_fields e))

module _ (sha256 : Bytes → Bytes) where
  unfoldable pub hash : Bytes → Event → Bytes
  hash prev e = sha256 (preimage prev e)
