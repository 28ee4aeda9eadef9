-- ===== src/Audit/Chain/Binding.antt =====
-- What the hash of an event binds: every field of the event, its details and the previous hash.
use cratos_ai.Prelude.{◌≡◌, ◌≢◌, refl, ap, sym, ◌⊎◌, inl, inr, length, Bool-cases}
use cratos_ai.Audit.Encoding.Decimal.{format_nat-injective, format_int-injective}
use cratos_ai.Audit.Encoding.Varint.{same_prefix, fields-injective}
use cratos_ai.Audit.Encoding.Keys.{
  Bytes, lookup, same_bytes, same_bytes→eq, same_bytes_refl, detail_fields-lookup,
}
use cratos_ai.Audit.Chain.{Event, domain, event_fields, preimage, hash}

-- Two events with the same contents: all fields, and the details as maps.
pub record SameEvent (e f : Event) : Type 0 where
  pub tenant_id : e.tenant_id ≡ f.tenant_id
  pub sequence : e.sequence ≡ f.sequence
  pub event_id : e.event_id ≡ f.event_id
  pub occur_time : e.occur_time ≡ f.occur_time
  pub record_time : e.record_time ≡ f.record_time
  pub actor_kind : e.actor_kind ≡ f.actor_kind
  pub actor_id : e.actor_id ≡ f.actor_id
  pub on_behalf_of : e.on_behalf_of ≡ f.on_behalf_of
  pub action : e.action ≡ f.action
  pub target_type : e.target_type ≡ f.target_type
  pub target_id : e.target_id ≡ f.target_id
  pub outcome : e.outcome ≡ f.outcome
  pub reason : e.reason ≡ f.reason
  pub request_id : e.request_id ≡ f.request_id
  pub source : e.source ≡ f.source
  pub details : (k : Bytes) → lookup e.details k ≡ lookup f.details k

event_fields-SameEvent : (e f : Event) → event_fields e ≡ event_fields f → SameEvent e f
unfolding event_fields
event_fields-SameEvent e f h = record {
  tenant_id = cc h;
  sequence = format_nat-injective e.sequence f.sequence (cc h);
  event_id = cc h;
  occur_time = format_int-injective e.occur_time f.occur_time (cc h);
  record_time = format_int-injective e.record_time f.record_time (cc h);
  actor_kind = cc h;
  actor_id = cc h;
  on_behalf_of = cc h;
  action = cc h;
  target_type = cc h;
  target_id = cc h;
  outcome = cc h;
  reason = cc h;
  request_id = cc h;
  source = cc h;
  details = detail_fields-lookup e.details f.details (cc h);
}

-- The encoding is unambiguous: after previous hashes of one length, equal inputs to SHA-256 come
-- from equal previous hashes and events with the same contents.
pub preimage-injective :
    (p q : Bytes) (e f : Event)
    → length p ≡ length q
    → preimage p e ≡ preimage q f
    → (p ≡ q) × SameEvent e f
unfolding preimage
preimage-injective p q e f l h =
    let (_, body) = same_prefix domain domain refl h in
    let (same, rest) = same_prefix p q l body in
    (same, event_fields-SameEvent e f (fields-injective (event_fields e) (event_fields f) rest))

-- Two inputs that differ and have one SHA-256.
abbrev pub Collision : (Bytes → Bytes) → Type 0
Collision sha256 = (x : Bytes) × (y : Bytes) × (x ≢ y) × (sha256 x ≡ sha256 y)

pub eq_or_Collision :
    (sha256 : Bytes → Bytes) (x y : Bytes) → sha256 x ≡ sha256 y → (x ≡ y) ⊎ Collision sha256
eq_or_Collision sha256 x y h = elim (Bool-cases (same_bytes x y)) [
  | inl same ↦ inl (same_bytes→eq x y same)
  | inr other ↦ inr (x, y, (λ e. cc (sym (ap (same_bytes x) e), same_bytes_refl x, other)), h)
]

-- One hash for two events: the events have the same contents after the same previous hash, or the
-- two inputs are a collision of SHA-256.
pub hash-binds :
    (sha256 : Bytes → Bytes) (p q : Bytes) (e f : Event)
    → length p ≡ length q
    → hash sha256 p e ≡ hash sha256 q f
    → ((p ≡ q) × SameEvent e f) ⊎ Collision sha256
unfolding hash
hash-binds sha256 p q e f l h = elim (eq_or_Collision sha256 (preimage p e) (preimage q f) h) [
  | inl same ↦ inl (preimage-injective p q e f l same)
  | inr bad ↦ inr bad
]

pub length-hash :
    (sha256 : Bytes → Bytes) (p : Bytes) (e : Event)
    → ((x : Bytes) → length (sha256 x) ≡ 32)
    → length (hash sha256 p e) ≡ 32
unfolding hash
length-hash sha256 p e size = size (preimage p e)
