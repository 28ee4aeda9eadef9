-- ===== src/Voice/Limiter.antt =====
-- services/voice-gateway/internal/session/limiter.go. A release function is a lease, known by its
-- place in the list of all that were handed out; its sync.Once is the flag `released`.
pub mod Caps
use cratos_ai.Prelude.{
  ℕ, ◌+◌, ◌-◌, leb, ◌==◌, Bool, true, false, ◌||◌, Option, none, some, List, [], ◌∷◌, ◌++◌, length,
  get_elem?, set, if◌then◌else◌,
}
use cratos_ai.Voice.Counts.{Entry, get, put, delete}

pub record Limiter : Type 0 where
  pub max_total : ℕ
  pub max_per_tenant : ℕ
  pub total : ℕ
  pub per_tenant : List Entry

pub record Lease : Type 0 where
  pub tenant : ℕ
  pub released : Bool

pub record Gate : Type 0 where
  pub limiter : Limiter
  pub leases : List Lease

-- NewLimiter
unfoldable pub new_limiter : ℕ → ℕ → Limiter
new_limiter max_total max_per_tenant = record {
  max_total = max_total;
  max_per_tenant = max_per_tenant;
  total = 0;
  per_tenant = [];
}

abbrev pub is_full : ℕ → Limiter → Bool
is_full tenant l = leb l.max_total l.total || leb l.max_per_tenant (get tenant l.per_tenant)

-- Acquire: the lease, unless a cap is reached.
unfoldable pub acquire : ℕ → Gate → Option ℕ × Gate
acquire tenant g =
    let l = g.limiter in
    if is_full tenant l then (none, g) else (
      some (length g.leases),
      record {
        limiter = record l {
          total = l.total + 1;
          per_tenant = put tenant (get tenant l.per_tenant + 1) l.per_tenant;
        };
        leases = g.leases ++ record { tenant = tenant; released = false } ∷ [];
      },
    )

-- The tenant's count one lower, its entry deleted at 0.
abbrev pub decrement : ℕ → List Entry → List Entry
decrement tenant es =
    let n = get tenant es - 1 in
    let lower = put tenant n es in if n == 0 then delete tenant lower else lower

abbrev pub release_lease : ℕ → Gate → Option Lease → Gate
release_lease id g none = g
release_lease id g (some lease) =
    let l = g.limiter in
    if lease.released then g else record {
      limiter = record l { total = l.total - 1; per_tenant = decrement lease.tenant l.per_tenant };
      leases = set g.leases id (record lease { released = true });
    }

-- The function that Acquire returned.
unfoldable pub release : ℕ → Gate → Gate
release id g = release_lease id g (get_elem? g.leases id)

-- Active
unfoldable pub active : Gate → ℕ
active g = g.limiter.total

-- Sessions that open and close in any order.
pub data Op : Type 0 where
  open_session : ℕ → Op
  close_session : ℕ → Op

unfoldable pub step : Op → Gate → Gate
step (open_session tenant) g = (acquire tenant g).1
step (close_session id) g = release id g

unfoldable pub run : List Op → Gate → Gate
run [] g = g
run (op ∷ ops) g = run ops (step op g)
