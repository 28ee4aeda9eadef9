-- ===== src/Router/Limits.antt =====
-- services/mcp-router/internal/limits/limits.go: calls per minute, by the generic cell rate algorithm,
-- whose script runs atomically on a shared Redis. Times are in milliseconds. The store maps a key to
-- its "theoretical arrival time"; Redis is a parameter only in that a call of it may fail.
pub mod Bucket
pub mod Rate
use cratos_ai.Prelude.{
  ℕ, ◌+◌, ◌-◌, ◌*◌, ◌/◌, max, ltb, ◌==◌, Bool, true, false, Option, none, some, List, [], ◌∷◌,
  String, if◌then◌else◌, coalesce,
}

pub record Rule : Type 0 where
  pub interval_ms : ℕ
  pub burst : ℕ

-- perMinute, for a positive number of calls
unfoldable pub per_minute : ℕ → Rule
per_minute n = record { interval_ms = max (60000 / n) 1; burst = n }

-- A key's value and when it expires (PX).
pub record Cell : Type 0 where
  pub tat : ℕ
  pub expires : ℕ

-- GET: a value past its expiry is gone.
abbrev pub get : ℕ → Option Cell → Option ℕ
get now none = none
get now (some c) = if ltb now c.expires then some c.tat else none

-- The script's answer: whether the call is allowed, and how long to wait if it is not.
pub record Reply : Type 0 where
  pub allowed : Bool
  pub retry_ms : ℕ

-- The time that the script starts from.
abbrev pub start : ℕ → Option Cell → ℕ
start now cell = max (coalesce (get now cell) now) now

-- gcra: `now < allow_at` is written without the subtraction, which the script makes on signed
-- numbers.
unfoldable pub gcra : Rule → ℕ → Option Cell → Reply × Option Cell
gcra r now cell =
    let new_tat = start now cell + r.interval_ms in
    if ltb (now + r.burst * r.interval_ms) new_tat
    then (record { allowed = false; retry_ms = new_tat - (now + r.burst * r.interval_ms) }, cell)
    else (
      record { allowed = true; retry_ms = 0 },
      some (record { tat = new_tat; expires = now + (new_tat - now) }),
    )

pub record Limits : Type 0 where
  pub tenant : Rule
  pub integration : Rule

-- New
unfoldable pub new_limits : ℕ → ℕ → Limits
new_limits per_tenant per_integration = record {
  tenant = per_minute per_tenant;
  integration = per_minute per_integration;
}

-- The cells of one tenant and one integration.
pub record Cells : Type 0 where
  pub tenant : Option Cell
  pub integration : Option Cell

-- allow: no answer where Redis fails, and then the key is as it was.
abbrev pub allow_one : Bool → Rule → ℕ → Option Cell → Option Reply × Option Cell
allow_one false r now cell = (none, cell)
allow_one true r now cell = let (reply, cell') = gcra r now cell in (some reply, cell')

-- A failure lets the call through.
abbrev pub passes : Option Reply → Bool
passes none = true
passes (some r) = r.allowed

abbrev pub wait_of : Option Reply → ℕ
wait_of none = 0
wait_of (some r) = r.retry_ms

-- Allow: the tenant's limit, and then the integration's; `up` says which of the two calls of Redis
-- succeed.
unfoldable pub allow : Limits → Bool × Bool → ℕ → Cells → (Bool × ℕ) × Cells
allow l up now cs =
    let (reply, cell) = allow_one up.0 l.tenant now cs.tenant in
    let (reply', cell') = allow_one up.1 l.integration now cs.integration in
    if passes reply
    then (
      if passes reply' then (true, 0) else (false, wait_of reply'),
      record { tenant = cell; integration = cell' },
    )
    else ((false, wait_of reply), record { tenant = cell; integration = cs.integration })
