-- ===== src/Voice/Session/Starting/Slots.antt =====
-- Every session gives back the slot that it took.
use cratos_ai.Prelude.{
  ℕ, ◌+◌, ◌≡◌, refl, Bool, true, false, Option, none, some, List, [], ◌∷◌, ◌++◌, arith, length,
  get_elem?, Bool-cases, inl, inr,
}
use cratos_ai.Voice.Counts.{get, put, get-put}
use cratos_ai.Voice.Limiter.{Lease, Gate, is_full, acquire, release, active}
use cratos_ai.Voice.Limiter.Caps.{get-decrement}
use cratos_ai.Voice.Session.{Ending}
use cratos_ai.Voice.Session.Starting.{
  Start, Config, KeyAnswer, DialAnswer, Resolved, bad, resolved, resolve, connect, run_connected,
  run_resolved, run_session,
}

-- The limiter counts as many sessions as before, in all and of each tenant.
abbrev pub SameCounts : Gate → Gate → Type 0
SameCounts g g' =
    (active g' ≡ active g)
    × ((tenant : ℕ) → get tenant g'.limiter.per_tenant ≡ get tenant g.limiter.per_tenant)

get-last : (xs : List Lease) (x : Lease) → get_elem? (xs ++ x ∷ []) (length xs) ≡ some x
get-last [] x = refl
get-last (y ∷ xs) x = get-last xs x

abbrev taken : ℕ → Gate → Gate
taken tenant g = record {
  limiter = record g.limiter {
    total = g.limiter.total + 1;
    per_tenant = put tenant (get tenant g.limiter.per_tenant + 1) g.limiter.per_tenant;
  };
  leases = g.leases ++ record { tenant = tenant; released = false } ∷ [];
}

release-taken : (tenant : ℕ) (g : Gate) → SameCounts g (release (length g.leases) (taken tenant g))
unfolding release active
release-taken tenant g =
    let l : Lease = record { tenant = tenant; released = false } in
    let e = get-last g.leases l in
    let es = g.limiter.per_tenant in
    let up = put tenant (get tenant es + 1) es in
    rw e (
      omega arith,
      λ t.
          let d = get-decrement tenant t up in
          let a = get-put tenant t (get tenant es + 1) es in ground (arith, d, a),
    )

module _ (cfg : Config) where
  connected-SameCounts :
      (tenant : ℕ) (written : Bool) (body : Ending) (o : Option Ending) (g : Gate)
      → SameCounts g
          (run_connected cfg (length g.leases) written body (λ x. x) (taken tenant g) o).1
  connected-SameCounts tenant written body (some e) g = release-taken tenant g
  connected-SameCounts tenant true body none g = release-taken tenant g
  connected-SameCounts tenant false body none g = release-taken tenant g

  resolved-SameCounts :
      (tenant : ℕ) (key : KeyAnswer) (dial : DialAnswer) (written : Bool) (body : Ending) (g : Gate)
      (r : Resolved)
      → SameCounts g (run_resolved cfg tenant key dial written body (λ x. x) g r).1
  unfolding acquire
  resolved-SameCounts tenant key dial written body g (bad e) = (refl, λ t. refl)
  resolved-SameCounts tenant key dial written body g (resolved kind p voice) =
      elim (Bool-cases (is_full tenant g.limiter)) [
        | inl e ↦ rw e (refl, λ t. refl)
        | inr e ↦ rw e (connected-SameCounts tenant written body (connect cfg p key dial) g)
      ]

  -- Every session gives back the slot that it took. However a session ends (refused, without a key
  -- or a provider, lost before it was ready, or after it was served), the limiter counts as many
  -- sessions afterwards as before, in all and of each tenant, if no other session comes or goes in
  -- the meantime.
  pub run_session-SameCounts :
      (tenant : ℕ) (start : Start) (key : KeyAnswer) (dial : DialAnswer) (written : Bool)
      (body : Ending) (g : Gate)
      → SameCounts g (run_session cfg tenant start key dial written body (λ x. x) g).1
  unfolding run_session
  run_session-SameCounts tenant start key dial written body g =
      resolved-SameCounts tenant key dial written body g (resolve cfg start)
