-- ===== src/App/Sessions/Replay.antt =====
-- A refresh token that is used again after its rotation.
use cratos_ai.Prelude.{
  ℕ, ◌+◌, ◌<◌, ◌≤◌, ◌==◌, ◌≡◌, ◌≢◌, refl, Bool, true, false, not, ◌&&◌, ◌||◌, none, some, List, [],
  ◌∷◌, arith, All, is_some, find_where, update_where, Bool-cases, inl, inr, ok,
}
use cratos_ai.Prelude.Rows.{Within, find-Within, absent-Within, find-update}
use cratos_ai.App.Model.{Session, Db, RefreshOutcome, reused_token}
use cratos_ai.App.Sessions.{
  session_key, has_id, has_token, can_refresh, refresh, refresh_change, write_session, rotate,
  retry, revoke_row, clashes,
}
use cratos_ai.App.Sessions.Revoked.{is_live, Ended}

-- The session is the one row of its id, and no other has any of these tokens.
abbrev pub Owns : Session → (Session → Bool) → Db → Type 0
Owns s tokens db =
    (find_where (has_id s.id) db.sessions ≡ some s) × Within (has_id s.id) tokens db.sessions

-- A write that keeps the id and gives the row no token but these.
Within-weaken :
    (tokens q : Session → Bool) (id : ℕ)
    → ((r : Session) → tokens r ≡ false → q r ≡ false)
    → (xs : List Session) → Within (has_id id) tokens xs
    → Within (has_id id) q xs
Within-weaken tokens q id apart [] h = tt
Within-weaken tokens q id apart (x ∷ xs) (hx, h) =
    (ground (arith, apart x), Within-weaken tokens q id apart xs h)

Within-update :
    (f : Session → Session) (id : ℕ) (tokens : Session → Bool)
    → ((r : Session) → session_key (f r) ≡ session_key r)
    → (xs : List Session) → Within (has_id id) tokens xs
    → Within (has_id id) tokens (update_where (has_id id) f xs)
Within-update f id tokens same [] h = tt
Within-update f id tokens same (x ∷ xs) (hx, h) =
    (ground (arith, same x), Within-update f id tokens same xs h)

write-Owns :
    (outcome : RefreshOutcome) (f : Session → Session) (s : Session) (tokens : Session → Bool)
    (db : Db)
    → ((r : Session) → session_key (f r) ≡ session_key r)
    → ((r : Session) → tokens r ≡ false → clashes (f s) r ≡ false)
    → Owns s tokens db
    → ((write_session outcome f s db).0 ≡ ok (f s, outcome))
      × Owns (f s) tokens (write_session outcome f s db).1
unfolding write_session
write-Owns outcome f s tokens db same apart (own, within) =
    let none_else : find_where (λ r. not (has_id s.id r) && clashes (f s) r) db.sessions ≡ none =
      absent-Within (has_id s.id) (clashes (f s)) db.sessions
        (Within-weaken tokens (clashes (f s)) s.id apart db.sessions within) in
    let key : (f s).id ≡ s.id = same s in
    let row = find-update session_key (has_id s.id) f same s.id db.sessions s own in
    rw (none_else, key)
      (refl, (ground (arith, row), Within-update f s.id tokens same db.sessions within))

-- The old token and the one that replaced it.
abbrev pub either : ℕ → ℕ → Session → Bool
either old next r = has_token old r || has_token next r

update-Ended :
    (f : Session → Session) (id : ℕ)
    → ((r : Session) → is_live id (f r) ≡ false)
    → (xs : List Session) → All (λ r. is_live id r ≡ false) (update_where (has_id id) f xs)
update-Ended f id ends [] = tt
update-Ended f id ends (x ∷ xs) = (ground (arith, ends x), update-Ended f id ends xs)

-- A refresh by the current token of a session that may be refreshed, when no other row has that
-- token or the new one: the session rotates, and its tokens remain its own.
pub refresh_rotates :
    (old next idle_ttl grace now : ℕ) (s : Session) (tokens : Session → Bool) (db : Db)
    → ((r : Session) → tokens r ≡ false → either old next r ≡ false)
    → Owns s tokens db
    → s.refresh_hash ≡ old
    → can_refresh old now s ≡ true
    → let first = refresh old next idle_ttl grace now db in
      (first.0 ≡ ok (rotate next idle_ttl now s, RefreshOutcome.rotated))
      × Owns (rotate next idle_ttl now s) tokens first.1
unfolding refresh refresh_change
refresh_rotates old next idle_ttl grace now s tokens db apart (own, within) cur can =
    let hit : find_where (can_refresh old now) db.sessions ≡ some s =
      find-Within (has_id s.id) (can_refresh old now) db.sessions s own
        (Within-weaken tokens (can_refresh old now) s.id (λ r h. ground (arith, apart r h))
          db.sessions within)
        can in
    let yes : (s.refresh_hash == old) ≡ true = ground arith in
    rw (hit, yes)
      (write-Owns RefreshOutcome.rotated (rotate next idle_ttl now) s tokens db (λ r. refl)
        (λ r h. ground (arith, apart r h)) (own, within))

-- A refresh by the token before the current one changes the session by `f`.
previous-refresh :
    (old next idle_ttl grace now : ℕ) (outcome : RefreshOutcome) (f : Session → Session)
    (s : Session) (tokens : Session → Bool) (db : Db)
    → ((r : Session) → tokens r ≡ false → has_token old r ≡ false)
    → ((r : Session) → tokens r ≡ false → clashes (f s) r ≡ false)
    → ((r : Session) → session_key (f r) ≡ session_key r)
    → Owns s tokens db
    → refresh_change old next idle_ttl grace now s ≡ (outcome, f)
    → can_refresh old now s ≡ true
    → let second = refresh old next idle_ttl grace now db in second ≡ write_session outcome f s db
unfolding refresh
previous-refresh old next idle_ttl grace now outcome f s tokens db apart fresh same (own, within) e
      can =
    let hit : find_where (can_refresh old now) db.sessions ≡ some s =
      find-Within (has_id s.id) (can_refresh old now) db.sessions s own
        (Within-weaken tokens (can_refresh old now) s.id (λ r h. ground (arith, apart r h))
          db.sessions within)
        can in
    rw (hit, e) refl

write-Ended_all :
    (outcome : RefreshOutcome) (f : Session → Session) (s : Session) (db : Db)
    → ((r : Session) → is_live s.id (f r) ≡ false)
    → (write_session outcome f s db).0 ≡ ok (f s, outcome)
    → Ended s.id (write_session outcome f s db).1
unfolding write_session
write-Ended_all outcome f s db ends e =
    elim (Bool-cases
      (is_some (find_where (λ r. not (has_id s.id r) && clashes (f s) r) db.sessions))) [
        | inl t ↦ absurd (cc (rw t at e))
        | inr t ↦ rw t (update-Ended f s.id ends db.sessions)
      ]

-- A copied token. A session rotates from the token `old` to `next` at time t, and no other row has
-- either token. If the very next use of the session is that `old` is presented again, when the grace
-- period is over and the session has not expired, Refresh answers Reused, gives out nothing new, and
-- leaves no live session of that id.
pub replay_ends_session :
    (old next next' idle_ttl idle_ttl' grace t t' : ℕ) (s : Session) (db : Db)
    → Owns s (either old next) db
    → s.refresh_hash ≡ old
    → old ≢ next
    → can_refresh old t s ≡ true
    → t + grace ≤ t'
    → t' < t + idle_ttl
    → let first = refresh old next idle_ttl grace t db in
      let second = refresh old next' idle_ttl' grace t' first.1 in
      (first.0 ≡ ok (rotate next idle_ttl t s, RefreshOutcome.rotated))
      × (second.0
          ≡ ok (revoke_row t' reused_token (rotate next idle_ttl t s), RefreshOutcome.reused))
      × Ended s.id second.1
replay_ends_session old next next' idle_ttl idle_ttl' grace t t' s db own cur ne can late alive =
    let (one, owns) =
      refresh_rotates old next idle_ttl grace t s (either old next) db (λ r h. h) own cur can in
    let after = (refresh old next idle_ttl grace t db).1 in
    let s' = rotate next idle_ttl t s in
    let f = revoke_row t' reused_token in
    let change : refresh_change old next' idle_ttl' grace t' s' ≡ (RefreshOutcome.reused, f) =
      unfold refresh_change in (ground arith) in
    let can' : can_refresh old t' s' ≡ true = ground arith in
    let two =
      previous-refresh old next' idle_ttl' grace t' RefreshOutcome.reused f s' (either old next)
        after (λ r h. ground arith) (λ r h. ground arith) (λ r. refl) owns change can' in
    let (answer, _) =
      write-Owns RefreshOutcome.reused f s' (either old next) after (λ r. refl)
        (λ r h. ground arith) owns in
    (
      one,
      rw two answer,
      rw two (write-Ended_all RefreshOutcome.reused f s' after (λ r. ground arith) answer),
    )

-- A lost response. Let a session's current token `old` be rotated at `t`, and be presented again at
-- `t'`, within the grace period and before the session expires, when no other row has any of the
-- tokens. Then Refresh answers Retried and gives out next', which takes the place of the token that
-- was never received. The row keeps `old` as its previous token, `t` as the time of its rotation and
-- the expiry that the rotation set, so neither the grace period nor the session extends.
pub replay_in_grace :
    (old next next' idle_ttl idle_ttl' grace t t' : ℕ) (s : Session) (db : Db)
    → Owns s (λ r. either old next r || has_token next' r) db
    → s.refresh_hash ≡ old
    → old ≢ next
    → can_refresh old t s ≡ true
    → t' < t + grace
    → t' < t + idle_ttl
    → let first = refresh old next idle_ttl grace t db in
      let second = refresh old next' idle_ttl' grace t' first.1 in
      let row = record s {
        refresh_hash = next';
        previous_hash = some s.refresh_hash;
        rotated_at = some t;
        refresh_expires_at = t + idle_ttl;
        last_used_at = t';
      } in
      (second.0 ≡ ok (row, RefreshOutcome.retried))
      × Owns row (λ r. either old next r || has_token next' r) second.1
replay_in_grace old next next' idle_ttl idle_ttl' grace t t' s db own cur ne can early alive =
    let tokens : Session → Bool = λ r. either old next r || has_token next' r in
    let (one, owns) =
      refresh_rotates old next idle_ttl grace t s tokens db (λ r h. ground arith) own cur can in
    let after = (refresh old next idle_ttl grace t db).1 in
    let s' = rotate next idle_ttl t s in
    let f = retry next' t' in
    let change : refresh_change old next' idle_ttl' grace t' s' ≡ (RefreshOutcome.retried, f) =
      unfold refresh_change in (ground arith) in
    let can' : can_refresh old t' s' ≡ true = ground arith in
    let two =
      previous-refresh old next' idle_ttl' grace t' RefreshOutcome.retried f s' tokens after
        (λ r h. ground arith) (λ r h. ground arith) (λ r. refl) owns change can' in
    rw two
      (write-Owns RefreshOutcome.retried f s' tokens after (λ r. refl) (λ r h. ground arith) owns)
