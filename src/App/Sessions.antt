-- ===== src/App/Sessions.antt =====
-- services/app-api/internal/store/store.go: pairing codes and the sessions of paired apps. `now` is the
-- database's clock.
pub mod Ops
pub mod Revoked
pub mod Redeem
pub mod Replay
use cratos_ai.Prelude.{
  ℕ, ltb, leb, ◌==◌, Bool, true, false, not, ◌&&◌, ◌||◌, Option, none, some, List, [], ◌∷◌, ◌++◌,
  String, str_eq, holds, is_some, coalesce, if◌then◌else◌, select_where, find_where, update_where,
  update_returning, sort_by, take, map, length, ◌+◌, Error, Result, ok, err, not_found, rejected,
  found,
}
use cratos_ai.App.Model.{
  PairingCode, Session, PushToken, Db, RefreshOutcome, NewSession, Reason, signed_out, reused_token,
}

-- Session.Active
unfoldable pub is_active : ℕ → Session → Bool
is_active now s = not (is_some s.revoked_at) && ltb now s.refresh_expires_at

abbrev pub code_key : PairingCode → ℕ
code_key c = c.code_hash

abbrev pub session_key : Session → ℕ
session_key s = s.id

abbrev pub has_code : ℕ → PairingCode → Bool
has_code hash c = c.code_hash == hash

abbrev pub has_id : ℕ → Session → Bool
has_id id s = s.id == id

-- CreatePairingCode
unfoldable pub create_pairing_code : ℕ → ℕ → String → ℕ → Db → Result (Unit {0}) × Db
create_pairing_code hash tenant user expires db =
    let row : PairingCode = record {
      code_hash = hash;
      tenant_id = tenant;
      user_id = user;
      expires_at = expires;
      redeemed_at = none;
      session_id = none;
    } in
    if is_some (find_where (has_code hash) db.codes)
    then (err rejected, db)
    else (ok tt, record db { codes = db.codes ++ row ∷ [] })

-- The WHERE clause of RedeemPairingCode.
abbrev pub can_redeem : ℕ → ℕ → PairingCode → Bool
can_redeem hash now c = has_code hash c && not (is_some c.redeemed_at) && ltb now c.expires_at

abbrev pub redeemed : ℕ → ℕ → PairingCode → PairingCode
redeemed session now c = record c { redeemed_at = some now; session_id = some session }

-- The row that the INSERT of RedeemPairingCode writes.
abbrev pub new_row : PairingCode → NewSession → ℕ → Session
new_row c n now = record {
  id = n.id;
  tenant_id = c.tenant_id;
  user_id = c.user_id;
  device_name = n.device_name;
  device_model = n.device_model;
  refresh_hash = n.refresh_hash;
  previous_hash = none;
  rotated_at = none;
  refresh_expires_at = n.refresh_expires_at;
  created_at = now;
  last_used_at = now;
  revoked_at = none;
  revoke_reason = none;
}

-- Two rows that the table's UNIQUE columns keep apart.
abbrev pub clashes : Session → Session → Bool
clashes s r =
    r.refresh_hash == s.refresh_hash
    || holds s.previous_hash (λ h. holds r.previous_hash (λ k. k == h))

-- The second statement of RedeemPairingCode, once a code was found.
abbrev pub redeem_found :
    NewSession → ℕ → List PairingCode → Db → Option PairingCode → Result Session × Db
redeem_found n now codes db none = (err not_found, db)
redeem_found n now codes db (some c) =
    let row = new_row c n now in
    if is_some (find_where (λ r. has_id row.id r || clashes row r) db.sessions)
    then (err rejected, db)
    else (ok row, record db { codes = codes; sessions = db.sessions ++ row ∷ [] })

-- RedeemPairingCode: one transaction, which an error rolls back.
unfoldable pub redeem_pairing_code : ℕ → NewSession → ℕ → Db → Result Session × Db
redeem_pairing_code hash n now db =
    let (row, codes) = update_returning (can_redeem hash now) (redeemed n.id now) db.codes in
    redeem_found n now codes db row

-- The current token of a session, or the one before it.
abbrev pub has_token : ℕ → Session → Bool
has_token hash s = s.refresh_hash == hash || holds s.previous_hash (λ h. h == hash)

-- The WHERE clause of Refresh.
abbrev pub can_refresh : ℕ → ℕ → Session → Bool
can_refresh presented now s =
    has_token presented s && not (is_some s.revoked_at) && ltb now s.refresh_expires_at

-- rotated_at > now - grace, and false where it is NULL.
abbrev pub in_grace : ℕ → ℕ → Session → Bool
in_grace grace now s = holds s.rotated_at (λ at. ltb now (at + grace))

abbrev pub rotate : ℕ → ℕ → ℕ → Session → Session
rotate next idle_ttl now s = record s {
  previous_hash = some s.refresh_hash;
  refresh_hash = next;
  rotated_at = some now;
  refresh_expires_at = now + idle_ttl;
  last_used_at = now;
}

abbrev pub retry : ℕ → ℕ → Session → Session
retry next now s = record s { refresh_hash = next; last_used_at = now }

abbrev pub revoke_row : ℕ → Reason → Session → Session
revoke_row now reason s = record s { revoked_at = some now; revoke_reason = some reason }

-- What Refresh does to the session that it found.
unfoldable pub refresh_change : ℕ → ℕ → ℕ → ℕ → ℕ → Session → RefreshOutcome × (Session → Session)
refresh_change presented next idle_ttl grace now s =
    if s.refresh_hash == presented
    then (RefreshOutcome.rotated, rotate next idle_ttl now)
    else if in_grace grace now s
    then (RefreshOutcome.retried, retry next now)
    else (RefreshOutcome.reused, revoke_row now reused_token)

-- UPDATE sessions … WHERE id = s.id RETURNING …, refused where it breaks a UNIQUE column.
unfoldable pub write_session :
    RefreshOutcome → (Session → Session) → Session → Db → Result (Session × RefreshOutcome) × Db
write_session outcome f s db =
    if is_some (find_where (λ r. not (has_id s.id r) && clashes (f s) r) db.sessions)
    then (err rejected, db)
    else (ok (f s, outcome), record db { sessions = update_where (has_id s.id) f db.sessions })

abbrev pub refresh_found :
    ℕ → ℕ → ℕ → ℕ → ℕ → Db → Option Session → Result (Session × RefreshOutcome) × Db
refresh_found presented next idle_ttl grace now db none = (err not_found, db)
refresh_found presented next idle_ttl grace now db (some s) =
    let change = refresh_change presented next idle_ttl grace now s in
    write_session change.0 change.1 s db

-- Refresh
unfoldable pub refresh : ℕ → ℕ → ℕ → ℕ → ℕ → Db → Result (Session × RefreshOutcome) × Db
refresh presented next idle_ttl grace now db =
    refresh_found presented next idle_ttl grace now db
      (find_where (can_refresh presented now) db.sessions)

-- Session
unfoldable pub session : ℕ → Db → Result Session
session id db = found (find_where (has_id id) db.sessions)

abbrev pub can_sign_out : ℕ → Session → Bool
can_sign_out presented s = has_token presented s && not (is_some s.revoked_at)

-- SignOut: the session that ended, if any.
unfoldable pub sign_out : ℕ → ℕ → Db → Option Session × Db
sign_out presented now db =
    let (row, rows) =
      update_returning (can_sign_out presented) (revoke_row now signed_out) db.sessions in
    (row, record db { sessions = rows })

abbrev pub is_listed : ℕ → String → ℕ → Session → Bool
is_listed tenant user now s =
    s.tenant_id == tenant
    && str_eq s.user_id user
    && not (is_some s.revoked_at)
    && ltb now s.refresh_expires_at

-- Sessions: most recently used first, at most 100.
unfoldable pub sessions_of : ℕ → String → ℕ → Db → List Session
sessions_of tenant user now db = take 100 (
    sort_by (λ a b. leb b.last_used_at a.last_used_at)
      (select_where (is_listed tenant user now) db.sessions))

abbrev pub can_revoke : ℕ → String → ℕ → Session → Bool
can_revoke tenant user id s =
    has_id id s && s.tenant_id == tenant && str_eq s.user_id user && not (is_some s.revoked_at)

-- Revoke: whether one was active.
unfoldable pub revoke : ℕ → String → ℕ → Reason → ℕ → Db → Bool × Db
revoke tenant user id reason now db =
    let p = can_revoke tenant user id in
    (
      length (select_where p db.sessions) == 1,
      record db { sessions = update_where p (revoke_row now reason) db.sessions },
    )

abbrev pub is_stale_code : ℕ → ℕ → PairingCode → Bool
is_stale_code keep now c = ltb (c.expires_at + keep) now

abbrev pub is_stale : ℕ → ℕ → Session → Bool
is_stale keep now s = ltb (coalesce s.revoked_at s.refresh_expires_at + keep) now

-- Purge: the device tokens of a deleted session go with it (ON DELETE CASCADE).
unfoldable pub purge : ℕ → ℕ → Db → ℕ × Db
purge keep now db =
    let gone = select_where (is_stale keep now) db.sessions in
    (
      length (select_where (is_stale_code keep now) db.codes) + length gone,
      record {
        codes = select_where (λ c. not (is_stale_code keep now c)) db.codes;
        sessions = select_where (λ s. not (is_stale keep now s)) db.sessions;
        push_rows =
            select_where (λ t. not (is_some (find_where (has_id t.session_id) gone))) db.push_rows;
      },
    )
