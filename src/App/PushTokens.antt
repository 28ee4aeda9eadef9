-- ===== src/App/PushTokens.antt =====
-- services/app-api/internal/store/store.go: the device tokens that the notifications of a session go to.
pub mod Delivery
use cratos_ai.Prelude.{
  ℕ, ltb, ◌==◌, Bool, not, ◌&&◌, ◌||◌, none, some, List, [], ◌∷◌, ◌++◌, String, str_eq, holds,
  is_some, if◌then◌else◌, select_where, find_where, update_where, Result, ok, err, rejected,
}
use cratos_ai.App.Model.{PushToken, Session, Db}
use cratos_ai.App.Sessions.{has_id, is_listed}

abbrev pub session_key : PushToken → ℕ
session_key t = t.session_id

abbrev pub of_session : ℕ → PushToken → Bool
of_session id t = t.session_id == id

abbrev pub of_token : String → PushToken → Bool
of_token token t = str_eq t.device_token token

abbrev pub is_environment : String → Bool
is_environment e = str_eq e "sandbox" || str_eq e "production"

-- INSERT … ON CONFLICT (session_id) DO UPDATE
abbrev pub upsert : PushToken → List PushToken → List PushToken
upsert t rows =
    if is_some (find_where (of_session t.session_id) rows)
    then update_where (of_session t.session_id) (λ r. t) rows
    else rows ++ t ∷ []

-- SetPushToken: one transaction. The token leaves any other session; the session must exist and the
-- environment be a known one, or the table refuses the row.
unfoldable pub set_push_token : ℕ → String → String → Db → Result (Unit {0}) × Db
set_push_token session token environment db =
    let row : PushToken = record {
      session_id = session;
      device_token = token;
      environment = environment;
    } in
    let kept =
      select_where (λ t. not (of_token token t && not (of_session session t))) db.push_rows in
    if is_some (find_where (has_id session) db.sessions) && is_environment environment
    then (ok tt, record db { push_rows = upsert row kept })
    else (err rejected, db)

-- DeletePushToken
unfoldable pub delete_push_token : ℕ → Db → Db
delete_push_token session db = record db {
  push_rows = select_where (λ t. not (of_session session t)) db.push_rows;
}

-- ForgetDeviceToken
unfoldable pub forget_device_token : String → Db → Db
forget_device_token token db = record db {
  push_rows = select_where (λ t. not (of_token token t)) db.push_rows;
}

-- PushTokens: those of the user's active sessions.
unfoldable pub push_tokens : ℕ → String → ℕ → Db → List PushToken
push_tokens tenant user now db =
    select_where
      (λ t. holds (find_where (has_id t.session_id) db.sessions) (is_listed tenant user now))
      db.push_rows
