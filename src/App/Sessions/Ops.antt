-- ===== src/App/Sessions/Ops.antt =====
-- The statements that write pairing codes and sessions, as steps.
use cratos_ai.Prelude.{ℕ, List, [], ◌∷◌, String}
use cratos_ai.App.Model.{Db, NewSession, Reason}
use cratos_ai.App.Sessions.{
  create_pairing_code, redeem_pairing_code, refresh, sign_out, revoke, purge,
}

pub data Op : Type 0 where
  create_code : ℕ → ℕ → String → ℕ → Op
  redeem : ℕ → NewSession → ℕ → Op
  refreshing : ℕ → ℕ → ℕ → ℕ → ℕ → Op
  sign_off : ℕ → ℕ → Op
  revoking : ℕ → String → ℕ → Reason → ℕ → Op
  purging : ℕ → ℕ → Op

unfoldable pub step : Op → Db → Db
step (create_code hash tenant user expires) db = (create_pairing_code hash tenant user expires db).1
step (redeem hash n now) db = (redeem_pairing_code hash n now db).1
step (refreshing presented next idle_ttl grace now) db =
    (refresh presented next idle_ttl grace now db).1
step (sign_off presented now) db = (sign_out presented now db).1
step (revoking tenant user id reason now) db = (revoke tenant user id reason now db).1
step (purging keep now) db = (purge keep now db).1

unfoldable pub run : List Op → Db → Db
run [] db = db
run (op ∷ ops) db = run ops (step op db)
