-- ===== src/App/Model.antt =====
-- The rows that services/app-api/internal/store/store.go keeps. A token or a code is known by the
-- number that its SHA-256 hash stands for; a time or a duration is a number of microseconds.
use cratos_ai.Prelude.{ℕ, Option, List, String}

-- The reasons of a revocation.
pub data Reason : Type 0 where
  signed_out revoked reused_token : Reason

-- A row of pairing_codes.
pub record PairingCode : Type 0 where
  pub code_hash : ℕ
  pub tenant_id : ℕ
  pub user_id : String
  pub expires_at : ℕ
  pub redeemed_at : Option ℕ
  pub session_id : Option ℕ

-- A row of sessions.
pub record Session : Type 0 where
  pub id : ℕ
  pub tenant_id : ℕ
  pub user_id : String
  pub device_name : String
  pub device_model : String
  pub refresh_hash : ℕ
  pub previous_hash : Option ℕ
  pub rotated_at : Option ℕ
  pub refresh_expires_at : ℕ
  pub created_at : ℕ
  pub last_used_at : ℕ
  pub revoked_at : Option ℕ
  pub revoke_reason : Option Reason

pub record PushToken : Type 0 where
  pub session_id : ℕ
  pub device_token : String
  pub environment : String

pub record Db : Type 0 where
  pub codes : List PairingCode
  pub sessions : List Session
  pub push_rows : List PushToken

pub data RefreshOutcome : Type 0 where
  rotated retried reused : RefreshOutcome

pub record NewSession : Type 0 where
  pub id : ℕ
  pub device_name : String
  pub device_model : String
  pub refresh_hash : ℕ
  pub refresh_expires_at : ℕ
