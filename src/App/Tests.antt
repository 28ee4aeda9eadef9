-- ===== src/App/Tests.antt =====
-- The theorems about codes, sessions and device tokens at a concrete database.
use cratos_ai.Prelude.{
  ◌+◌, ◌||◌, ℕ, ◌≡◌, refl, false, none, some, List, [], ◌∷◌, arith, All, holds, ok, err, not_found,
}
use cratos_ai.App.Model.{
  PairingCode, Session, Db, RefreshOutcome, NewSession, revoked, reused_token,
}
use cratos_ai.App.Sessions.{
  has_token, has_id, new_row, redeem_pairing_code, refresh, rotate, revoke_row, sign_out,
  sessions_of, revoke,
}
use cratos_ai.App.Sessions.Ops.{Op, refreshing, sign_off, purging, run}
use cratos_ai.App.Sessions.Revoked.{Ended, answers_for, no_revival}
use cratos_ai.App.Sessions.Redeem.{Redeemed, redeem_once}
use cratos_ai.App.Sessions.Replay.{Owns, either, replay_ends_session, replay_in_grace}

abbrev paired : ℕ → ℕ → Session
paired id hash = record {
  id = id;
  tenant_id = 1;
  user_id = "ann";
  device_name = "phone";
  device_model = "model";
  refresh_hash = hash;
  previous_hash = none;
  rotated_at = none;
  refresh_expires_at = 1000;
  created_at = 0;
  last_used_at = 0;
  revoked_at = none;
  revoke_reason = none;
}

abbrev code : PairingCode
code = record {
  code_hash = 77;
  tenant_id = 1;
  user_id = "ann";
  expires_at = 50;
  redeemed_at = none;
  session_id = none;
}

abbrev phones : Db
phones = record {
  codes = code ∷ [];
  sessions = paired 1 501 ∷ revoke_row 5 revoked (paired 2 502) ∷ [];
  push_rows = record { session_id = 2; device_token = "d2"; environment = "sandbox" } ∷ [];
}

abbrev later_ops : List Op
later_ops = refreshing 502 600 100 10 20 ∷ sign_off 501 30 ∷ purging 5 40 ∷ []

no_revival_example :
    let later = run later_ops phones in
    (answers_for 2 (refresh 502 601 100 10 45 later).0 ≡ false)
    × (holds (sign_out 502 45 later).0 (has_id 2) ≡ false)
    × All (λ r. has_id 2 r ≡ false) (sessions_of 1 "ann" 45 later)
    × ((revoke 1 "ann" 2 revoked 45 later).0 ≡ false)
no_revival_example =
    no_revival 2 later_ops phones 502 601 100 10 45 1 "ann" revoked (refl, (refl, (refl, tt)))
      (refl, (refl, tt))

abbrev newcomer : ℕ → NewSession
newcomer id = record {
  id = id;
  device_name = "new";
  device_model = "m";
  refresh_hash = 700 + id;
  refresh_expires_at = 900;
}

abbrev newcomer_row : Session
newcomer_row = new_row code (newcomer 3) 10

redeem_once_example :
    let first = redeem_pairing_code 77 (newcomer 3) 10 phones in
    Redeemed 77 10 newcomer_row phones first.1
    × (redeem_pairing_code 77 (newcomer 4) 20 (run later_ops first.1)
        ≡ (err not_found, run later_ops first.1))
unfolding redeem_pairing_code
redeem_once_example =
    redeem_once 77 10 20 (newcomer 3) (newcomer 4) newcomer_row phones later_ops (refl, tt) refl
      (refl, (refl, (refl, tt)))

replay_ends_session_example :
    let first = refresh 501 601 100 10 20 phones in
    let second = refresh 501 602 100 10 40 first.1 in
    (first.0 ≡ ok (rotate 601 100 20 (paired 1 501), RefreshOutcome.rotated))
    × (second.0
        ≡ ok (revoke_row 40 reused_token (rotate 601 100 20 (paired 1 501)), RefreshOutcome.reused))
    × Ended 1 second.1
replay_ends_session_example =
    replay_ends_session 501 601 602 100 100 10 20 40 (paired 1 501) phones
      (refl, (refl, (refl, tt))) refl (omega arith) refl (omega arith) (omega arith)

replay_in_grace_example :
    let first = refresh 501 601 100 10 20 phones in
    let second = refresh 501 602 100 10 25 first.1 in
    let row = record (paired 1 501) {
      refresh_hash = 602;
      previous_hash = some 501;
      rotated_at = some 20;
      refresh_expires_at = 120;
      last_used_at = 25;
    } in
    (second.0 ≡ ok (row, RefreshOutcome.retried))
    × Owns row (λ r. either 501 601 r || has_token 602 r) second.1
replay_in_grace_example =
    replay_in_grace 501 601 602 100 100 10 20 25 (paired 1 501) phones (refl, (refl, (refl, tt)))
      refl (omega arith) refl (omega arith) (omega arith)
