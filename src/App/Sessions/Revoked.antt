-- ===== src/App/Sessions/Revoked.antt =====
-- A session that has ended stays ended.
use cratos_ai.Prelude.{
  ℕ, ◌==◌, ◌≡◌, refl, Bool, false, not, ◌&&◌, ◌||◌, List, [], ◌∷◌, String, arith, All, is_some,
  holds, find_where, select_where, Bool-cases, Option-cases, inl, inr, Result, ok, err, leb, length,
  sort_by, All-append,
}
use cratos_ai.Prelude.Rows.{All-update, All-select, All-take, All-sort, All-find}
use cratos_ai.App.Model.{Session, Db, RefreshOutcome, NewSession, Reason}
use cratos_ai.App.Sessions.{
  has_id, has_code, is_listed, sessions_of, create_pairing_code, redeem_pairing_code, new_row,
  clashes, can_redeem, redeemed, can_refresh, refresh, refresh_change, write_session, revoke_row,
  sign_out, can_sign_out, revoke, can_revoke, purge, is_stale,
}
use cratos_ai.App.Sessions.Ops.{
  Op, create_code, redeem, refreshing, sign_off, revoking, purging, step, run,
}

abbrev pub is_live : ℕ → Session → Bool
is_live id s = has_id id s && not (is_some s.revoked_at)

-- No row of this id is live.
abbrev pub Ended : ℕ → Db → Type 0
Ended id db = All (λ s. is_live id s ≡ false) db.sessions

-- The statement does not make a session of this id: a new session's UUID is fresh.
abbrev pub makes : ℕ → Op → Bool
makes id (redeem hash n now) = n.id == id
makes id _ = false

abbrev pub NeverMakes : ℕ → List Op → Type 0
NeverMakes id ops = All (λ op. makes id op ≡ false) ops

write-Ended :
    (outcome : RefreshOutcome) (f : Session → Session) (s : Session) (id : ℕ) (db : Db)
    → ((r : Session) → is_live id r ≡ false → is_live id (f r) ≡ false)
    → Ended id db
    → Ended id (write_session outcome f s db).1
unfolding write_session
write-Ended outcome f s id db keep h =
    elim (Bool-cases
      (is_some (find_where (λ r. not (has_id s.id r) && clashes (f s) r) db.sessions))) [
        | inl e ↦ rw e h
        | inr e ↦ rw e (
            All-update (λ r. is_live id r ≡ false) (has_id s.id) f (λ r z p. keep r z) db.sessions
              h)
      ]

change-Ended :
    (presented next idle_ttl grace now id : ℕ) (s r : Session)
    → is_live id r ≡ false
    → is_live id ((refresh_change presented next idle_ttl grace now s).1 r) ≡ false
unfolding refresh_change
change-Ended presented next idle_ttl grace now id s r h = ground arith

refresh-Ended :
    (presented next idle_ttl grace now id : ℕ) (db : Db)
    → Ended id db
    → Ended id (refresh presented next idle_ttl grace now db).1
unfolding refresh
refresh-Ended presented next idle_ttl grace now id db h =
    elim (Option-cases (find_where (can_refresh presented now) db.sessions)) [
      | inl e ↦ rw e h
      | inr (s, e) ↦
          let change = refresh_change presented next idle_ttl grace now s in
          rw e (
            write-Ended change.0 change.1 s id db
              (change-Ended presented next idle_ttl grace now id s) h)
    ]

redeem-Ended :
    (hash now id : ℕ) (n : NewSession) (db : Db)
    → (n.id == id) ≡ false
    → Ended id db
    → Ended id (redeem_pairing_code hash n now db).1
unfolding redeem_pairing_code
redeem-Ended hash now id n db e h =
    elim (Option-cases (find_where (can_redeem hash now) db.codes)) [
      | inl z ↦ rw z h
      | inr (c, z) ↦
          let row = new_row (redeemed n.id now c) n now in
          elim (Bool-cases
            (is_some (find_where (λ r. has_id row.id r || clashes row r) db.sessions))) [
              | inl t ↦ rw (z, t) h
              | inr t ↦
                  rw (z, t)
                    (All-append (λ r. is_live id r ≡ false) db.sessions (row ∷ []) h
                      (rw e refl, tt))
            ]
    ]

create-Ended :
    (hash tenant expires id : ℕ) (user : String) (db : Db)
    → Ended id db
    → Ended id (create_pairing_code hash tenant user expires db).1
unfolding create_pairing_code
create-Ended hash tenant expires id user db h =
    elim (Bool-cases (is_some (find_where (has_code hash) db.codes))) [
      | inl t ↦ rw t h
      | inr t ↦ rw t h
    ]

step-Ended :
    (op : Op) (id : ℕ) (db : Db) → makes id op ≡ false → Ended id db → Ended id (step op db)
unfolding step sign_out revoke purge
step-Ended (create_code hash tenant user expires) id db e h =
    create-Ended hash tenant expires id user db h
step-Ended (redeem hash n now) id db e h = redeem-Ended hash now id n db e h
step-Ended (refreshing presented next idle_ttl grace now) id db e h =
    refresh-Ended presented next idle_ttl grace now id db h
step-Ended (sign_off presented now) id db e h =
    All-update (λ r. is_live id r ≡ false) (can_sign_out presented)
      (revoke_row now Reason.signed_out) (λ r z p. ground arith) db.sessions h
step-Ended (revoking tenant user key reason now) id db e h =
    All-update (λ r. is_live id r ≡ false) (can_revoke tenant user key) (revoke_row now reason)
      (λ r z p. ground arith) db.sessions h
step-Ended (purging keep now) id db e h =
    All-select (λ r. is_live id r ≡ false) (λ s. not (is_stale keep now s)) db.sessions h

run-Ended :
    (ops : List Op) (id : ℕ) (db : Db) → NeverMakes id ops → Ended id db → Ended id (run ops db)
unfolding run
run-Ended [] id db m h = h
run-Ended (op ∷ ops) id db (e, m) h = run-Ended ops id (step op db) m (step-Ended op id db e h)

-- A Refresh that answers with the session.
abbrev pub answers_for : ℕ → Result (Session × RefreshOutcome) → Bool
answers_for id (ok (s, outcome)) = has_id id s
answers_for id (err e) = false

write-unanswered :
    (outcome : RefreshOutcome) (f : Session → Session) (s : Session) (id : ℕ) (db : Db)
    → has_id id (f s) ≡ false
    → answers_for id (write_session outcome f s db).0 ≡ false
unfolding write_session
write-unanswered outcome f s id db e =
    elim (Bool-cases
      (is_some (find_where (λ r. not (has_id s.id r) && clashes (f s) r) db.sessions))) [
        | inl t ↦ rw t refl
        | inr t ↦ rw t e
      ]

refresh-unanswered :
    (presented next idle_ttl grace now id : ℕ) (db : Db)
    → Ended id db
    → answers_for id (refresh presented next idle_ttl grace now db).0 ≡ false
unfolding refresh
refresh-unanswered presented next idle_ttl grace now id db h =
    elim (Option-cases (find_where (can_refresh presented now) db.sessions)) [
      | inl e ↦ rw e refl
      | inr (s, e) ↦
          let (t, dead) =
            All-find (λ r. is_live id r ≡ false) (can_refresh presented now) db.sessions s e h in
          let change = refresh_change presented next idle_ttl grace now s in
          rw e
            (write-unanswered change.0 change.1 s id db (unfold refresh_change in (ground arith)))
    ]

sign_out-unanswered :
    (presented now id : ℕ) (db : Db)
    → Ended id db
    → holds (sign_out presented now db).0 (has_id id) ≡ false
unfolding sign_out
sign_out-unanswered presented now id db h =
    elim (Option-cases (find_where (can_sign_out presented) db.sessions)) [
      | inl e ↦ rw e refl
      | inr (s, e) ↦
          let (t, dead) =
            All-find (λ r. is_live id r ≡ false) (can_sign_out presented) db.sessions s e h in
          rw e (ground arith)
    ]

unlisted :
    (id tenant now : ℕ) (user : String) (xs : List Session)
    → All (λ r. is_live id r ≡ false) xs
    → All (λ r. has_id id r ≡ false) (select_where (is_listed tenant user now) xs)
unlisted id tenant now user [] h = tt
unlisted id tenant now user (x ∷ xs) (hx, h) = elim (Bool-cases (is_listed tenant user now x)) [
  | inl e ↦ rw e (ground arith, unlisted id tenant now user xs h)
  | inr e ↦ rw e (unlisted id tenant now user xs h)
]

unmet :
    (id tenant : ℕ) (user : String) (xs : List Session)
    → All (λ r. is_live id r ≡ false) xs
    → length (select_where (can_revoke tenant user id) xs) ≡ 0
unmet id tenant user [] h = refl
unmet id tenant user (x ∷ xs) (hx, h) = ground (arith, unmet id tenant user xs h)

-- Once no live session has an id, then whatever is done to codes and sessions, as long as no new
-- session is given that id, no refresh token is exchanged for that session, no sign-out ends it
-- again, no user's list shows it, and Revoke reports that it was not active.
pub no_revival :
    (id : ℕ) (ops : List Op) (db : Db) (presented next idle_ttl grace now tenant : ℕ)
    (user : String) (reason : Reason)
    → NeverMakes id ops
    → Ended id db
    → let later = run ops db in
      (answers_for id (refresh presented next idle_ttl grace now later).0 ≡ false)
      × (holds (sign_out presented now later).0 (has_id id) ≡ false)
      × All (λ r. has_id id r ≡ false) (sessions_of tenant user now later)
      × ((revoke tenant user id reason now later).0 ≡ false)
unfolding sessions_of revoke
no_revival id ops db presented next idle_ttl grace now tenant user reason m h =
    let later = run ops db in
    let dead = run-Ended ops id db m h in
    let listed = select_where (is_listed tenant user now) later.sessions in
    let order : Session → Session → Bool = λ a b. leb b.last_used_at a.last_used_at in
    (
      refresh-unanswered presented next idle_ttl grace now id later dead,
      sign_out-unanswered presented now id later dead,
      All-take (λ r. has_id id r ≡ false) 100 (sort_by order listed)
          (All-sort (λ r. has_id id r ≡ false) order listed
            (unlisted id tenant now user later.sessions dead)),
      rw (unmet id tenant user later.sessions dead) refl,
    )
