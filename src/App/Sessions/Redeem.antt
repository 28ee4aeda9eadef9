-- ===== src/App/Sessions/Redeem.antt =====
-- A pairing code is redeemed once.
use cratos_ai.Prelude.{
  ℕ, ◌==◌, ◌≡◌, refl, Bool, false, not, ◌&&◌, ◌||◌, none, some, List, [], ◌∷◌, String, arith, All,
  is_some, find_where, update_where, Bool-cases, Option-cases, inl, inr, ok, err, not_found,
  All-append, ◌++◌, ap, sym,
}
use cratos_ai.Prelude.Rows.{Unique, All-update, All-select}
use cratos_ai.App.Model.{PairingCode, Session, Db, NewSession}
use cratos_ai.App.Sessions.{
  code_key, has_code, has_id, create_pairing_code, can_redeem, redeemed, redeem_pairing_code,
  new_row, clashes, refresh, write_session, refresh_change, can_refresh, sign_out, revoke, purge,
  is_stale_code,
}
use cratos_ai.App.Sessions.Ops.{
  Op, create_code, redeem, refreshing, sign_off, revoking, purging, step, run,
}

abbrev pub is_usable : ℕ → PairingCode → Bool
is_usable hash c = has_code hash c && not (is_some c.redeemed_at)

-- No code of this hash is left to redeem.
abbrev pub Spent : ℕ → Db → Type 0
Spent hash db = All (λ c. is_usable hash c ≡ false) db.codes

abbrev pub UniqueCodes : Db → Type 0
UniqueCodes db = Unique code_key db.codes

-- The statement does not make a code of this hash: a new code is random.
abbrev pub issues : ℕ → Op → Bool
issues hash (create_code key tenant user expires) = key == hash
issues hash _ = false

abbrev pub NeverIssues : ℕ → List Op → Type 0
NeverIssues hash ops = All (λ op. issues hash op ≡ false) ops

create-Spent :
    (hash key tenant expires : ℕ) (user : String) (db : Db)
    → (key == hash) ≡ false
    → Spent hash db
    → Spent hash (create_pairing_code key tenant user expires db).1
unfolding create_pairing_code
create-Spent hash key tenant expires user db e h =
    elim (Bool-cases (is_some (find_where (has_code key) db.codes))) [
      | inl t ↦ rw t h
      | inr t ↦ rw t (All-append (λ c. is_usable hash c ≡ false) db.codes _ h (rw e refl, tt))
    ]

redeem-Spent :
    (hash key now : ℕ) (n : NewSession) (db : Db)
    → Spent hash db
    → Spent hash (redeem_pairing_code key n now db).1
unfolding redeem_pairing_code
redeem-Spent hash key now n db h = elim (Option-cases (find_where (can_redeem key now) db.codes)) [
  | inl z ↦ rw z h
  | inr (c, z) ↦
      let row = new_row (redeemed n.id now c) n now in
      let codes =
        All-update (λ r. is_usable hash r ≡ false) (can_redeem key now) (redeemed n.id now)
          (λ r u p. ground arith) db.codes h in
      elim (Bool-cases (is_some (find_where (λ r. has_id row.id r || clashes row r) db.sessions))) [
        | inl t ↦ rw (z, t) h
        | inr t ↦ rw (z, t) codes
      ]
]

refresh-codes :
    (presented next idle_ttl grace now : ℕ) (db : Db)
    → (refresh presented next idle_ttl grace now db).1.codes ≡ db.codes
unfolding refresh write_session
refresh-codes presented next idle_ttl grace now db =
    elim (Option-cases (find_where (can_refresh presented now) db.sessions)) [
      | inl e ↦ rw e refl
      | inr (s, e) ↦
          let f = (refresh_change presented next idle_ttl grace now s).1 in
          elim (Bool-cases
            (is_some (find_where (λ r. not (has_id s.id r) && clashes (f s) r) db.sessions))) [
              | inl t ↦ rw (e, t) refl
              | inr t ↦ rw (e, t) refl
            ]
    ]

step-Spent :
    (op : Op) (hash : ℕ) (db : Db)
    → issues hash op ≡ false
    → Spent hash db
    → Spent hash (step op db)
unfolding step sign_out revoke purge
step-Spent (create_code key tenant user expires) hash db e h =
    create-Spent hash key tenant expires user db e h
step-Spent (redeem key n now) hash db e h = redeem-Spent hash key now n db h
step-Spent (refreshing presented next idle_ttl grace now) hash db e h =
    rw (refresh-codes presented next idle_ttl grace now db) h
step-Spent (sign_off presented now) hash db e h = h
step-Spent (revoking tenant user key reason now) hash db e h = h
step-Spent (purging keep now) hash db e h =
    All-select (λ c. is_usable hash c ≡ false) (λ c. not (is_stale_code keep now c)) db.codes h

run-Spent :
    (ops : List Op) (hash : ℕ) (db : Db)
    → NeverIssues hash ops
    → Spent hash db
    → Spent hash (run ops db)
unfolding run
run-Spent [] hash db m h = h
run-Spent (op ∷ ops) hash db (e, m) h =
    run-Spent ops hash (step op db) m (step-Spent op hash db e h)

absent-Spent :
    (hash : ℕ) (xs : List PairingCode)
    → find_where (has_code hash) xs ≡ none
    → All (λ c. is_usable hash c ≡ false) xs
absent-Spent hash [] e = tt
absent-Spent hash (x ∷ xs) e = (ground arith, absent-Spent hash xs (ground arith))

Spent-unmatched :
    (hash now : ℕ) (xs : List PairingCode)
    → All (λ c. is_usable hash c ≡ false) xs
    → find_where (can_redeem hash now) xs ≡ none
Spent-unmatched hash now [] h = refl
Spent-unmatched hash now (x ∷ xs) (hx, h) = ground (arith, Spent-unmatched hash now xs h)

redeemed-Spent :
    (hash now session : ℕ) (xs : List PairingCode) (c : PairingCode)
    → Unique code_key xs
    → find_where (can_redeem hash now) xs ≡ some c
    → All
        (λ r. is_usable hash r ≡ false)
        (update_where (can_redeem hash now) (redeemed session now) xs)
redeemed-Spent hash now session [] c u e = tt
redeemed-Spent hash now session (x ∷ xs) c (ux, u) e = elim (Bool-cases (x.code_hash == hash)) [
  | inl here ↦
      let gone : find_where (has_code hash) xs ≡ none = ground arith in
      let rest = absent-Spent hash xs gone in
      let none_found = Spent-unmatched hash now xs rest in
      (
        ground (arith, none_found),
        All-update (λ r. is_usable hash r ≡ false) (can_redeem hash now) (redeemed session now)
            (λ r v p. ground arith) xs rest,
      )
  | inr other ↦ (ground arith, redeemed-Spent hash now session xs c u (ground arith))
]

-- The row of pairing_codes and the session of a successful RedeemPairingCode.
abbrev pub Redeemed : ℕ → ℕ → Session → Db → Db → Type 0
Redeemed hash now s db after =
    (c : PairingCode) × (find_where (can_redeem hash now) db.codes ≡ some c)
    × (s.tenant_id ≡ c.tenant_id)
    × (s.user_id ≡ c.user_id)
    × (after.sessions ≡ db.sessions ++ s ∷ [])

redeem-ok :
    (hash now : ℕ) (n : NewSession) (s : Session) (db : Db)
    → UniqueCodes db
    → (redeem_pairing_code hash n now db).0 ≡ ok s
    → Redeemed hash now s db (redeem_pairing_code hash n now db).1
      × Spent hash (redeem_pairing_code hash n now db).1
unfolding redeem_pairing_code
redeem-ok hash now n s db u e = elim (Option-cases (find_where (can_redeem hash now) db.codes)) [
  | inl z ↦ absurd (cc (rw z at e))
  | inr (c, z) ↦
      let row = new_row (redeemed n.id now c) n now in
      elim (Bool-cases (is_some (find_where (λ r. has_id row.id r || clashes row r) db.sessions))) [
        | inl t ↦ absurd (cc (rw (z, t) at e))
        | inr t ↦
            let same : row ≡ s = ground (arith, rw (z, t) at e) in
            rw (z, t)
              (
                (
                  c,
                  refl,
                  ap (λ r. r.tenant_id) (sym same),
                  ap (λ r. r.user_id) (sym same),
                  ap (λ r. db.sessions ++ r ∷ []) same,
                ),
                redeemed-Spent hash now n.id db.codes c u z,
              )
      ]
]

-- A successful redemption makes the session of the tenant and user of an unexpired code that had not
-- been redeemed. After it, whatever is done to codes and sessions, as long as no code of the same
-- hash is issued, the code is refused to everyone, and the refusal changes nothing.
pub redeem_once :
    (hash now now' : ℕ) (n n' : NewSession) (s : Session) (db : Db) (ops : List Op)
    → UniqueCodes db
    → (redeem_pairing_code hash n now db).0 ≡ ok s
    → NeverIssues hash ops
    → let first = redeem_pairing_code hash n now db in
      Redeemed hash now s db first.1
      × (redeem_pairing_code hash n' now' (run ops first.1) ≡ (err not_found, run ops first.1))
redeem_once hash now now' n n' s db ops u e m =
    let (done, spent) = redeem-ok hash now n s db u e in
    let later = run ops (redeem_pairing_code hash n now db).1 in
    let none_found = Spent-unmatched hash now' later.codes (run-Spent ops hash _ m spent) in
    (done, unfold redeem_pairing_code in (rw none_found refl))
