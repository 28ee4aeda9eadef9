-- ===== src/App/PushTokens/Delivery.antt =====
-- Which sessions the notifications of a user go to.
use cratos_ai.Prelude.{
  ℕ, ◌≡◌, refl, Bool, true, false, not, ◌&&◌, some, List, [], ◌∷◌, ◌++◌, String, arith, All,
  is_some, holds, find_where, select_where, update_where, Bool-cases, Option-cases, inl, inr, ok,
  All-append, ◌∙◌, ap, ==_refl, select_where-append,
}
use cratos_ai.Prelude.Rows.{All-find, find-append_none}
use cratos_ai.App.Model.{PushToken, Db}
use cratos_ai.App.Sessions.{has_id, is_listed}
use cratos_ai.App.Sessions.Revoked.{is_live, Ended}
use cratos_ai.App.PushTokens.{
  session_key, of_session, of_token, is_environment, upsert, set_push_token, push_tokens,
}

-- The token on another session.
abbrev pub is_elsewhere : ℕ → String → PushToken → Bool
is_elsewhere session token t = of_token token t && not (of_session session t)

-- A row of another session with another token.
abbrev pub is_other : ℕ → String → PushToken → Bool
is_other session token t = not (of_token token t) && not (of_session session t)

replaced-find :
    (t r : PushToken) (rows : List PushToken)
    → find_where (of_session t.session_id) rows ≡ some r
    → find_where (of_session t.session_id) (update_where (of_session t.session_id) (λ x. t) rows)
      ≡ some t
replaced-find t r [] e = cc
replaced-find t r (x ∷ xs) e = ground (arith, ==_refl t.session_id, replaced-find t r xs)

-- A write of a row by its session leaves the selection `p` of the other rows as it was.
replaced-others :
    (t : PushToken) (p : PushToken → Bool)
    → ((r : PushToken) → of_session t.session_id r ≡ true → p r ≡ false)
    → (rows : List PushToken)
    → select_where p (update_where (of_session t.session_id) (λ x. t) rows) ≡ select_where p rows
replaced-others t p apart [] = refl
replaced-others t p apart (x ∷ xs) =
    ground (arith, ==_refl t.session_id, apart x, apart t, replaced-others t p apart xs)

replaced-elsewhere :
    (t : PushToken) (rows : List PushToken)
    → All (λ r. is_elsewhere t.session_id t.device_token r ≡ false) rows
    → All
        (λ r. is_elsewhere t.session_id t.device_token r ≡ false)
        (update_where (of_session t.session_id) (λ x. t) rows)
replaced-elsewhere t [] h = tt
replaced-elsewhere t (x ∷ xs) (hx, h) =
    (ground (arith, ==_refl t.session_id), replaced-elsewhere t xs h)

append_nil : (xs : List PushToken) → xs ++ [] ≡ xs
append_nil [] = refl
append_nil (x ∷ xs) = ap (λ r. x ∷ r) (append_nil xs)

kept-others :
    (session : ℕ) (token : String) (rows : List PushToken)
    → select_where
        (is_other session token)
        (select_where (λ t. not (is_elsewhere session token t)) rows)
      ≡ select_where (is_other session token) rows
kept-others session token [] = refl
kept-others session token (x ∷ xs) = ground (arith, kept-others session token xs)

upsert-find :
    (t : PushToken) (rows : List PushToken)
    → find_where (of_session t.session_id) (upsert t rows) ≡ some t
upsert-find t rows = elim (Option-cases (find_where (of_session t.session_id) rows)) [
  | inl e ↦ rw e (
      ground (
        arith,
        find-append_none session_key (of_session t.session_id) rows (t ∷ []) e,
        ==_refl t.session_id,
      ))
  | inr (r, e) ↦ rw e (replaced-find t r rows e)
]

kept-elsewhere :
    (session : ℕ) (token : String) (rows : List PushToken)
    → All
        (λ r. is_elsewhere session token r ≡ false)
        (select_where (λ t. not (is_elsewhere session token t)) rows)
kept-elsewhere session token [] = tt
kept-elsewhere session token (x ∷ xs) = elim (Bool-cases (is_elsewhere session token x)) [
  | inl e ↦ rw e (kept-elsewhere session token xs)
  | inr e ↦ rw e (e, kept-elsewhere session token xs)
]

undelivered :
    (id tenant now : ℕ) (user : String) (db : Db) (rows : List PushToken)
    → Ended id db
    → All
        (λ t. of_session id t ≡ false)
        (select_where
          (λ t. holds (find_where (has_id t.session_id) db.sessions) (is_listed tenant user now))
          rows)
undelivered id tenant now user db [] h = tt
undelivered id tenant now user db (x ∷ xs) h =
    elim (Option-cases (find_where (has_id x.session_id) db.sessions)) [
      | inl e ↦ rw e (undelivered id tenant now user db xs h)
      | inr (s, e) ↦
          let (own, dead) =
            All-find (λ r. is_live id r ≡ false) (has_id x.session_id) db.sessions s e h in
          elim (Bool-cases (is_listed tenant user now s)) [
            | inl t ↦ rw (e, t) (ground arith, undelivered id tenant now user db xs h)
            | inr t ↦ rw (e, t) (undelivered id tenant now user db xs h)
          ]
    ]

-- What SetPushToken leaves behind: the session has the token, no other session has it, and the rows
-- of other sessions with other tokens are as before.
abbrev pub Delivers : PushToken → List PushToken → List PushToken → Type 0
Delivers t before after =
    (find_where (of_session t.session_id) after ≡ some t)
    × All (λ r. is_elsewhere t.session_id t.device_token r ≡ false) after
    × (select_where (is_other t.session_id t.device_token) after
        ≡ select_where (is_other t.session_id t.device_token) before)

upsert-Delivers :
    (t : PushToken) (before rows : List PushToken)
    → All (λ r. is_elsewhere t.session_id t.device_token r ≡ false) rows
    → select_where (is_other t.session_id t.device_token) rows
      ≡ select_where (is_other t.session_id t.device_token) before
    → Delivers t before (upsert t rows)
upsert-Delivers t before rows h same =
    let own : of_session t.session_id t ≡ true = ==_refl t.session_id in
    let row = upsert-find t rows in
    let p = is_other t.session_id t.device_token in
    let mine : p t ≡ false = ground arith in
    elim (Option-cases (find_where (of_session t.session_id) rows)) [
      | inl e ↦ rw e (
        rw e at row,
        All-append (λ r. is_elsewhere t.session_id t.device_token r ≡ false) rows (t ∷ []) h
            (ground arith, tt),
        select_where-append p rows (t ∷ [])
            ∙ ground (arith, append_nil (select_where p rows), same),
      )
      | inr (r, e) ↦ rw e (
        rw e at row,
        replaced-elsewhere t rows h,
        replaced-others t p (λ x z. ground arith) rows ∙ same,
      )
    ]

-- A successful SetPushToken moves the device token to the session, as `Delivers` says.
pub set_push_token-Delivers :
    (session : ℕ) (token environment : String) (db : Db)
    → (set_push_token session token environment db).0 ≡ ok tt
    → Delivers
        (record { session_id = session; device_token = token; environment = environment })
        db.push_rows
        (set_push_token session token environment db).1.push_rows
unfolding set_push_token
set_push_token-Delivers session token environment db e =
    elim (Bool-cases
      (is_some (find_where (has_id session) db.sessions) && is_environment environment)) [
        | inr t ↦ absurd (cc (rw t at e))
        | inl t ↦ rw t (
            upsert-Delivers _ db.push_rows _ (kept-elsewhere session token db.push_rows)
              (kept-others session token db.push_rows))
      ]

-- A session that has ended is sent nothing, whichever user's tokens are read and however many rows
-- it still has.
pub push_tokens-Ended :
    (id tenant now : ℕ) (user : String) (db : Db)
    → Ended id db
    → All (λ t. of_session id t ≡ false) (push_tokens tenant user now db)
unfolding push_tokens
push_tokens-Ended id tenant now user db h = undelivered id tenant now user db db.push_rows h
