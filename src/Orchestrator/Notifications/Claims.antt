-- ===== src/Orchestrator/Notifications/Claims.antt =====
-- A notification is handed to one consumer at a time.
use cratos_ai.Prelude.{
  ℕ, ◌+◌, ◌≤◌, leb, ◌≡◌, refl, Bool, true, false, not, ◌||◌, none, some, List, [], ◌∷◌, String,
  arith, All, holds, find_where, select_where, update_where, is_some, map, sort_by, Bool-cases, inl,
  inr, ap, ==→eq,
}
use cratos_ai.Prelude.Rows.{All-take, All-sort, All-find, All-update}
use cratos_ai.Orchestrator.Model.{Notification, Db}
use cratos_ai.Orchestrator.Notifications.{
  has_id, is_claimable, claimed, by_id, chosen, is_in, claim_notifications, is_unfinished,
  completed, complete_notifications,
}

-- The notification is leased until after the time, or done with.
abbrev pub is_held : ℕ → ℕ → Notification → Bool
is_held id t n =
    not (has_id id n) || is_some n.done_at || holds n.claimed_until (λ until. leb t until)

held-unclaimable :
    (id t max_attempts max_age : ℕ) (n : Notification)
    → is_held id t n ≡ true
    → has_id id n ≡ true
    → is_claimable max_attempts max_age t n ≡ false
held-unclaimable id t max_attempts max_age n h e = ground arith

unchosen :
    (id t max_attempts max_age : ℕ) (ns : List Notification)
    → All (λ n. is_held id t n ≡ true) ns
    → All (λ n. has_id id n ≡ false) (select_where (is_claimable max_attempts max_age t) ns)
unchosen id t max_attempts max_age [] h = tt
unchosen id t max_attempts max_age (n ∷ ns) (hn, h) =
    elim (Bool-cases (is_claimable max_attempts max_age t n)) [
      | inl e ↦ rw e (
        ground (arith, held-unclaimable id t max_attempts max_age n),
        unchosen id t max_attempts max_age ns h,
      )
      | inr e ↦ rw e (unchosen id t max_attempts max_age ns h)
    ]

claim-unclaimed :
    (id t limit max_attempts max_age : ℕ) (db : Db)
    → All (λ n. is_held id t n ≡ true) db.notifications
    → All (λ n. has_id id n ≡ false) (chosen limit max_attempts max_age t db)
claim-unclaimed id t limit max_attempts max_age db h =
    let xs = select_where (is_claimable max_attempts max_age t) db.notifications in
    All-take (λ n. has_id id n ≡ false) limit (sort_by by_id xs)
      (All-sort (λ n. has_id id n ≡ false) by_id xs
        (unchosen id t max_attempts max_age db.notifications h))

absent :
    (id : ℕ) (ns : List Notification)
    → All (λ n. has_id id n ≡ false) ns
    → find_where (has_id id) ns ≡ none
absent id [] h = refl
absent id (n ∷ ns) (hn, h) = ground (arith, absent id ns h)

-- A row is chosen or not by its id.
is_in-same :
    (ns : List Notification) (n : Notification) (id : ℕ)
    → has_id id n ≡ true
    → is_in ns n ≡ is_some (find_where (has_id id) ns)
is_in-same ns n id e = ap (λ k. is_some (find_where (has_id k) ns)) (==→eq n.id id e)

hold-later :
    (id t t' : ℕ) (ns : List Notification)
    → t' ≤ t
    → All (λ n. is_held id t n ≡ true) ns
    → All (λ n. is_held id t' n ≡ true) ns
hold-later id t t' [] l h = tt
hold-later id t t' (n ∷ ns) l (hn, h) = (ground arith, hold-later id t t' ns l h)

-- What consumers do.
pub data Op : Type 0 where
  claim : String → ℕ → ℕ → ℕ → ℕ → ℕ → Op
  complete : List ℕ → ℕ → Op

unfoldable pub step : Op → Db → Db
step (claim consumer limit lease max_attempts max_age now) db =
    (claim_notifications consumer limit lease max_attempts max_age now db).1
step (complete ids now) db = complete_notifications ids now db

unfoldable pub run : List Op → Db → Db
run [] db = db
run (op ∷ ops) db = run ops (step op db)

abbrev pub time : Op → ℕ
time (claim consumer limit lease max_attempts max_age now) = now
time (complete ids now) = now

claim-held :
    (id t limit lease max_attempts max_age now : ℕ) (consumer : String) (db : Db)
    → now ≤ t
    → All (λ n. is_held id t n ≡ true) db.notifications
    → All
        (λ n. is_held id t n ≡ true)
        (claim_notifications consumer limit lease max_attempts max_age now db).1.notifications
unfolding claim_notifications
claim-held id t limit lease max_attempts max_age now consumer db l h =
    let ns = chosen limit max_attempts max_age now db in
    let gone = absent id ns (
      claim-unclaimed id now limit max_attempts max_age db
        (hold-later id t now db.notifications l h)) in
    All-update (λ n. is_held id t n ≡ true) (is_in ns) (claimed consumer lease now)
      (λ n hn p. elim (Bool-cases (has_id id n)) [
        | inl e ↦ absurd (cc (is_in-same ns n id e, gone, p))
        | inr e ↦ ground arith
      ])
      db.notifications h

step-held :
    (op : Op) (id t : ℕ) (db : Db)
    → time op ≤ t
    → All (λ n. is_held id t n ≡ true) db.notifications
    → All (λ n. is_held id t n ≡ true) (step op db).notifications
unfolding step complete_notifications
step-held (claim consumer limit lease max_attempts max_age now) id t db l h =
    claim-held id t limit lease max_attempts max_age now consumer db l h
step-held (complete ids now) id t db l h =
    All-update (λ n. is_held id t n ≡ true) (is_unfinished ids) (completed now)
      (λ n hn p. ground arith) db.notifications h

run-held :
    (ops : List Op) (id t : ℕ) (db : Db)
    → All (λ op. time op ≤ t) ops
    → All (λ n. is_held id t n ≡ true) db.notifications
    → All (λ n. is_held id t n ≡ true) (run ops db).notifications
unfolding run
run-held [] id t db l h = h
run-held (op ∷ ops) id t db (l, ls) h = run-held ops id t (step op db) ls (step-held op id t db l h)

All-select_self :
    (p : Notification → Bool) (ns : List Notification) → All (λ n. p n ≡ true) (select_where p ns)
All-select_self p [] = tt
All-select_self p (n ∷ ns) = elim (Bool-cases (p n)) [
  | inl e ↦ rw e (e, All-select_self p ns)
  | inr e ↦ rw e (All-select_self p ns)
]

All-claimed :
    (consumer : String) (lease now : ℕ) (cs ns : List Notification)
    → All (λ n. is_in cs n ≡ true) ns
    → All (λ n. is_in cs n ≡ true) (map (claimed consumer lease now) ns)
All-claimed consumer lease now cs [] h = tt
All-claimed consumer lease now cs (n ∷ ns) (hn, h) = (hn, All-claimed consumer lease now cs ns h)

answer-chosen :
    (consumer : String) (limit lease max_attempts max_age now : ℕ) (db : Db)
    → All
        (λ n. is_in (chosen limit max_attempts max_age now db) n ≡ true)
        (claim_notifications consumer limit lease max_attempts max_age now db).0
unfolding claim_notifications
answer-chosen consumer limit lease max_attempts max_age now db =
    let ns = chosen limit max_attempts max_age now db in
    let rows = select_where (is_in ns) db.notifications in
    All-sort (λ n. is_in ns n ≡ true) by_id (map (claimed consumer lease now) rows)
      (All-claimed consumer lease now ns rows (All-select_self (is_in ns) db.notifications))

first-held :
    (id limit lease max_attempts max_age now : ℕ) (consumer : String) (db : Db)
    → is_some (find_where (has_id id) (chosen limit max_attempts max_age now db)) ≡ true
    → (ns : List Notification)
    → All
        (λ n. is_held id (now + lease) n ≡ true)
        (update_where
          (is_in (chosen limit max_attempts max_age now db))
          (claimed consumer lease now)
          ns)
first-held id limit lease max_attempts max_age now consumer db e [] = tt
first-held id limit lease max_attempts max_age now consumer db e (n ∷ ns) =
    let cs = chosen limit max_attempts max_age now db in
    (
      elim (Bool-cases (is_in cs n)) [
        | inl p ↦ rw p (ground arith)
        | inr p ↦ elim (Bool-cases (has_id id n)) [
          | inl own ↦ absurd (cc (is_in-same cs n id own, e, p))
          | inr other ↦ rw p (ground arith)
        ]
      ],
      first-held id limit lease max_attempts max_age now consumer db e ns,
    )

none_claimed :
    (id : ℕ) (cs ns : List Notification)
    → find_where (has_id id) cs ≡ none
    → All (λ n. is_in cs n ≡ true) ns
    → All (λ n. has_id id n ≡ false) ns
none_claimed id cs [] e h = tt
none_claimed id cs (n ∷ ns) e (hn, h) = (
  elim (Bool-cases (has_id id n)) [
    | inl own ↦ absurd (cc (is_in-same cs n id own, e, hn))
    | inr other ↦ other
  ],
  none_claimed id cs ns e h,
)

-- A notification that a claim handed out is not handed out again while its lease lasts, whoever
-- claims and completes what in the meantime.
pub claim_exclusive :
    (id limit lease max_attempts max_age now : ℕ) (consumer : String) (n : Notification) (db : Db)
    (ops : List Op) (limit' lease' max_attempts' max_age' now' : ℕ) (consumer' : String)
    → let first = claim_notifications consumer limit lease max_attempts max_age now db in
      find_where (has_id id) first.0 ≡ some n
      → All (λ op. time op ≤ now + lease) ops
      → now' ≤ now + lease
      → All
          (λ m. has_id id m ≡ false)
          (claim_notifications consumer' limit' lease' max_attempts' max_age' now'
            (run ops (claim_notifications consumer limit lease max_attempts max_age now db).1)).0
claim_exclusive id limit lease max_attempts max_age now consumer n db ops limit' lease'
      max_attempts' max_age' now' consumer' e times soon =
    let cs = chosen limit max_attempts max_age now db in
    let first = claim_notifications consumer limit lease max_attempts max_age now db in
    let (own, taken) =
      All-find (λ m. is_in cs m ≡ true) (has_id id) first.0 n e
        (answer-chosen consumer limit lease max_attempts max_age now db) in
    let here : is_some (find_where (has_id id) cs) ≡ true = cc (is_in-same cs n id own, taken) in
    let held : All (λ m. is_held id (now + lease) m ≡ true) first.1.notifications =
      unfold claim_notifications in
      (first-held id limit lease max_attempts max_age now consumer db here db.notifications) in
    let later = run ops first.1 in
    let held' =
      hold-later id (now + lease) now' later.notifications soon
        (run-held ops id (now + lease) first.1 times held) in
    let gone =
      absent id (chosen limit' max_attempts' max_age' now' later)
        (claim-unclaimed id now' limit' max_attempts' max_age' later held') in
    none_claimed id (chosen limit' max_attempts' max_age' now' later) _ gone
      (answer-chosen consumer' limit' lease' max_attempts' max_age' now' later)
