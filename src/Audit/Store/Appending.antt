-- ===== src/Audit/Store/Appending.antt =====
-- What Append keeps: every tenant's chain stays intact, and each event is recorded once.
use cratos_ai.Prelude.{
  ℕ, ◌+◌, ◌≡◌, refl, ◌∙◌, ◌==◌, false, some, List, [], ◌∷◌, ◌++◌, length, All, select_where-append,
  All-append, length-append, Bool-cases, inl, inr,
}
use cratos_ai.Audit.Encoding.Decimal.{ℤ}
use cratos_ai.Audit.Encoding.Keys.{Bytes, same_bytes}
use cratos_ai.Audit.Chain.{Event, hash}
use cratos_ai.Audit.Store.{
  Row, ChainRow, Db, Batch, rows_of, chain_of, head_of, contains, append_event, append_events,
  start_batch, commit_batch,
}
use mathlib.Core.List.{append-nil}
use cratos_ai.Audit.Store.Heads.{
  find-set_head_self, find-set_head_other, select_owned, select_foreign,
}
use cratos_ai.Audit.Store.Verify.Intact.{Linked, end_of}

module _ (sha256 : Bytes → Bytes) where
  -- A tenant's rows, as they were inserted, link up to its head.
  abbrev pub InOrder : Bytes → Db → Type 0
  InOrder tenant db =
      Linked sha256 0 [] (rows_of tenant db)
      × (head_of (chain_of tenant db) ≡ end_of sha256 0 [] (rows_of tenant db))

  Linked-append :
      (n : ℕ) (p : Bytes) (xs ys : List Row)
      → Linked sha256 n p xs
      → Linked sha256 (end_of sha256 n p xs).0 (end_of sha256 n p xs).1 ys
      → Linked sha256 n p (xs ++ ys)
  Linked-append n p [] ys lx ly = ly
  Linked-append n p (x ∷ xs) ys (s, q, h, lx) ly =
      (s, q, h, Linked-append (n + 1) (hash sha256 p x.event) xs ys lx ly)

  end_of-append :
      (n : ℕ) (p : Bytes) (xs ys : List Row)
      → end_of sha256 n p (xs ++ ys)
        ≡ end_of sha256 (end_of sha256 n p xs).0 (end_of sha256 n p xs).1 ys
  end_of-append n p [] ys = refl
  end_of-append n p (x ∷ xs) ys = end_of-append (n + 1) (hash sha256 p x.event) xs ys

  module _ (tenant : Bytes) (n : ℕ) (p : Bytes) where
    -- What holds of the loop's variables: the queued rows continue the chain from its head.
    pub record Continues (b : Batch) : Type 0 where
      pub linked : Linked sha256 n p b.queued
      pub ends : end_of sha256 n p b.queued ≡ (b.sequence, b.prev)
      pub owned : All (λ r. r.event.tenant_id ≡ tenant) b.queued
      pub counted : b.recorded ≡ length b.queued

    append_fresh :
        (source : Bytes) (time : ℤ) (b : Batch) (e : Event)
        → e.tenant_id ≡ tenant
        → contains b.seen e.event_id ≡ false
        → Continues b
        → Continues (append_event sha256 source time b e)
    unfolding append_event
    append_fresh source time b e o fresh c = rw fresh (record {
      linked = Linked-append n p b.queued _ c.linked (rw c.ends (refl, refl, refl, tt));
      ends = end_of-append n p b.queued _ ∙ rw c.ends refl;
      owned = All-append _ b.queued _ c.owned (o, tt);
      counted = rw (length-append, c.counted);
    })

    append_event-Continues :
        (source : Bytes) (time : ℤ) (b : Batch) (e : Event)
        → e.tenant_id ≡ tenant
        → Continues b
        → Continues (append_event sha256 source time b e)
    append_event-Continues source time b e o c = elim (Bool-cases (contains b.seen e.event_id)) [
      | inr fresh ↦ append_fresh source time b e o fresh c
      | inl seen ↦
          unfold append_event in
          rw seen
            (record { linked = c.linked; ends = c.ends; owned = c.owned; counted = c.counted })
    ]

    pub append_events-Continues :
        (source : Bytes) (time : ℤ) (b : Batch) (es : List Event)
        → All (λ e. e.tenant_id ≡ tenant) es
        → Continues b
        → Continues (append_events sha256 source time b es)
    unfolding append_events
    append_events-Continues source time b [] o c = c
    append_events-Continues source time b (e ∷ es) (o, os) c =
        append_events-Continues source time (append_event sha256 source time b e) es os
          (append_event-Continues source time b e o c)

    pub start-Continues : (known : List Bytes) → Continues (start_batch known (n, p))
    start-Continues known = record { linked = tt; ends = refl; owned = tt; counted = refl }

  module _ (tenant : Bytes) (b : Batch) (db : Db) where
    abbrev pub head : ℕ × Bytes
    head = head_of (chain_of tenant db)

    pub commit_own :
        Continues tenant head.0 head.1 b
        → (c : ChainRow) → chain_of tenant db ≡ some c
        → InOrder tenant db
        → InOrder tenant (commit_batch tenant b db).1
    commit_own cont c there (l, e) = elim (Bool-cases (b.recorded == 0)) [
      | inl none_new ↦ unfold commit_batch in rw none_new (l, e)
      | inr some_new ↦
          unfold commit_batch in
          rw some_new (
            rw (select_where-append, select_owned tenant b.queued cont.owned)
                (Linked-append 0 [] (rows_of tenant db) b.queued l (rw e at cont.linked)),
            rw (
              find-set_head_self tenant b.prev b.sequence db.chains c there,
              select_where-append,
              select_owned tenant b.queued cont.owned,
              end_of-append 0 [] (rows_of tenant db) b.queued,
              ← e,
              cont.ends,
            ),
          )
    ]

    pub commit_other :
        (t : Bytes)
        → same_bytes tenant t ≡ false
        → Continues tenant head.0 head.1 b
        → InOrder t db
        → InOrder t (commit_batch tenant b db).1
    commit_other t d cont (l, e) = elim (Bool-cases (b.recorded == 0)) [
      | inl none_new ↦ unfold commit_batch in rw none_new (l, e)
      | inr some_new ↦
          unfold commit_batch in
          rw some_new (
            rw
              (
                find-set_head_other tenant t b.prev b.sequence db.chains d,
                select_where-append,
                select_foreign tenant t b.queued d cont.owned,
                append-nil,
              )
              (l, e))
    ]
