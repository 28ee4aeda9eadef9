-- ===== src/Orchestrator/Tasks/Terminal.antt =====
-- A finished task stays as it is, whatever the workers and the users go on to do.
use cratos_ai.Prelude.{
  ℕ, ◌≡◌, refl, sym, ◌∙◌, Bool, true, false, ◌&&◌, some, List, [], ◌∷◌, String, arith, ◌==◌,
  find_where, update_where, Option-cases, Bool-cases, ==→eq, inl, inr, Result, Result-cases,
}
use cratos_ai.Prelude.Rows.{find-update, find-append_some, find-own, key-find, min_by-select}
use cratos_ai.Orchestrator.Model.{Task, Db, is_waiting, is_terminal}
use cratos_ai.Orchestrator.Tasks.{
  has_id, create_task, is_runnable, lease_task, leased, candidates, oldest, is_held, renewed,
  renew_lease, progressed, save_progress, moved, set_task_state, resume_task, resumed, is_open,
  cancel_task, cancelled_by_user,
}
use cratos_ai.Orchestrator.Tasks.Ops.{
  Op, create, lease, renew, save, set_state, resume, cancel, step, run, Allowed, AllAllowed,
}
use cratos_ai.Orchestrator.Tasks.Invariant.{task_id, IsWf, step-IsWf}

-- The row of an id is t.
abbrev pub Has : ℕ → Task → List Task → Type 0
Has id t ts = find_where (has_id id) ts ≡ some t

-- An UPDATE whose condition fails at the row leaves it.
pub update-Has :
    (p : Task → Bool) (f : Task → Task) (id : ℕ) (ts : List Task) (t : Task)
    → ((s : Task) → task_id (f s) ≡ task_id s)
    → p t ≡ false
    → Has id t ts
    → Has id t (update_where p f ts)
update-Has p f id ts t same miss h =
    let found = find-update task_id p f same id ts t h in rw miss at found

-- Another row is written: one in another state.
other-Has :
    (f : Task → Task) (id : ℕ) (ts : List Task) (t r : Task)
    → ((s : Task) → task_id (f s) ≡ task_id s)
    → (r ≡ t → ⊥)
    → Has r.id r ts
    → Has id t ts
    → Has id t (update_where (has_id r.id) f ts)
other-Has f id ts t r same differs hr h = elim (Bool-cases (t.id == r.id)) [
  | inr apart ↦ update-Has (has_id r.id) f id ts t same apart h
  | inl one ↦
      let key = key-find task_id id ts t h in
      let e : id ≡ r.id = sym key ∙ ==→eq t.id r.id one in absurd (differs (cc (rw e at h, hr)))
]

runnable_open :
    (now : ℕ) (r : Task) (b : Bool)
    → (is_runnable now r && b) ≡ true
    → is_terminal r.state ≡ true
    → ⊥
runnable_open now r b h d = ground arith

waiting_open : (r : Task) → is_waiting r.state ≡ true → is_terminal r.state ≡ true → ⊥
waiting_open r h d = ground arith

module _ (id : ℕ) (t : Task) (db : Db) (done : is_terminal t.state ≡ true)
    (h : Has id t db.tasks) where
  create-Has : (s : Task) (now : ℕ) → Has id t (create_task now s db).1.tasks
  unfolding create_task
  create-Has s now = elim (Option-cases (find_where (has_id s.id) db.tasks)) [
    | inr (x, e) ↦ rw e h
    | inl e ↦ rw e (find-append_some task_id (has_id id) db.tasks _ t h)
  ]

  lease-Has :
      (locked : ℕ → Bool) (owner : String) (d now : ℕ)
      → IsWf db.tasks
      → Has id t (lease_task locked owner d now db).1.tasks
  unfolding lease_task
  lease-Has locked owner d now w = elim (Option-cases (oldest (candidates locked now db.tasks))) [
    | inl e ↦ rw e h
    | inr (r, e) ↦
        let (free, hr) = min_by-select task_id _ _ db.tasks r w.unique e in
        let differs : r ≡ t → ⊥ = λ one. runnable_open now r _ free (rw one done) in
        rw e (other-Has (leased owner d now) id db.tasks t r (λ s. refl) differs hr h)
  ]

  resume-Has :
      (key : ℕ) (update : Task → Result Task) (now : ℕ)
      → Allowed (resume key update now)
      → Has id t (resume_task key update now db).1.tasks
  unfolding resume_task
  resume-Has key update now a = elim (Option-cases (find_where (has_id key) db.tasks)) [
    | inl e ↦ rw e h
    | inr (r, e) ↦ elim (Bool-cases (is_waiting r.state)) [
      | inr moved_on ↦ rw e (rw moved_on h)
      | inl waits ↦ elim (Result-cases (update r)) [
        | inr (x, z) ↦ rw e (rw waits (rw z h))
        | inl (u, z) ↦
            let same = (a r u z).0 in
            let hr = find-own task_id key db.tasks r e in
            let differs : r ≡ t → ⊥ = λ one. waiting_open r waits (rw one done) in
            rw e (
              rw waits
                (rw (z, same) (other-Has (resumed u now) id db.tasks t r (λ s. refl) differs hr h)))
      ]
    ]
  ]

  cancel-Has :
      (tenant key now : ℕ) (user : String) → Has id t (cancel_task tenant user key now db).1.tasks
  unfolding cancel_task
  cancel-Has tenant key now user =
      elim (Option-cases (find_where (is_open tenant user key) db.tasks)) [
        | inl e ↦ rw e h
        | inr (r, e) ↦ rw e (
            update-Has (is_open tenant user key) (cancelled_by_user now) id db.tasks t (λ s. refl)
              (ground arith) h)
      ]

  -- No allowed statement changes the row of a task that has finished.
  pub step-Has : (op : Op) → Allowed op → IsWf db.tasks → Has id t (step op db).tasks
  unfolding step renew_lease save_progress set_task_state
  step-Has (create s now) a w = create-Has s now
  step-Has (lease locked owner d now) a w = lease-Has locked owner d now w
  step-Has (renew key owner d now) a w =
      update-Has (is_held key owner) (renewed d now) id db.tasks t (λ s. refl) (ground arith) h
  step-Has (save s owner now) a w =
      update-Has (is_held s.id owner) (progressed s now) id db.tasks t (λ s. refl) (ground arith) h
  step-Has (set_state s owner state result now) a w =
      update-Has (is_held s.id owner) (moved s state result now) id db.tasks t (λ s. refl)
        (ground arith) h
  step-Has (resume key update now) a w = resume-Has key update now a
  step-Has (cancel tenant user key now) a w = cancel-Has tenant key now user

-- Once a task has succeeded, failed or been cancelled, its row is the same after every run of
-- allowed statements: no worker that still holds a copy, no late answer and no retry changes it.
pub terminal_absorbs :
    (ops : List Op) (db : Db) (id : ℕ) (t : Task)
    → AllAllowed ops
    → IsWf db.tasks
    → is_terminal t.state ≡ true
    → Has id t db.tasks
    → Has id t (run ops db).tasks
unfolding run
terminal_absorbs [] db id t a w done h = h
terminal_absorbs (op ∷ ops) db id t (a, rest) w done h =
    terminal_absorbs ops (step op db) id t rest (step-IsWf op db a w) done
      (step-Has id t db done h op a w)
