-- ===== src/Orchestrator/Tasks/Invariant.antt =====
-- What every task statement keeps: ids are unique, and a task has a lease exactly while it runs.
use cratos_ai.Prelude.{
  ℕ, ◌≡◌, refl, ◌∙◌, Bool, true, false, some, List, [], ◌∷◌, String, arith, All, All-append,
  is_some, find_where, update_where, Option-cases, Bool-cases, inl, inr, Result, Result-cases,
}
use cratos_ai.Prelude.Rows.{
  Unique, Unique-snoc, Unique-update, key-find, All-find, All-update, All-update_keyed,
}
use cratos_ai.Orchestrator.Model.{Task, Db, is_running, is_waiting}
use cratos_ai.Orchestrator.Tasks.{
  has_id, create_task, lease_task, leased, candidates, oldest, is_held, renewed, renew_lease,
  progressed, save_progress, moved, set_task_state, resume_task, resumed, is_open, cancel_task,
  cancelled_by_user,
}
use cratos_ai.Orchestrator.Tasks.Ops.{
  Op, create, lease, renew, save, set_state, resume, cancel, step, run, Allowed, AllAllowed,
}

abbrev pub task_id : Task → ℕ
task_id t = t.id

pub record LeaseOk (t : Task) : Type 0 where
  pub holder : is_some t.lease_owner ≡ is_running t.state
  pub until : is_some t.lease_until ≡ is_running t.state

pub record IsWf (ts : List Task) : Type 0 where
  pub unique : Unique task_id ts
  pub leases : All LeaseOk ts

update-IsWf :
    (p : Task → Bool) (f : Task → Task) (ts : List Task)
    → ((t : Task) → task_id (f t) ≡ task_id t)
    → ((t : Task) → LeaseOk t → p t ≡ true → LeaseOk (f t))
    → IsWf ts
    → IsWf (update_where p f ts)
update-IsWf p f ts same keep w = record {
  unique = Unique-update task_id p f same ts w.unique;
  leases = All-update LeaseOk p f keep ts w.leases;
}

create-IsWf :
    (t : Task) (now : ℕ) (db : Db)
    → is_running t.state ≡ false
    → IsWf db.tasks
    → IsWf (create_task now t db).1.tasks
unfolding create_task
create-IsWf t now db h w = elim (Option-cases (find_where (has_id t.id) db.tasks)) [
  | inr (s, e) ↦ rw e w
  | inl e ↦ rw e (record {
    unique = Unique-snoc task_id db.tasks _ w.unique e;
    leases =
        All-append LeaseOk db.tasks _ w.leases
          (record { holder = ground arith; until = ground arith }, tt);
  })
]

lease-IsWf :
    (locked : ℕ → Bool) (owner : String) (d now : ℕ) (db : Db)
    → IsWf db.tasks
    → IsWf (lease_task locked owner d now db).1.tasks
unfolding lease_task
lease-IsWf locked owner d now db w = elim (Option-cases (oldest (candidates locked now db.tasks))) [
  | inl e ↦ rw e w
  | inr (t, e) ↦ rw e (
      update-IsWf (has_id t.id) (leased owner d now) db.tasks (λ s. refl)
        (λ s h z. record { holder = refl; until = refl }) w)
]

write_resumed-IsWf :
    (now : ℕ) (db : Db) (u t : Task)
    → find_where (has_id u.id) db.tasks ≡ some t
    → is_waiting t.state ≡ true
    → is_running u.state ≡ false
    → IsWf db.tasks
    → IsWf (update_where (has_id u.id) (resumed u now) db.tasks)
write_resumed-IsWf now db u t e h n w =
    let (_, ok_t) = All-find LeaseOk (has_id u.id) db.tasks t e w.leases in
    record {
      unique = Unique-update task_id (has_id u.id) (resumed u now) (λ s. refl) db.tasks w.unique;
      leases =
          All-update_keyed task_id LeaseOk (resumed u now) u.id db.tasks t w.unique e
            (record { holder = ground (arith, ok_t); until = ground (arith, ok_t) }) w.leases;
    }

resume-IsWf :
    (id : ℕ) (update : Task → Result Task) (now : ℕ) (db : Db)
    → Allowed (resume id update now)
    → IsWf db.tasks
    → IsWf (resume_task id update now db).1.tasks
unfolding resume_task
resume-IsWf id update now db a w = elim (Option-cases (find_where (has_id id) db.tasks)) [
  | inl e ↦ rw e w
  | inr (t, e) ↦ elim (Bool-cases (is_waiting t.state)) [
    | inr moved_on ↦ rw e (rw moved_on w)
    | inl waits ↦ elim (Result-cases (update t)) [
      | inr (x, z) ↦ rw e (rw waits (rw z w))
      | inl (u, z) ↦
          let (same, n) = a t u z in
          let found : find_where (has_id u.id) db.tasks ≡ some t =
            rw (same ∙ key-find task_id id db.tasks t e) e in
          rw e (rw waits (rw z (write_resumed-IsWf now db u t found waits n w)))
    ]
  ]
]

cancel-IsWf :
    (tenant id now : ℕ) (user : String) (db : Db)
    → IsWf db.tasks
    → IsWf (cancel_task tenant user id now db).1.tasks
unfolding cancel_task
cancel-IsWf tenant id now user db w =
    elim (Option-cases (find_where (is_open tenant user id) db.tasks)) [
      | inl e ↦ rw e w
      | inr (t, e) ↦ rw e (
          update-IsWf (is_open tenant user id) (cancelled_by_user now) db.tasks (λ s. refl)
            (λ s h z. record { holder = refl; until = refl }) w)
    ]

-- Every allowed statement keeps the tasks well formed.
pub step-IsWf : (op : Op) (db : Db) → Allowed op → IsWf db.tasks → IsWf (step op db).tasks
unfolding step renew_lease save_progress set_task_state
step-IsWf (create t now) db a w = create-IsWf t now db a w
step-IsWf (lease locked owner d now) db a w = lease-IsWf locked owner d now db w
step-IsWf (renew id owner d now) db a w =
    update-IsWf (is_held id owner) (renewed d now) db.tasks (λ s. refl) (λ s h z. ground arith) w
step-IsWf (save t owner now) db a w =
    update-IsWf (is_held t.id owner) (progressed t now) db.tasks (λ s. refl)
      (λ s h z. record { holder = h.holder; until = h.until }) w
step-IsWf (set_state t owner state result now) db a w =
    update-IsWf (is_held t.id owner) (moved t state result now) db.tasks (λ s. refl)
      (λ s h z. ground arith) w
step-IsWf (resume id update now) db a w = resume-IsWf id update now db a w
step-IsWf (cancel tenant user id now) db a w = cancel-IsWf tenant id now user db w

-- From well-formed tasks every run of allowed statements keeps ids unique, and each task leased
-- (an owner and an expiry) exactly when it is running.
pub run-IsWf : (ops : List Op) (db : Db) → AllAllowed ops → IsWf db.tasks → IsWf (run ops db).tasks
unfolding run
run-IsWf [] db a w = w
run-IsWf (op ∷ ops) db (a, rest) w = run-IsWf ops (step op db) rest (step-IsWf op db a w)
