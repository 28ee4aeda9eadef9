-- ===== src/Orchestrator/Tasks/Lease.antt =====
-- Leases: which task a worker gets, and that a worker that lost its task cannot write to it.
use cratos_ai.Prelude.{
  ℕ, ◌+◌, ◌≤◌, ◌≡◌, ◌≢◌, refl, Bool, true, false, not, ◌&&◌, some, String, arith, update_where,
  Option-cases, ==→eq, ==_refl, inl, inr, ok,
}
use cratos_ai.Prelude.Rows.{
  find-update, key-find, min_by-select, min_by-least, count-keyed, update-keyed_miss, All-find,
}
use cratos_ai.Orchestrator.Model.{TaskState, Task, Db}
use cratos_ai.Orchestrator.Tasks.{
  has_id, is_runnable, take_lease, lease_task, leased, candidates, oldest, is_held, renewed,
  renew_lease, progressed, save_progress, moved, set_task_state, update_tasks,
}
use cratos_ai.Orchestrator.Tasks.Invariant.{task_id, IsWf}
use cratos_ai.Orchestrator.Tasks.Terminal.{Has, update-Has}

-- What a worker is given: the task that was free to run and had waited longest, which runs under the
-- worker's lease from now on.
pub record Granted (locked : ℕ → Bool) (owner : String) (d now : ℕ) (db db' : Db) (got : Task)
    : Type 0 where
  pub before : Task
  pub was : Has got.id before db.tasks
  pub free : is_runnable now before ≡ true
  pub unlocked : locked got.id ≡ false
  pub first :
      (s : Task)
      → Has s.id s db.tasks
      → is_runnable now s ≡ true
      → locked s.id ≡ false
      → before.updated_at ≤ s.updated_at
  pub runs : got.state ≡ TaskState.running
  pub owned : got.lease_owner ≡ some owner
  pub until : got.lease_until ≡ some (now + d)
  pub rest :
      record got {
        state = before.state;
        lease_owner = before.lease_owner;
        lease_until = before.lease_until;
        updated_at = before.updated_at;
      }
      ≡ before
  pub held : Has got.id got db'.tasks

take_lease-row :
    (owner : String) (d now : ℕ) (db : Db) (t : Task)
    → Has t.id t db.tasks
    → (take_lease owner d now db (some t)).0 ≡ ok (leased owner d now t)
take_lease-row owner d now db t was = ground (arith, was)

module _ (locked : ℕ → Bool) (owner : String) (d now : ℕ) (db : Db) (got : Task) where
  -- The row that the subquery picks, and what the UPDATE makes of it.
  picked :
      IsWf db.tasks
      → (lease_task locked owner d now db).0 ≡ ok got
      → (t : Task) × (oldest (candidates locked now db.tasks) ≡ some t)
        × (got ≡ leased owner d now t)
        × ((lease_task locked owner d now db).1
            ≡ record db { tasks = update_where (has_id t.id) (leased owner d now) db.tasks })
  unfolding lease_task
  picked w h = elim (Option-cases (oldest (candidates locked now db.tasks))) [
    | inl e ↦ absurd (cc (rw e at h))
    | inr (t, e) ↦
        let (free, was) = min_by-select task_id _ _ db.tasks t w.unique e in
        (t, e, cc (take_lease-row owner d now db t was, rw e at h), rw e)
  ]

  -- The given task had waited longest: a free task that is not locked was not updated before it.
  pub lease_task-oldest :
      (s before : Task)
      → IsWf db.tasks
      → (lease_task locked owner d now db).0 ≡ ok got
      → Has got.id before db.tasks
      → Has s.id s db.tasks
      → is_runnable now s ≡ true
      → locked s.id ≡ false
      → before.updated_at ≤ s.updated_at
  lease_task-oldest s before w h was there free unlocked =
      let (t, e, given, after) = picked w h in
      let (_, at_t) = min_by-select task_id _ _ db.tasks t w.unique e in
      let least =
        min_by-least (λ r. is_runnable now r && not (locked r.id)) (λ r. r.updated_at) db.tasks t
          e in
      let (_, le) = All-find _ _ db.tasks s there least in
      let same : before ≡ t = cc (was, given, at_t) in rw same (le (ground arith))

  -- A worker that is given a task. The task was queued, or running under an expired lease, and not
  -- locked, and none of the others like it had been updated before it. What the worker gets is that
  -- task, running under the worker's lease for the time asked for, with all else as it was; and so is
  -- the task's row.
  pub lease_task-Granted :
      IsWf db.tasks
      → (lease_task locked owner d now db).0 ≡ ok got
      → Granted locked owner d now db (lease_task locked owner d now db).1 got
  lease_task-Granted w h =
      let (t, e, given, after) = picked w h in
      let (free, was) = min_by-select task_id _ _ db.tasks t w.unique e in
      rw (given, after)
        (record {
          before = t;
          was = was;
          free = ground (arith, free);
          unlocked = ground (arith, free);
          first =
              λ s there is_free apart. lease_task-oldest s t w h (rw given was) there is_free apart;
          runs = refl;
          owned = refl;
          until = refl;
          rest = refl;
          held = rw (==_refl t.id) at (
              find-update task_id (has_id t.id) (leased owner d now) (λ s. refl) t.id db.tasks t
                was);
        })

  -- Giving a task away changes no other task.
  pub lease_task-others :
      (id : ℕ) (t : Task)
      → IsWf db.tasks
      → (lease_task locked owner d now db).0 ≡ ok got
      → id ≢ got.id
      → Has id t db.tasks
      → Has id t (lease_task locked owner d now db).1.tasks
  lease_task-others id t w h apart there =
      let (t', e, given, after) = picked w h in
      let key = key-find task_id id db.tasks t there in
      rw after (
        update-Has (has_id t'.id) (leased owner d now) id db.tasks t (λ s. refl)
          (ground (arith, key, given, apart)) there)

-- The three writes of a worker.
pub data Write : Type 0 where
  renewal : ℕ → Write
  progress : Task → Write
  transition : Task → TaskState → String → Write

-- The write of a worker to the task of an id, and whether it reports success.
abbrev pub write : Write → ℕ → String → ℕ → Db → Bool × Db
write (renewal d) id owner now = renew_lease id owner d now
write (progress s) id owner now = save_progress (record s { id = id }) owner now
write (transition s state result) id owner now =
    set_task_state (record s { id = id }) owner state result now

update-miss :
    (p : Task → Bool) (f : Task → Task) (id : ℕ) (t : Task) (db : Db)
    → ((s : Task) → p s ≡ true → task_id s ≡ id)
    → IsWf db.tasks
    → Has id t db.tasks
    → p t ≡ false
    → update_tasks p f db ≡ (false, db)
update-miss p f id t db narrow w h miss = rw (
  update-keyed_miss task_id p id narrow f db.tasks t w.unique h miss,
  count-keyed task_id p id narrow db.tasks t w.unique h,
  miss,
)

held_narrow : (id : ℕ) (owner : String) (s : Task) → is_held id owner s ≡ true → task_id s ≡ id
held_narrow id owner s h = ==→eq s.id id (ground arith)

-- A worker that does not hold a task (another leased it since, or it was moved on or cancelled)
-- changes nothing by any write, and is told so.
pub write_refused :
    (op : Write) (id : ℕ) (owner : String) (now : ℕ) (t : Task) (db : Db)
    → IsWf db.tasks
    → Has id t db.tasks
    → is_held id owner t ≡ false
    → write op id owner now db ≡ (false, db)
unfolding renew_lease save_progress set_task_state
write_refused (renewal d) id owner now t db w h miss =
    update-miss (is_held id owner) (renewed d now) id t db (held_narrow id owner) w h miss
write_refused (progress s) id owner now t db w h miss =
    update-miss (is_held id owner) (progressed s now) id t db (held_narrow id owner) w h miss
write_refused (transition s state result) id owner now t db w h miss =
    update-miss (is_held id owner) (moved s state result now) id t db (held_narrow id owner) w h
      miss
