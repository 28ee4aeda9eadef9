-- ===== src/Orchestrator/Devices.antt =====
-- The device and approval statements of services/orchestrator/internal/store/store.go.
use cratos_ai.Prelude.{
  ℕ, ltb, ◌==◌, Bool, not, ◌&&◌, ◌||◌, Option, none, some, List, [], ◌∷◌, ◌++◌, String, str_eq,
  is_some, if◌then◌else◌, select_where, find_where, update_where, length, sort_by, Result, ok, err,
  rejected, found,
}
use cratos_ai.Orchestrator.Model.{Device, DeviceApproval, Task, Db}

module _ (text_leb : String → String → Bool) where
  abbrev pub is_owned : ℕ → String → Device → Bool
  is_owned tenant user d = d.tenant_id == tenant && str_eq d.user_id user

  -- Devices: by name.
  unfoldable pub devices_of : ℕ → String → Db → List Device
  devices_of tenant user db =
      sort_by (λ a b. text_leb a.name b.name) (select_where (is_owned tenant user) db.devices)

abbrev pub has_id : ℕ → Device → Bool
has_id id d = d.id == id

abbrev pub is_named : ℕ → String → String → Device → Bool
is_named tenant user name d = d.tenant_id == tenant && str_eq d.user_id user && str_eq d.name name

abbrev pub replaced : Device → Device → Device
replaced d old = record old {
  address = d.address;
  server_name = d.server_name;
  ca_pem = d.ca_pem;
  client_cert_pem = d.client_cert_pem;
  client_key_sealed = d.client_key_sealed;
}

abbrev pub write_device : Device → ℕ → Db → Option Device → Result Device × Db
write_device d now db (some old) = (
  ok (replaced d old),
  record db {
    devices = update_where (is_named d.tenant_id d.user_id d.name) (replaced d) db.devices;
  },
)
write_device d now db none =
    let row : Device = record d { created_at = now } in
    if is_some (find_where (has_id d.id) db.devices)
    then (err rejected, db)
    else (ok row, record db { devices = db.devices ++ row ∷ [] })

-- UpsertDevice: the device of that name keeps its id.
unfoldable pub upsert_device : Device → ℕ → Db → Result Device × Db
upsert_device d now db =
    write_device d now db (find_where (is_named d.tenant_id d.user_id d.name) db.devices)

-- DeviceByID
unfoldable pub device_by_id : ℕ → Db → Result Device
device_by_id id db = found (find_where (has_id id) db.devices)

abbrev pub is_deleted : ℕ → String → ℕ → Device → Bool
is_deleted tenant user id d = has_id id d && d.tenant_id == tenant && str_eq d.user_id user

-- DeleteDevice: the approvals of the device go with it (ON DELETE CASCADE).
unfoldable pub delete_device : ℕ → String → ℕ → Db → Bool × Db
delete_device tenant user id db =
    let gone = select_where (is_deleted tenant user id) db.devices in
    (
      length gone == 1,
      record db {
        devices = select_where (λ d. not (is_deleted tenant user id d)) db.devices;
        approvals =
            select_where (λ a. not (is_some (find_where (has_id a.device_id) gone))) db.approvals;
      },
    )

abbrev pub is_approval : String → DeviceApproval → Bool
is_approval id a = str_eq a.approval_id id

abbrev pub is_task : ℕ → Task → Bool
is_task id t = t.id == id

-- SaveApproval: of a device and a task that exist.
unfoldable pub save_approval : DeviceApproval → Db → Result (Unit {0}) × Db
save_approval a db =
    if is_some (find_where (is_approval a.approval_id) db.approvals)
      || not (is_some (find_where (has_id a.device_id) db.devices))
      || not (is_some (find_where (is_task a.task_id) db.tasks))
    then (err rejected, db)
    else (ok tt, record db { approvals = db.approvals ++ a ∷ [] })

-- Approval: unexpired, of a task of the user.
abbrev pub is_theirs : ℕ → String → ℕ → Db → DeviceApproval → Bool
is_theirs tenant user now db a =
    is_some (
      find_where (λ t. is_task a.task_id t && t.tenant_id == tenant && str_eq t.user_id user)
        db.tasks)
    && ltb now a.expires_at

unfoldable pub approval : ℕ → String → String → ℕ → Db → Result DeviceApproval
approval tenant user id now db =
    found (find_where (λ a. is_approval id a && is_theirs tenant user now db a) db.approvals)

-- ExpireApprovals: those that it deletes.
abbrev pub is_expired : ℕ → DeviceApproval → Bool
is_expired now a = ltb a.expires_at now

unfoldable pub expire_approvals : ℕ → Db → List DeviceApproval × Db
expire_approvals now db = (
  select_where (is_expired now) db.approvals,
  record db { approvals = select_where (λ a. not (is_expired now a)) db.approvals },
)

-- DeleteApproval
unfoldable pub delete_approval : String → Db → Db
delete_approval id db = record db {
  approvals = select_where (λ a. not (is_approval id a)) db.approvals;
}
