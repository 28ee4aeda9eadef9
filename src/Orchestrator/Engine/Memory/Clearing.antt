-- ===== src/Orchestrator/Engine/Memory/Clearing.antt =====
-- What maintenance leaves: nothing that is overdue.
use cratos_ai.Prelude.{ℕ, ◌≡◌, none, List, find_where}
use cratos_ai.Orchestrator.Model.{Confirmation, Db}
use cratos_ai.Orchestrator.Confirmations.{is_overdue, expire_confirmations}
use cratos_ai.Orchestrator.Conversations.{is_abandoned}
use cratos_ai.Orchestrator.Devices.{is_expired}
use cratos_ai.Orchestrator.Engine.Approvals.{ApprovalWorld}
use cratos_ai.Orchestrator.Engine.Memory.{close_all_abandoned, expire_all_approvals}

-- Nothing abandoned is open, and no expired approval is kept.
abbrev pub Tidy : ℕ → Db → Type 0
Tidy now db =
    (find_where (is_abandoned now) db.conversations ≡ none)
    × (find_where (is_expired now) db.approvals ≡ none)

module _ (w : ApprovalWorld) where
  -- Nothing that is overdue is left.
  abbrev pub Cleared : ℕ → Db → Type 0
  Cleared now db =
      (find_where (is_abandoned now) db.conversations ≡ none)
      × (find_where (is_expired now) db.approvals ≡ none)
      × (find_where (is_overdue now) db.confirmations ≡ none)

  -- The confirmations that a tick finds expired.
  abbrev pub found_expired : ℕ → Db → List Confirmation
  found_expired now db =
      (expire_confirmations now (expire_all_approvals w now (close_all_abandoned w now db))).0
