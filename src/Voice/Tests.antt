-- ===== src/Voice/Tests.antt =====
-- The theorems about the limiter and the outbox at concrete sessions.
use cratos_ai.Prelude.{ℕ, ◌≤◌, ◌≡◌, refl, true, false, List, [], ◌∷◌, ◌++◌, arith, count_where, ◌+◌}
use cratos_ai.Voice.Counts.{get}
use cratos_ai.Voice.Limiter.{Gate, Op, open_session, close_session, new_limiter, active, run}
use cratos_ai.Voice.Limiter.Caps.{is_open, is_open_of, Counts, limiter_counts}
use cratos_ai.Voice.Outbox.{OutItem, Outbox, new_outbox, try_pop}
use cratos_ai.Voice.Outbox.Accounting
use cratos_ai.Voice.Outbox.Accounting.{
  pushes, sends, barges, in_hand, dropped_bytes, pushed_bytes, outbox_accounts, drop_audio-answer,
}
use cratos_ai.Voice.Outbox.Order.{controls, sent, accepted, controls-in_order}
use cratos_ai.Voice.Outbox.Wakeup.{System, Writer, stop, more, waits, is_roused, no_lost_wakeup}

abbrev calls : List Op
calls =
    open_session 1
    ∷ open_session 1
    ∷ open_session 1
    ∷ close_session 0
    ∷ close_session 0
    ∷ open_session 2
    ∷ []

abbrev open_gate : Gate
open_gate = run calls (record { limiter = new_limiter 3 2; leases = [] })

limiter_counts_example :
    (active open_gate ≡ count_where is_open open_gate.leases)
    × (get 1 open_gate.limiter.per_tenant ≡ count_where (is_open_of 1) open_gate.leases)
    × (count_where is_open open_gate.leases ≤ 3)
    × (count_where (is_open_of 1) open_gate.leases ≤ 2)
limiter_counts_example = limiter_counts 3 2 1 calls

-- One session of tenant 1 is open, which is all that the tenant may have.
abbrev busy : Gate
busy = record {
  limiter = record {
    max_total = 3;
    max_per_tenant = 1;
    total = 1;
    per_tenant = record { key = 1; count = 1 } ∷ [];
  };
  leases = record { tenant = 1; released = false } ∷ [];
}

busy-Counts : Counts busy
busy-Counts = (refl, λ t. ground arith)

abbrev speech : ℕ → ℕ → OutItem
speech item bytes = record { msg = "audio"; item_id = item; audio_bytes = bytes; enqueued = 0 }

abbrev outbox_notice : OutItem
outbox_notice = record { msg = "state"; item_id = 0; audio_bytes = 0; enqueued = 0 }

abbrev traffic : List Accounting.Op
traffic =
    pushes (speech 7 10)
    ∷ pushes outbox_notice
    ∷ pushes (speech 7 20)
    ∷ sends
    ∷ pushes (speech 8 5)
    ∷ barges 7
    ∷ pushes outbox_notice
    ∷ sends
    ∷ []

outbox_accounts_example :
    in_hand 7 (Accounting.run traffic (new_outbox 4)) + dropped_bytes 7 traffic (new_outbox 4)
    ≡ in_hand 7 (new_outbox 4) + pushed_bytes 7 traffic (new_outbox 4)
outbox_accounts_example = outbox_accounts 7 traffic (new_outbox 4)

abbrev mixed : Outbox
mixed = record {
  items = speech 7 10 ∷ outbox_notice ∷ speech 8 5 ∷ [];
  capacity = 4;
  notify = true;
  delivered = record { key = 7; count = 30 } ∷ [];
}

controls-in_order_example :
    controls (sent traffic mixed) ++ controls (Accounting.run traffic mixed).items
    ≡ controls mixed.items ++ controls (accepted traffic mixed)
controls-in_order_example = controls-in_order traffic mixed

abbrev idle : System
idle = record { outbox = new_outbox 4; writer = Writer.looking; unsignalled = 0 }

abbrev asleep : System
asleep = record idle { writer = Writer.waiting }

no_lost_wakeup_example : is_roused asleep ≡ true
unfolding try_pop new_outbox
no_lost_wakeup_example =
    no_lost_wakeup idle asleep (more idle asleep asleep (waits idle refl refl) (stop asleep)) refl
