-- ===== src/Voice/Jarvis/Keeping.antt =====
-- What deliver keeps: a property that holds through each of its single changes holds after it.
use cratos_ai.Prelude.{
  ℕ, ◌≡◌, refl, true, not, List, [], ◌∷◌, find_where, select_where, Option, none, some, Bool-cases,
  inl, inr, ◌++◌,
}
use cratos_ai.Prelude.Rows.{find-own}
use cratos_ai.Voice.Counts.{delete}
use cratos_ai.Voice.Jarvis.Model.{ToolResult, CallBatch, Sent, Jarvis}
use cratos_ai.Voice.Jarvis.Delivery.{
  added, next, later, send_provider, can_respond, respond, result_question, deliver_results,
  is_batch_of, is_deliverable, deliver_batch, deliver_loop, next_order, later_orders, deliver,
}

abbrev pub batch_id : CallBatch → ℕ
batch_id b = b.response_id

abbrev pub asking : Jarvis → Jarvis
asking j = record j { speech = record j.speech { requested = true } }

abbrev pub forgetting : ℕ → Jarvis → Jarvis
forgetting call_id j = record j { call_response = delete call_id j.call_response }

abbrev pub giving : ToolResult → Jarvis → Jarvis
giving r j = record j { speech = added (result_question r) j.speech }

abbrev pub dropping : ℕ → Jarvis → Jarvis
dropping response_id j = record j {
  batches = select_where (λ x. not (is_batch_of response_id x)) j.batches;
}

abbrev pub sending : Sent → Jarvis → Jarvis
sending m j = record j {
  connection = record j.connection {
    accepts = later j.connection.accepts;
    sent = j.connection.sent ++ m ∷ [];
  };
}

abbrev pub failing : Jarvis → Jarvis
failing j = record j {
  connection = record j.connection { accepts = later j.connection.accepts; failed = true };
}

module _ {ℓ} (P : Jarvis → Type ℓ) (P-failing : (j : Jarvis) → P j → P (failing j))
    (P-asking : (j : Jarvis)
      → can_respond j.speech ≡ true
      → P j
      → P (asking (sending Sent.create_response j)))
    (P-giving : (r : ToolResult) (j : Jarvis)
      → P j
      → P (giving r (sending (Sent.function_output r) j)))
    (P-forgetting : (call_id : ℕ) (j : Jarvis) → P j → P (forgetting call_id j))
    (P-dropping : (b : CallBatch) (j : Jarvis)
      → find_where (is_batch_of b.response_id) j.batches ≡ some b
      → is_deliverable b ≡ true
      → P j
      → P (dropping b.response_id j))
    (P-ordering : (orders : List (List ℕ)) (j : Jarvis)
      → P j
      → P (record j { orders = orders })) where
  pub respond-keeps : (j : Jarvis) → P j → P (respond j)
  unfolding respond send_provider
  respond-keeps j h = elim (Bool-cases (can_respond j.speech)) [
    | inr e ↦ rw e h
    | inl e ↦ elim (Bool-cases (next j.connection.accepts)) [
      | inl t ↦ rw (e, t) (P-asking j e h)
      | inr t ↦ rw (e, t) (P-failing j h)
    ]
  ]

  results-keeps : (rs : List ToolResult) (j : Jarvis) → P j → P (deliver_results rs j).1
  unfolding deliver_results send_provider
  results-keeps [] j h = h
  results-keeps (r ∷ rs) j h =
      let given = giving r (sending (Sent.function_output r) (forgetting r.call_id j)) in
      let k = P-forgetting r.call_id j h in
      elim (Bool-cases (next j.connection.accepts)) [
        | inl t ↦ rw t (results-keeps rs given (P-giving r (forgetting r.call_id j) k))
        | inr t ↦ rw t (P-failing (forgetting r.call_id j) k)
      ]

  batch-keeps :
      (id : ℕ) (o : Option CallBatch) (j : Jarvis)
      → find_where (is_batch_of id) j.batches ≡ o
      → P j
      → P (deliver_batch o j).1
  unfolding deliver_batch
  batch-keeps id none j e h = h
  batch-keeps id (some b) j e h = elim (Bool-cases (is_deliverable b)) [
    | inl d ↦
        let f = find-own batch_id id j.batches b e in
        rw d (results-keeps b.results (dropping b.response_id j) (P-dropping b j f d h))
    | inr d ↦ rw d h
  ]

  loop-keeps : (ids : List ℕ) (j : Jarvis) → P j → P (deliver_loop ids j).1
  unfolding deliver_loop
  loop-keeps [] j h = h
  loop-keeps (id ∷ ids) j h =
      let b = find_where (is_batch_of id) j.batches in
      let k = batch-keeps id b j refl h in
      elim (Bool-cases (deliver_batch b j).0) [
        | inl e ↦ rw e (loop-keeps ids (deliver_batch b j).1 k)
        | inr e ↦ rw e k
      ]

  pub deliver-keeps : (j : Jarvis) → P j → P (deliver j)
  unfolding deliver
  deliver-keeps j h =
      let j' : Jarvis = record j { orders = later_orders j.orders } in
      let ids = next_order j.orders j.batches in
      let k = loop-keeps ids j' (P-ordering (later_orders j.orders) j h) in
      elim (Bool-cases (deliver_loop ids j').0) [
        | inl e ↦ rw e (respond-keeps (deliver_loop ids j').1 k)
        | inr e ↦ rw e k
      ]
