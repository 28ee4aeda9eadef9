-- ===== src/Voice/Jarvis/Delivery.antt =====
-- What the model is given to speak about, and the asking for a response: added, respond and deliver
-- of services/voice-gateway/internal/session/jarvis.go.
use cratos_ai.Prelude.{
  ℕ, ◌==◌, ltb, Bool, true, false, not, ◌&&◌, Option, none, some, List, [], ◌∷◌, ◌++◌,
  if◌then◌else◌, find_where, select_where, map,
}
use cratos_ai.Voice.Counts.{delete}
use cratos_ai.Voice.Jarvis.Model.{Question, Delivered, ToolResult, CallBatch, Sent, Speech, Jarvis}

abbrev pub ask : Option Question → Delivered → Delivered
ask none d = record d { want = true }
ask (some q) d = record { want = true; acks = d.acks ++ q ∷ [] }

-- added
unfoldable pub added : Option Question → Speech → Speech
added question s =
    if s.requested
    then record s { after_request = ask question s.after_request }
    else record s { unspoken = ask question s.unspoken }

-- Whether the next send succeeds.
abbrev pub next : List Bool → Bool
next [] = true
next (b ∷ bs) = b

abbrev pub later : List Bool → List Bool
later [] = []
later (b ∷ bs) = bs

-- A send to the provider: on its failure providerFailed ends the session.
unfoldable pub send_provider : Sent → Jarvis → Bool × Jarvis
send_provider m j =
    let c = j.connection in
    if next c.accepts
    then (
      true,
      record j { connection = record c { accepts = later c.accepts; sent = c.sent ++ m ∷ [] } },
    )
    else (false, record j { connection = record c { accepts = later c.accepts; failed = true } })

abbrev pub is_empty {ℓ} : {A : Type ℓ} → List A → Bool
is_empty [] = true
is_empty (x ∷ xs) = false

-- The condition under which respond asks for a response.
abbrev pub can_respond : Speech → Bool
can_respond s = s.unspoken.want && not s.requested && not s.speaking && is_empty s.responding

-- respond
unfoldable pub respond : Jarvis → Jarvis
respond j =
    if can_respond j.speech
    then (let (sent, j') = send_provider Sent.create_response j in
        if sent then record j' { speech = record j'.speech { requested = true } } else j')
    else j

-- The question of a call's output, if it asks one.
abbrev pub result_question : ToolResult → Option Question
result_question r = if r.ack_required then some (Question.asked_by_call r.call_id) else none

-- The loop of deliver over the results of a batch: whether all were sent.
unfoldable pub deliver_results : List ToolResult → Jarvis → Bool × Jarvis
deliver_results [] j = (true, j)
deliver_results (r ∷ rs) j =
    let (sent, j') =
      send_provider (Sent.function_output r)
        (record j { call_response = delete r.call_id j.call_response }) in
    let rest = deliver_results rs (record j' { speech = added (result_question r) j'.speech }) in
    if sent then rest else (false, j')

abbrev pub is_batch_of : ℕ → CallBatch → Bool
is_batch_of response_id b = b.response_id == response_id

-- A batch whose response is done and whose calls have all returned.
abbrev pub is_deliverable : CallBatch → Bool
is_deliverable b = b.done && not (ltb 0 b.outstanding)

-- The body of deliver's loop, for the batch under a key.
unfoldable pub deliver_batch : Option CallBatch → Jarvis → Bool × Jarvis
deliver_batch none j = (true, j)
deliver_batch (some b) j =
    if is_deliverable b
    then deliver_results b.results
        (record j { batches = select_where (λ x. not (is_batch_of b.response_id x)) j.batches })
    else (true, j)

unfoldable pub deliver_loop : List ℕ → Jarvis → Bool × Jarvis
deliver_loop [] j = (true, j)
deliver_loop (id ∷ ids) j =
    let (sent, j') = deliver_batch (find_where (is_batch_of id) j.batches) j in
    let rest = deliver_loop ids j' in if sent then rest else (false, j')

-- The keys of the batches in the order of the next loop over them, which the language leaves open:
-- a key that is not there is passed over, and one that comes again is gone by then.
abbrev pub next_order : List (List ℕ) → List CallBatch → List ℕ
next_order [] batches = map (λ b. b.response_id) batches
next_order (order ∷ orders) batches = order ++ map (λ b. b.response_id) batches

abbrev pub later_orders : List (List ℕ) → List (List ℕ)
later_orders [] = []
later_orders (order ∷ orders) = orders

-- deliver
unfoldable pub deliver : Jarvis → Jarvis
deliver j =
    let (sent, j') =
      deliver_loop (next_order j.orders j.batches) (record j { orders = later_orders j.orders }) in
    if sent then respond j' else j'
