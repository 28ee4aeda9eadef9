-- ===== src/Orchestrator/Conversations/Replay.antt =====
-- A voice call's result is stored once.
use cratos_ai.Prelude.{
  ℕ, ◌≡◌, refl, true, some, List, [], ◌∷◌, String, arith, find_where, is_some, Bool-cases,
  Option-cases, inl, inr, ok, err, not_found, eq_refl, ==_refl,
}
use cratos_ai.Prelude.Rows.{find-append_some, find-append_none}
use cratos_ai.Orchestrator.Model.{CallResult, StoredCall, Db}
use cratos_ai.Orchestrator.Conversations.{has_id, is_call, tool_call, save_tool_call}

-- A SaveToolCall of any conversation and call.
pub record Save : Type 0 where
  pub conversation : ℕ
  pub call_id : String
  pub name : String
  pub result : CallResult

unfoldable pub save_all : List Save → Db → Db
save_all [] db = db
save_all (s ∷ ss) db = save_all ss (save_tool_call s.conversation s.call_id s.name s.result db).1

abbrev call_key : StoredCall → ℕ
call_key c = c.conversation_id

-- The stored row of a call.
abbrev Stored : ℕ → String → StoredCall → Db → Type 0
Stored id call_id c db = find_where (is_call id call_id) db.tool_calls ≡ some c

save-Stored :
    (id : ℕ) (call_id : String) (c : StoredCall) (s : Save) (db : Db)
    → Stored id call_id c db
    → Stored id call_id c (save_tool_call s.conversation s.call_id s.name s.result db).1
unfolding save_tool_call
save-Stored id call_id c s db h =
    elim (Bool-cases (is_some (find_where (is_call s.conversation s.call_id) db.tool_calls))) [
      | inl e ↦ rw e h
      | inr e ↦ elim (Bool-cases (is_some (find_where (has_id s.conversation) db.conversations))) [
        | inl t ↦ rw (e, t) (find-append_some call_key (is_call id call_id) db.tool_calls _ c h)
        | inr t ↦ rw (e, t) h
      ]
    ]

save_all-Stored :
    (id : ℕ) (call_id : String) (c : StoredCall) (ss : List Save) (db : Db)
    → Stored id call_id c db
    → Stored id call_id c (save_all ss db)
unfolding save_all
save_all-Stored id call_id c [] db h = h
save_all-Stored id call_id c (s ∷ ss) db h =
    save_all-Stored id call_id c ss _ (save-Stored id call_id c s db h)

-- The result of a call that was not stored before, in a conversation that exists, is the one that a
-- retry reads, whatever is saved after it, for that call or for others.
pub first_result_wins :
    (id : ℕ) (call_id name : String) (r : CallResult) (ss : List Save) (db : Db)
    → tool_call id call_id db ≡ err not_found
    → is_some (find_where (has_id id) db.conversations) ≡ true
    → tool_call id call_id (save_all ss (save_tool_call id call_id name r db).1) ≡ ok r
unfolding tool_call
first_result_wins id call_id name r ss db fresh exists =
    let row : StoredCall = record {
      conversation_id = id;
      call_id = call_id;
      name = name;
      result = r;
    } in
    elim (Option-cases (find_where (is_call id call_id) db.tool_calls)) [
      | inr (c, e) ↦ absurd (cc (rw e at fresh))
      | inl e ↦
          let own : is_call id call_id row ≡ true = ground (arith, ==_refl id, eq_refl call_id) in
          let stored : Stored id call_id row (save_tool_call id call_id name r db).1 =
            unfold save_tool_call in
            (rw (e, exists)
              (ground (
                arith,
                find-append_none call_key (is_call id call_id) db.tool_calls (row ∷ []) e,
                own,
              ))) in
          rw (save_all-Stored id call_id row ss (save_tool_call id call_id name r db).1 stored) refl
    ]
