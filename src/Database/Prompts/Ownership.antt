-- ===== src/Database/Prompts/Ownership.antt =====
-- Whose prompts a write changes.
use iot_ops_agent.Prelude.{
  ℕ, String, ◌≡◌, ◌≢◌, refl, true, false, arith, select-append_skip, select-update, select-discard,
}
use iot_ops_agent.Database.Tables.{next_id}
use iot_ops_agent.Database.{Prompt, Db}
use iot_ops_agent.Database.Prompts.{
  visible, get_prompts, create_prompt, update_prompt, delete_prompt, is_own, rewritten,
}

visible-is_own : (k u v : ℕ) → u ≢ v → (p : Prompt) → visible v p ≡ true → is_own k u p ≡ false
visible-is_own k u v ne p h = ground arith

-- Whatever prompts a user creates, changes or deletes, under whatever key, another user is shown the
-- same prompts as before.
pub prompts_isolated :
    (u v k : ℕ) (title command category : String) (db : Db)
    → u ≢ v
    → (get_prompts v (create_prompt u title command category db).1 ≡ get_prompts v db)
      × (get_prompts v (update_prompt k u title command category db).1 ≡ get_prompts v db)
      × (get_prompts v (delete_prompt k u db).1 ≡ get_prompts v db)
unfolding get_prompts create_prompt update_prompt delete_prompt
prompts_isolated u v k title command category db ne = (
  let new : Prompt = record {
    id = next_id db.prompts;
    user_id = u;
    title = title;
    command = command;
    category = category;
    is_default = false;
  } in
      rw (select-append_skip (visible v) db.prompts.rows new (ground arith)),
  rw (
      select-update (is_own k u) (visible v) (rewritten title command category)
        (visible-is_own k u v ne) (λ p. refl) db.prompts.rows),
  rw (select-discard (is_own k u) (visible v) (visible-is_own k u v ne) db.prompts.rows),
)
