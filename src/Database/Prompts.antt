-- ===== src/Database/Prompts.antt =====
-- The prompts of storage/sqlite_store.py.
pub mod Ownership
use iot_ops_agent.Prelude.{
  ℕ, String, Bool, true, false, not, ◌&&◌, ◌||◌, List, select, discard, update, any, sort_by, ltb,
  ◌==◌, nat_eq, if◌then◌else◌,
}
use iot_ops_agent.Database.Tables.{next_id, insert}
use iot_ops_agent.Database.{Prompt, Db}

-- ORDER BY is_default DESC, id DESC
abbrev pub listed_before : Prompt → Prompt → Bool
listed_before a b =
    if a.is_default
    then (if b.is_default then ltb b.id a.id else true)
    else if b.is_default
    then false
    else ltb b.id a.id

abbrev pub visible : ℕ → Prompt → Bool
visible user_id p = p.user_id == user_id || p.is_default

unfoldable pub get_prompts : ℕ → Db → List Prompt
get_prompts user_id db = sort_by listed_before (select (visible user_id) db.prompts.rows)

-- `created_at` has the default CURRENT_TIMESTAMP and is never read.
unfoldable pub create_prompt : ℕ → (title command category : String) → Db → ℕ × Db
create_prompt user_id title command category db =
    let row = λ (id : ℕ).
      let p : Prompt = record {
        id = id;
        user_id = user_id;
        title = title;
        command = command;
        category = category;
        is_default = false;
      } in
      p in
    (next_id db.prompts, record db { prompts = insert row db.prompts })

-- WHERE id = ? AND user_id = ? AND is_default = 0
abbrev pub is_own : ℕ → ℕ → Prompt → Bool
is_own prompt_id user_id p = p.id == prompt_id && (p.user_id == user_id && not p.is_default)

abbrev pub rewritten : (title command category : String) → Prompt → Prompt
rewritten title command category p = record p {
  title = title;
  command = command;
  category = category;
}

unfoldable pub update_prompt : ℕ → ℕ → (title command category : String) → Db → Bool × Db
update_prompt prompt_id user_id title command category db = (
  any (is_own prompt_id user_id) db.prompts.rows,
  record db {
    prompts = record (db.prompts) {
      rows = update (is_own prompt_id user_id) (rewritten title command category) db.prompts.rows;
    };
  },
)

unfoldable pub delete_prompt : ℕ → ℕ → Db → Bool × Db
delete_prompt prompt_id user_id db = (
  any (is_own prompt_id user_id) db.prompts.rows,
  record db {
    prompts = record (db.prompts) { rows = discard (is_own prompt_id user_id) db.prompts.rows };
  },
)
