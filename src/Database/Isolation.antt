-- ===== src/Database/Isolation.antt =====
-- Who owns a chat: keys are unique, so a chat has one owner, and what a user deletes is the user's.
use iot_ops_agent.Prelude.{
  ℕ, ◌≡◌, ◌≢◌, refl, inl, inr, Bool, true, false, List, [], ◌∷◌, arith, select, discard, any,
  select-discard, nat_eqb_iff, ◌==◌, nat_eq, Bool-cases,
}
use iot_ops_agent.Database.Tables.{Ascending, any_below}
use iot_ops_agent.Database.{Chat, Message}
use iot_ops_agent.Database.Chats.{is_chat, owned, in_chat, chat_id_in}

pub unique_owner :
    (chat_id u v lo : ℕ) (chats : List Chat) (hi : ℕ)
    → u ≢ v
    → Ascending (λ c. c.id) lo chats hi
    → any (is_chat chat_id u) chats ≡ true
    → any (is_chat chat_id v) chats ≡ false
unique_owner chat_id u v lo [] hi ne h own = refl
unique_owner chat_id u v lo (c ∷ cs) hi ne (h, hs) own = ground (
  arith,
  any_below (λ c. c.id) (owned u) chat_id c.id cs hi,
  any_below (λ c. c.id) (owned v) chat_id c.id cs hi,
  unique_owner chat_id u v c.id cs hi ne hs,
)

-- `p` selects chats of one user only.
module _ (u : ℕ) (p : Chat → Bool) (mine : (c : Chat) → p c ≡ true → owned u c ≡ true) where
  is_chat_of_select :
      (chat_id : ℕ) (chats : List Chat)
      → any (λ c. c.id == chat_id) (select p chats) ≡ true
      → any (is_chat chat_id u) chats ≡ true
  is_chat_of_select chat_id [] h = h
  is_chat_of_select chat_id (c ∷ cs) h = ground (arith, mine c, is_chat_of_select chat_id cs)

  pub not_selected :
      (chat_id v lo : ℕ) (chats : List Chat) (hi : ℕ)
      → u ≢ v
      → Ascending (λ c. c.id) lo chats hi
      → any (is_chat chat_id v) chats ≡ true
      → any (λ c. c.id == chat_id) (select p chats) ≡ false
  not_selected chat_id v lo chats hi ne h own =
      elim (Bool-cases (any (λ c. c.id == chat_id) (select p chats))) [
        | inl e ↦ absurd (
            cc (own, unique_owner chat_id u v lo chats hi ne h (is_chat_of_select chat_id chats e)))
        | inr e ↦ e
      ]

  -- The messages of another user's chat stay when the selected chats' messages go.
  pub messages_kept :
      (chat_id : ℕ) (chats : List Chat)
      → any (λ c. c.id == chat_id) (select p chats) ≡ false
      → (ms : List Message)
      → select (in_chat chat_id) (discard (chat_id_in (select p chats)) ms)
        ≡ select (in_chat chat_id) ms
  messages_kept chat_id chats h ms =
      select-discard (chat_id_in (select p chats)) (in_chat chat_id)
        (λ m e. rw ((nat_eqb_iff m.chat_id chat_id).0 e) h) ms
