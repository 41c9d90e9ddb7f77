-- ===== src/Feishu/Store/Chats/Ensure.antt =====
-- A chat keeps its browser tab.
use codex_feishu_remoter.Prelude.{
  ℕ, ◌≡◌, ◌≢◌, refl, inl, inr, String, ◌==◌, eq_iff, eq_refl, none, some, List, arith, Option-cases,
  lookup, lookup-key, lookup-snoc, where_select, first,
}
use codex_feishu_remoter.Feishu.Store.{FeishuStore, ChatBinding, chat_binding_keyed}
use codex_feishu_remoter.Feishu.Store.Chats.{
  get_chat_binding, new_chat_binding, insert_or_ignore, ensure_chat_binding,
}

known :
    (now : ℕ) (tab_key chat_id : String) (s : FeishuStore) (r : ChatBinding)
    → lookup chat_id s.chat_bindings ≡ some r
    → ensure_chat_binding now tab_key chat_id s ≡ (some r, s)
unfolding ensure_chat_binding
known now tab_key chat_id s r found = rw found refl

-- the key is not the tab key of any chat
abbrev pub IsFresh : String → FeishuStore → Type 0
IsFresh tab_key s =
    first (where_select (λ (r : ChatBinding). r.tab_key == tab_key) s.chat_bindings) ≡ none

inserted :
    (new : ChatBinding) (rows : List ChatBinding)
    → lookup new.chat_id rows ≡ none
    → first (where_select (λ r. r.tab_key == new.tab_key) rows) ≡ none
    → (lookup new.chat_id (insert_or_ignore new rows) ≡ some new)
      × ((other : String)
          → other ≢ new.chat_id
          → lookup other (insert_or_ignore new rows) ≡ lookup other rows)
inserted new rows absent fresh = (
  ground (arith, absent, fresh, lookup-snoc new.chat_id rows new, eq_refl new.chat_id),
  (λ other n. elim (Option-cases (lookup other rows)) [
    | inl none_there ↦
        ground
          (arith, absent, fresh, none_there, lookup-snoc other rows new, eq_iff new.chat_id other)
    | inr (r, found) ↦
        ground (arith, absent, fresh, found, lookup-snoc other rows new, eq_iff new.chat_id other)
  ]),
)

-- With a fresh tab key `ensure_chat_binding` returns a binding of the chat, the one that it had if
-- it had one; any later call, with whatever key, returns that binding and changes nothing. The
-- bindings of the other chats stay.
pub ensure_chat_binding_again :
    (now later : ℕ) (tab_key next_key chat_id : String) (s : FeishuStore)
    → IsFresh tab_key s
    → (r : ChatBinding) × ((ensure_chat_binding now tab_key chat_id s).0 ≡ some r)
      × (r.chat_id ≡ chat_id)
      × (ensure_chat_binding later next_key chat_id (ensure_chat_binding now tab_key chat_id s).1
          ≡ (some r, (ensure_chat_binding now tab_key chat_id s).1))
      × ((other : String)
          → other ≢ chat_id
          → get_chat_binding other (ensure_chat_binding now tab_key chat_id s).1
            ≡ get_chat_binding other s)
unfolding ensure_chat_binding get_chat_binding
ensure_chat_binding_again now later tab_key next_key chat_id s fresh =
    elim (Option-cases (lookup chat_id s.chat_bindings)) [
      | inl absent ↦
          let new = new_chat_binding now tab_key chat_id in
          let (at, elsewhere) = inserted new s.chat_bindings absent fresh in
          (
            new,
            (rw absent at),
            refl,
            (rw absent (
                known later next_key chat_id
                  (record s { chat_bindings = insert_or_ignore new s.chat_bindings }) new at)),
            (λ other n. rw absent (elsewhere other n)),
          )
      | inr (r, found) ↦ (
        r,
        (rw found refl),
        lookup-key chat_id s.chat_bindings r found,
        (rw found (known later next_key chat_id s r found)),
        (λ other n. rw found refl),
      )
    ]
