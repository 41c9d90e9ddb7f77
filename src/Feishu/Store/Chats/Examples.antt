-- ===== src/Feishu/Store/Chats/Examples.antt =====
-- Two chats, one with a tab, and the theorem at them.
use codex_feishu_remoter.Prelude.{sql, String, ◌≡◌, ◌≢◌, refl, none, some, [], ◌∷◌}
use codex_feishu_remoter.Feishu.Store.{FeishuStore, ChatBinding, chat_binding_keyed, empty}
use codex_feishu_remoter.Feishu.Store.Chats.{
  get_chat_binding, new_chat_binding, ensure_chat_binding, update_chat_binding, has_turn,
  list_pending_approval_turns,
}
use codex_feishu_remoter.Feishu.Store.Approvals.{ApprovalRequest, create_approval}
use codex_feishu_remoter.Feishu.Store.Chats.Waiting.{waits, EachOnce, list_pending-EachOnce}
use codex_feishu_remoter.Feishu.Store.Chats.Ensure.{ensure_chat_binding_again}

abbrev one_tab : FeishuStore
one_tab = record empty { chat_bindings = new_chat_binding 1 "key" "c" ∷ [] }

moves :
    (update_chat_binding 2 "next" "c" (some "7") none one_tab).0
    ≡ some (record (new_chat_binding 1 "key" "c") { tab_id = some "7"; updated_at = 2 })
unfolding sql update_chat_binding ensure_chat_binding get_chat_binding
moves = refl

ensure_chat_binding_again_example :
    (r : ChatBinding) × ((ensure_chat_binding 3 "next" "d" one_tab).0 ≡ some r)
    × (r.chat_id ≡ "d")
    × (ensure_chat_binding 4 "other" "d" (ensure_chat_binding 3 "next" "d" one_tab).1
        ≡ (some r, (ensure_chat_binding 3 "next" "d" one_tab).1))
    × ((other : String)
        → other ≢ "d"
        → get_chat_binding other (ensure_chat_binding 3 "next" "d" one_tab).1
          ≡ get_chat_binding other one_tab)
unfolding sql
ensure_chat_binding_again_example = ensure_chat_binding_again 3 4 "next" "other" "d" one_tab refl

abbrev request : String → ApprovalRequest
request id = record { request_id = id; thread_id = "t"; turn_id = some "u"; kind = "command" }

-- One turn waits for two approvals.
abbrev asking : FeishuStore
asking =
    (create_approval 2 "b" (request "2") "ou_1" 60 "{}"
      (create_approval 1 "a" (request "1") "ou_1" 60 "{}" empty).1).1

list_pending-EachOnce_example :
    ((t u : String)
      → has_turn t u (list_pending_approval_turns asking) ≡ waits t u asking.approvals)
    × EachOnce (list_pending_approval_turns asking)
list_pending-EachOnce_example = list_pending-EachOnce asking

one_turn : list_pending_approval_turns asking ≡ ("t", "u") ∷ []
unfolding sql list_pending_approval_turns create_approval
one_turn = refl
