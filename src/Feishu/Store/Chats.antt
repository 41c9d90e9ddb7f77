-- ===== src/Feishu/Store/Chats.antt =====
-- The chat bindings of `FeishuStore` (the browser tab of a chat), the surface that is current, and
-- the listings that the control center reads. `limit` is `max(0, int(limit))`, `none` for no limit.
-- SQLite leaves open which of two rows of one time comes first; here it is the one inserted first.
pub mod Ensure
pub mod Waiting
mod Examples
use codex_feishu_remoter.Prelude.{
  ℕ, max, ltb, eqb, text_leb, String, Bool, true, false, not, ◌&&◌, ◌||◌, ◌==◌, Option, none, some,
  List, [], ◌∷◌, ◌++◌, if◌then◌else◌, leb, is_some, or_else, is_value, lookup, has, where_update,
  where_select, order_by, first,
}
use codex_feishu_remoter.Prelude.Caps.{keep_first}
use codex_feishu_remoter.Feishu.Model.{FeishuSession, session_keyed, InboxRecord, inbox_keyed}
use codex_feishu_remoter.Feishu.Store.{
  FeishuStore, ChatBinding, chat_binding_keyed, SurfaceState, surface_keyed, Approval, is_pending,
}

unfoldable pub get_chat_binding : String → FeishuStore → Option ChatBinding
get_chat_binding chat_id s = lookup chat_id s.chat_bindings

abbrev pub new_chat_binding : ℕ → String → String → ChatBinding
new_chat_binding now tab_key chat_id = record {
  chat_id = chat_id;
  tab_key = tab_key;
  tab_id = none;
  url = none;
  created_at = now;
  updated_at = now;
}

-- `insert or ignore`: both `chat_id` and `tab_key` are unique.
abbrev pub insert_or_ignore : ChatBinding → List ChatBinding → List ChatBinding
insert_or_ignore new rows =
    if has new.chat_id rows || is_some (first (where_select (λ r. r.tab_key == new.tab_key) rows))
    then rows
    else rows ++ new ∷ []

abbrev pub ensure_from :
    ℕ → String → String → FeishuStore → Option ChatBinding → Option ChatBinding × FeishuStore
ensure_from now tab_key chat_id s (some r) = (some r, s)
ensure_from now tab_key chat_id s none =
    let rows : List ChatBinding =
      insert_or_ignore (new_chat_binding now tab_key chat_id) s.chat_bindings in
    (lookup chat_id rows, record s { chat_bindings = rows })

-- `tab_key` is `f'cfr-chat-{uuid.uuid4().hex}'`.
unfoldable pub ensure_chat_binding :
    ℕ → String → String → FeishuStore → Option ChatBinding × FeishuStore
ensure_chat_binding now tab_key chat_id s =
    ensure_from now tab_key chat_id s (lookup chat_id s.chat_bindings)

abbrev pub kept_or : Option String → Option String → Option String
kept_or none old = old
kept_or (some new) old = some new

abbrev pub moved : ℕ → Option String → Option String → ChatBinding → ChatBinding
moved now tab_id url r = record r {
  tab_id = kept_or tab_id r.tab_id;
  url = kept_or url r.url;
  updated_at = now;
}

unfoldable pub update_chat_binding :
    ℕ
    → String
    → String
    → Option String
    → Option String
    → FeishuStore
    → Option ChatBinding × FeishuStore
unfolding ensure_chat_binding get_chat_binding
update_chat_binding now tab_key chat_id tab_id url s =
    let ensured : FeishuStore = (ensure_chat_binding now tab_key chat_id s).1 in
    let s' : FeishuStore = record ensured {
      chat_bindings =
          where_update (λ (r : ChatBinding). r.chat_id == chat_id) (moved now tab_id url)
            ensured.chat_bindings;
    } in
    (get_chat_binding chat_id s', s')

unfoldable pub chat_exists : String → FeishuStore → Bool
chat_exists chat_id s =
    has chat_id s.sessions
    || (has chat_id s.chat_bindings
        || (has chat_id s.surfaces
            || is_some (first (where_select (λ (r : InboxRecord). r.chat_id == chat_id) s.inbox))))

abbrev surface_or_code : Option SurfaceState → String
surface_or_code none = "code"
surface_or_code (some r) = r.selected_surface

abbrev current_from : FeishuStore → Option InboxRecord → Option SurfaceState
current_from s (some i) = some (record {
  chat_id = i.chat_id;
  selected_surface = surface_or_code (lookup i.chat_id s.surfaces);
  updated_at = i.received_at;
})
current_from s none =
    first (order_by (λ (a b : SurfaceState). leb b.updated_at a.updated_at) s.surfaces)

-- the surface of the chat that wrote last, or the one that was selected last
unfoldable pub get_current_surface_state : FeishuStore → Option SurfaceState
get_current_surface_state s =
    current_from s
      (first (order_by (λ (a b : InboxRecord). leb b.received_at a.received_at) s.inbox))

unfoldable pub list_surface_states : Option ℕ → FeishuStore → List SurfaceState
list_surface_states limit s =
    keep_first limit (order_by (λ (a b : SurfaceState). leb b.updated_at a.updated_at) s.surfaces)

unfoldable pub list_chat_bindings : Option ℕ → FeishuStore → List ChatBinding
list_chat_bindings limit s =
    keep_first limit
      (order_by (λ (a b : ChatBinding). leb b.updated_at a.updated_at) s.chat_bindings)

unfoldable pub list_sessions : Option ℕ → FeishuStore → List FeishuSession
list_sessions limit s =
    keep_first limit (order_by (λ (a b : FeishuSession). leb b.updated_at a.updated_at) s.sessions)

-- `order by created_at desc,approval_id desc`
abbrev newest_first : Approval → Approval → Bool
newest_first a b =
    ltb b.created_at a.created_at
    || (eqb b.created_at a.created_at && text_leb b.approval_id a.approval_id)

-- `min(max(int(limit), 1), 100)`
abbrev bounded_limit : ℕ → ℕ
bounded_limit limit = if leb 100 limit then 100 else max limit 1

-- the rows of which ten columns are selected
unfoldable pub list_recent_approvals : ℕ → FeishuStore → List Approval
list_recent_approvals limit s =
    keep_first (some (bounded_limit limit)) (order_by newest_first s.approvals)

abbrev pub has_turn : String → String → List (String × String) → Bool
has_turn thread_id turn_id [] = false
has_turn thread_id turn_id ((t, u) ∷ turns) =
    (t == thread_id && u == turn_id) || has_turn thread_id turn_id turns

abbrev pub add_turn :
    Bool → String → Option String → List (String × String) → List (String × String)
add_turn true thread_id (some turn_id) turns =
    if has_turn thread_id turn_id turns then turns else (thread_id, turn_id) ∷ turns
add_turn _ thread_id _ turns = turns

abbrev pub turns_of : List Approval → List (String × String)
turns_of [] = []
turns_of (a ∷ approvals) = add_turn (is_pending a.state) a.thread_id a.turn_id (turns_of approvals)

-- a set: each pair once, in no particular order
unfoldable pub list_pending_approval_turns : FeishuStore → List (String × String)
list_pending_approval_turns s = turns_of s.approvals
