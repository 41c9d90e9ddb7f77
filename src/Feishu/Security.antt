-- ===== src/Feishu/Security.antt =====
-- src/cfr/feishu/security.py: who may give CFR a task, and where. The checks of paths are calls of
-- the file system.
use codex_feishu_remoter.Prelude.{
  String, Bool, true, false, ◌&&◌, ◌||◌, ◌==◌, List, [], ◌∷◌, if◌then◌else◌, strip, lower_is,
}
use codex_feishu_remoter.Feishu.Model.{FeishuInboundMessage, is_user}

-- the settings that the two checks read
pub record FeishuSettings : Type 0 where
  pub allowed_open_ids : List String
  pub enable_group_chats : Bool

abbrev pub one_of : String → List String → Bool
one_of id [] = false
one_of id (j ∷ ids) = j == id || one_of id ids

unfoldable pub authorize_sender : FeishuInboundMessage → FeishuSettings → Bool
unfolding is_user
authorize_sender message settings =
    is_user message && one_of message.sender_open_id settings.allowed_open_ids

-- the scope by the stripped chat type
abbrev scope_of : String → Bool → Bool
scope_of chat_type group_allowed =
    if lower_is chat_type "p2p"
    then true
    else if lower_is chat_type "group" || lower_is chat_type "topic"
    then group_allowed
    else false

unfoldable pub validate_message_scope : FeishuInboundMessage → FeishuSettings → Bool
validate_message_scope message settings =
    scope_of (strip message.chat_type) (settings.enable_group_chats && message.mentioned_bot)
