-- ===== src/Feishu/Gateway/Guards.antt =====
-- A message gets past the gateway only from an allowed user and in an allowed chat.
use codex_feishu_remoter.Prelude.{
  ℕ, ◌≡◌, ◌≢◌, ◌⊎◌, refl, inl, inr, String, true, false, ◌||◌, eq_iff, Option, none, some, arith,
  Bool-cases, Option-cases, strip, lower_is,
}
use codex_feishu_remoter.Feishu.Model.{FeishuInboundMessage, is_user}
use codex_feishu_remoter.Feishu.Security.{
  FeishuSettings, one_of, authorize_sender, validate_message_scope,
}
use codex_feishu_remoter.Feishu.Gateway.{
  Daemon, World, ignored_for, refusal, count_ignored, count_received, handle_message_event,
}

-- a private chat, or a group that is enabled and in which the bot is mentioned
abbrev pub InScope : FeishuSettings → FeishuInboundMessage → Type 0
InScope settings m =
    (lower_is (strip m.chat_type) "p2p" ≡ true)
    ⊎ ((settings.enable_group_chats ≡ true)
        × (m.mentioned_bot ≡ true)
        × ((lower_is (strip m.chat_type) "group" || lower_is (strip m.chat_type) "topic") ≡ true))

pub record IsAdmitted (settings : FeishuSettings) (m : FeishuInboundMessage) : Type 0 where
  pub from_user : (m.sender_type ≡ "user") × (m.sender_is_bot ≡ false)
  pub allowed : one_of m.sender_open_id settings.allowed_open_ids ≡ true
  pub in_scope : InScope settings m
  pub has_ids : (m.message_id ≢ "") × (m.chat_id ≢ "") × (m.sender_open_id ≢ "")

scope-InScope :
    (settings : FeishuSettings) (m : FeishuInboundMessage)
    → validate_message_scope m settings ≡ true
    → InScope settings m
unfolding validate_message_scope
scope-InScope settings m h = elim (Bool-cases (lower_is (strip m.chat_type) "p2p")) [
  | inl private ↦ inl private
  | inr other ↦ inr (ground arith, ground arith, ground arith)
]

refusal-IsAdmitted :
    (settings : FeishuSettings) (m : FeishuInboundMessage)
    → refusal settings m ≡ none
    → IsAdmitted settings m
unfolding authorize_sender is_user
refusal-IsAdmitted settings m h = record {
  from_user = (ground (arith, eq_iff m.sender_type "user"), ground arith);
  allowed = ground arith;
  in_scope = scope-InScope settings m (ground arith);
  has_ids = (
    ground (arith, eq_iff m.message_id ""),
    ground (arith, eq_iff m.chat_id ""),
    ground (arith, eq_iff m.sender_open_id ""),
  );
}

module _ {D : Type 0} where
  -- For each event, with whatever daemon and state: either the call answers that it ignores the
  -- event and changes neither the store nor the daemon, or the event is a message with its ids, from
  -- a user on the list, in a private chat or in an enabled group where the bot is mentioned.
  pub handle_message_event-IsAdmitted :
      (settings : FeishuSettings) (daemon : Option (Daemon D)) (now : ℕ)
      (event : Option FeishuInboundMessage) (w : World D)
      → ((reason : String) × (handle_message_event settings daemon now event w
            ≡ (ignored_for reason, count_ignored (count_received w))))
        ⊎ ((m : FeishuInboundMessage) × (event ≡ some m) × IsAdmitted settings m)
  unfolding handle_message_event
  handle_message_event-IsAdmitted settings daemon now none w = inl ("INVALID_MESSAGE", refl)
  handle_message_event-IsAdmitted settings daemon now (some m) w =
      elim (Option-cases (refusal settings m)) [
        | inl passes ↦ inr (m, refl, refusal-IsAdmitted settings m passes)
        | inr (reason, refused) ↦ inl (reason, rw refused refl)
      ]
