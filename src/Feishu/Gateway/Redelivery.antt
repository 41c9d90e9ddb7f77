-- ===== src/Feishu/Gateway/Redelivery.antt =====
-- An event that is delivered again does nothing.
use codex_feishu_remoter.Prelude.{
  ℕ, ◌≡◌, refl, inl, inr, String, Bool, true, false, not, ◌&&◌, Option, none, some, Bool-cases,
  is_null, is_some, lookup, Outcome, ok, raised, is_empty_text, starts_with_slash,
}
use codex_feishu_remoter.Feishu.Model.{FeishuInboundMessage, InboxRecord, inbox_keyed}
use codex_feishu_remoter.Feishu.Store.{FeishuStore}
use codex_feishu_remoter.Feishu.Store.Inbox.{enqueue_message}
use codex_feishu_remoter.Feishu.Security.{FeishuSettings}
use codex_feishu_remoter.Feishu.Gateway.{
  GatewayError, ParsedCommand, Commands, Daemon, World, Reply, Result, ignored, deduped, is_text,
  stripped, attachment_type, has_resource, by_command, by_commands, by_slash, route, consume,
  refusal, unless_refused, count_received, handle_message_event,
}

-- The answers that say that nothing was done.
abbrev pub is_idle : Outcome GatewayError Reply → Bool
is_idle (ok (ignored reason)) = true
is_idle (ok deduped) = true
is_idle (ok _) = false
is_idle (raised e) = false

known_message :
    (m : FeishuInboundMessage) (now : ℕ) (s : FeishuStore) (r : InboxRecord)
    → lookup m.message_id s.inbox ≡ some r
    → enqueue_message now m s ≡ (false, s)
unfolding enqueue_message
known_message m now s r found = rw found refl

module _ {D : Type 0} where
  abbrev pub IsInert : World D → Result D → Type 0
  IsInert w (answer, w') = (w'.shared ≡ w.shared) × (is_idle answer ≡ true)

  module _ (m : FeishuInboundMessage) (now : ℕ) (w : World D)
      (known : enqueue_message now m w.shared.0 ≡ (false, w.shared.0)) where
    by_command-known :
        (d : Daemon D) (c : Commands) (parsed : Option ParsedCommand)
        → IsInert w (by_command d c now m w parsed)
    by_command-known d c none = rw known (refl, refl)
    by_command-known d c (some parsed) = elim (Bool-cases (c.is_immediate parsed.name)) [
      | inl e ↦ rw (e, known) (refl, refl)
      | inr e ↦ rw (e, known) (refl, refl)
    ]

    by_commands-known :
        (d : Daemon D) (commands : Option Commands) → IsInert w (by_commands d commands now m w)
    by_commands-known d none = rw known (refl, refl)
    by_commands-known d (some c) = by_command-known d c (c.parse m.text)

    by_slash-known : (daemon : Option (Daemon D)) → IsInert w (by_slash daemon now m w)
    by_slash-known none = (refl, refl)
    by_slash-known (some d) = by_commands-known d d.commands

    pub route-known : (daemon : Option (Daemon D)) → IsInert w (route daemon now m w)
    route-known daemon = elim (Bool-cases (is_text m && is_empty_text (stripped m))) [
      | inl e ↦ rw (e, known) (refl, refl)
      | inr e ↦ elim (Bool-cases (not (is_text m) && is_null (attachment_type m.message_type))) [
        | inl f ↦ rw (e, f, known) (refl, refl)
        | inr f ↦
            elim (Bool-cases (
              is_some (attachment_type m.message_type)
              && not (has_resource (attachment_type m.message_type) m.resources))) [
                | inl g ↦ rw (e, f, g, known) (refl, refl)
                | inr g ↦ elim (Bool-cases (is_text m && starts_with_slash (stripped m))) [
                  | inl h ↦ rw (e, f, g, h) (by_slash-known daemon)
                  | inr h ↦ rw (e, f, g, h, known) (refl, refl)
                ]
              ]
      ]
    ]

  -- An event of a message that is in the inbox, whatever has become of it, changes neither the store
  -- nor the daemon and runs no command, unless the daemon takes it as the answer to a question: the
  -- gateway ignores it or calls it a duplicate.
  pub handle_message_event-known :
      (settings : FeishuSettings) (daemon : Option (Daemon D)) (now : ℕ) (m : FeishuInboundMessage)
      (w : World D) (r : InboxRecord)
      → lookup m.message_id w.shared.0.inbox ≡ some r
      → consume daemon m w.shared ≡ (false, w.shared)
      → IsInert w (handle_message_event settings daemon now (some m) w)
  unfolding handle_message_event
  handle_message_event-known settings daemon now m w r found unasked =
      by_refusal (refusal settings m)
    where
      by_refusal :
          (o : Option String) → IsInert w (unless_refused daemon now m (count_received w) o)
      by_refusal (some reason) = (refl, refl)
      by_refusal none =
          rw unasked
            (route-known m now (count_received w) (known_message m now w.shared.0 r found) daemon)
