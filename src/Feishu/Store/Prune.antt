-- ===== src/Feishu/Store/Prune.antt =====
-- `FeishuStore.prune_history`: the retention of finished rows. A retention is what `max(0, …)` of
-- the argument is, and a negative cap is `none`. A cutoff before the start of the clock is 0, and
-- no time is before either. SQLite leaves open which of two rows of one time comes first; here it
-- is the row that was inserted first.
pub mod Live
pub mod Bounded
mod Examples
use codex_feishu_remoter.Prelude.{
  ℕ, String, ◌+◌, ◌-◌, Bool, true, false, not, ◌&&◌, ◌||◌, ◌==◌, Option, none, some, List, [], ◌∷◌,
  map, if◌then◌else◌, ltb, leb, is_null, is_some, or_else, coalesce, where_select, where_delete,
  rowcount,
}
use codex_feishu_remoter.Prelude.Caps.{over_limit}
use codex_feishu_remoter.Feishu.Model.{InboxRecord, inbox_keyed, is_active, is_queued, is_running}
use codex_feishu_remoter.Feishu.Store.{
  FeishuStore, Attachment, Reply, ReplyState, reply_keyed, Approval, ApprovalState, approval_keyed,
}

-- the keyword arguments
pub record Retention : Type 0 where
  pub inbox_retention : ℕ
  pub approval_retention : ℕ
  pub attachment_retention : ℕ
  pub max_inbox : Option ℕ
  pub max_replies : Option ℕ
  pub max_approvals : Option ℕ

pub record Removed : Type 0 where
  pub inbox : ℕ
  pub replies : ℕ
  pub approvals : ℕ
  pub attachments : ℕ
  pub attachment_paths : List String

-- `terminal_inbox` holds every status but the two active ones.
abbrev pub is_finished : InboxRecord → Bool
is_finished r = not (is_active r.status)

-- `terminal_approvals`
abbrev pub is_terminal_state : ApprovalState → Bool
is_terminal_state ApprovalState.pending = false
is_terminal_state ApprovalState.resolved = false
is_terminal_state _ = true

abbrev pub is_terminal : Approval → Bool
is_terminal a = is_terminal_state a.state

abbrev pub is_delivered_state : ReplyState → Bool
is_delivered_state ReplyState.pending = false
is_delivered_state _ = true

-- `state in ('sent','failed')`
abbrev pub is_delivered : Reply → Bool
is_delivered r = is_delivered_state r.state

abbrev pub exists : (InboxRecord → Bool) → List InboxRecord → Bool
exists p inbox = ltb 0 (rowcount p inbox)

abbrev pub stale_claim : List InboxRecord → ℕ → Attachment → Option String → Bool
stale_claim inbox cutoff a (some by) =
    not (exists (λ i. i.message_id == by && is_active i.status) inbox)
stale_claim inbox cutoff a none =
    ltb a.created_at cutoff
    && not (
        exists
          (λ i. i.chat_id == a.chat_id && (is_active i.status && leb a.created_at i.received_at))
          inbox)

abbrev pub is_stale : List InboxRecord → ℕ → Attachment → Bool
is_stale inbox cutoff a = stale_claim inbox cutoff a a.claimed_by_message_id

abbrev pub old_reply : ℕ → Reply → Bool
old_reply cutoff r = is_delivered r && ltb r.created_at cutoff

abbrev pub newer_reply : Reply → Reply → Bool
newer_reply a b = leb b.created_at a.created_at

-- `coalesce(resolved_at, expires_at, created_at) < ?`; `expires_at` is never null
abbrev pub old_approval : ℕ → Approval → Bool
old_approval cutoff a = is_terminal a && ltb (or_else a.resolved_at a.expires_at) cutoff

abbrev pub newer_approval : Approval → Approval → Bool
newer_approval a b = leb b.created_at a.created_at

abbrev pub old_message : ℕ → InboxRecord → Bool
old_message cutoff r = is_finished r && ltb (or_else r.completed_at r.received_at) cutoff

abbrev pub newer_message : InboxRecord → InboxRecord → Bool
newer_message a b = leb b.received_at a.received_at

abbrev pub is_orphan : List InboxRecord → Reply → Bool
is_orphan inbox r = is_delivered r && not (exists (λ i. i.message_id == r.message_id) inbox)

unfoldable pub prune_history : ℕ → Retention → FeishuStore → Removed × FeishuStore
prune_history now opts s =
    let inbox_cutoff : ℕ = now - opts.inbox_retention in
    let approval_cutoff : ℕ = now - opts.approval_retention in
    let stale : Attachment → Bool = is_stale s.inbox (now - opts.attachment_retention) in
    let replies : List Reply = where_delete (old_reply inbox_cutoff) s.replies in
    let surplus_reply : Reply → Bool =
      over_limit is_delivered newer_reply opts.max_replies replies in
    let replies' : List Reply = where_delete surplus_reply replies in
    let approvals : List Approval = where_delete (old_approval approval_cutoff) s.approvals in
    let surplus_approval : Approval → Bool =
      over_limit is_terminal newer_approval opts.max_approvals approvals in
    let inbox : List InboxRecord = where_delete (old_message inbox_cutoff) s.inbox in
    let surplus_message : InboxRecord → Bool =
      over_limit is_finished newer_message opts.max_inbox inbox in
    let inbox' : List InboxRecord = where_delete surplus_message inbox in
    (
      record {
        inbox = rowcount (old_message inbox_cutoff) s.inbox + rowcount surplus_message inbox;
        replies =
            rowcount (old_reply inbox_cutoff) s.replies
            + (rowcount surplus_reply replies + rowcount (is_orphan inbox') replies');
        approvals =
            rowcount (old_approval approval_cutoff) s.approvals
            + rowcount surplus_approval approvals;
        attachments = rowcount stale s.attachments;
        attachment_paths = map (λ (a : Attachment). a.path) (where_select stale s.attachments);
      },
      record s {
        inbox = inbox';
        replies = where_delete (is_orphan inbox') replies';
        approvals = where_delete surplus_approval approvals;
        attachments = where_delete stale s.attachments;
      },
    )
