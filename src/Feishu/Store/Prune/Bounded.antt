-- ===== src/Feishu/Store/Prune/Bounded.antt =====
-- What the retention leaves is bounded in number and in age.
use codex_feishu_remoter.Prelude.{
  ℕ, ◌-◌, ◌≤◌, ◌≡◌, subst, sym, false, Option, some, arith, where_delete, rowcount, All,
  All-where_delete,
}
use codex_feishu_remoter.Prelude.Caps.{
  over_limit, over_limit-bounds, rowcount-where_delete-le, where_delete-fails,
}
use codex_feishu_remoter.Feishu.Model.{inbox_keyed}
use codex_feishu_remoter.Feishu.Store.{FeishuStore, reply_keyed, approval_keyed}
use codex_feishu_remoter.Feishu.Store.Prune.{
  Retention, is_finished, is_terminal, is_delivered, is_stale, old_reply, old_approval, old_message,
  is_orphan, newer_reply, newer_approval, newer_message, prune_history,
}

-- What is left of `s` in `s'`: the finished rows are neither too many nor too old, each delivered
-- reply has its message, and no attachment is stale.
pub record IsPruned (now : ℕ) (opts : Retention) (s s' : FeishuStore) : Type 0 where
  pub few_messages : (n : ℕ) → opts.max_inbox ≡ some n → rowcount is_finished s'.inbox ≤ n
  pub few_replies : (n : ℕ) → opts.max_replies ≡ some n → rowcount is_delivered s'.replies ≤ n
  pub few_approvals : (n : ℕ) → opts.max_approvals ≡ some n → rowcount is_terminal s'.approvals ≤ n
  pub recent_messages : All (λ r. old_message (now - opts.inbox_retention) r ≡ false) s'.inbox
  pub recent_replies : All (λ r. old_reply (now - opts.inbox_retention) r ≡ false) s'.replies
  pub recent_approvals :
      All (λ a. old_approval (now - opts.approval_retention) a ≡ false) s'.approvals
  pub no_orphans : All (λ r. is_orphan s'.inbox r ≡ false) s'.replies
  pub no_stale :
      All (λ a. is_stale s.inbox (now - opts.attachment_retention) a ≡ false) s'.attachments

-- After `prune_history` the finished messages, the delivered replies and the terminal approvals are
-- at most as many as their caps, none of them is older than its retention, no delivered reply is
-- without its message, and no stale attachment is left.
pub prune-IsPruned :
    (now : ℕ) (opts : Retention) (s : FeishuStore)
    → IsPruned now opts s (prune_history now opts s).1
unfolding prune_history
prune-IsPruned now opts s =
    let inbox = where_delete (old_message (now - opts.inbox_retention)) s.inbox in
    let replies = where_delete (old_reply (now - opts.inbox_retention)) s.replies in
    let approvals = where_delete (old_approval (now - opts.approval_retention)) s.approvals in
    record {
      few_messages = λ n e.
          subst
            (λ limit.
              rowcount is_finished
                (where_delete (over_limit is_finished newer_message limit inbox) inbox)
              ≤ n)
            (sym e) (over_limit-bounds is_finished newer_message n inbox);
      few_replies = λ n e.
          let kept = λ (limit : Option ℕ).
            where_delete (over_limit is_delivered newer_reply limit replies) replies in
          let capped : rowcount is_delivered (kept opts.max_replies) ≤ n =
            subst (λ limit. rowcount is_delivered (kept limit) ≤ n) (sym e)
              (over_limit-bounds is_delivered newer_reply n replies) in
          let fewer =
            rowcount-where_delete-le is_delivered (is_orphan (prune_history now opts s).1.inbox)
              (kept opts.max_replies) in
          omega arith;
      few_approvals = λ n e.
          subst
            (λ limit.
              rowcount is_terminal
                (where_delete (over_limit is_terminal newer_approval limit approvals) approvals)
              ≤ n)
            (sym e) (over_limit-bounds is_terminal newer_approval n approvals);
      recent_messages = All-where_delete _ _ inbox (where_delete-fails _ s.inbox);
      recent_replies =
          All-where_delete _ _ _ (All-where_delete _ _ replies (where_delete-fails _ s.replies));
      recent_approvals = All-where_delete _ _ approvals (where_delete-fails _ s.approvals);
      no_orphans = where_delete-fails _ _;
      no_stale = where_delete-fails _ s.attachments;
    }
