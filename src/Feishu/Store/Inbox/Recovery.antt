-- ===== src/Feishu/Store/Inbox/Recovery.antt =====
-- The store after `recover_on_startup`.
use mathlib.Core.List.{Perm}
use codex_feishu_remoter.Prelude.{
  ◌≡◌, refl, false, List, [], ◌∷◌, arith, where_update, where_select, All, All-where_update_new,
  IsSorted, order_by-IsSorted, order_by-perm,
}
use codex_feishu_remoter.Feishu.Model.{InboxRecord, is_queued, is_running, inbox_keyed}
use codex_feishu_remoter.Feishu.Store.{FeishuStore, is_pending}
use codex_feishu_remoter.Feishu.Store.Inbox.{
  received_order, interrupt, held_by, is_pending_reply, recover_on_startup,
}
use codex_feishu_remoter.Feishu.Store.Inbox.Order.{received_order-IsOrder}

-- What a restart leaves: `rows` is the work to resume.
pub record IsRecovered (s : FeishuStore) (rows : List InboxRecord) (s' : FeishuStore) : Type 0 where
  pub none_running : All (λ r. is_running r.status ≡ false) s'.inbox
  pub none_pending : All (λ a. is_pending a.state ≡ false) s'.approvals
  pub none_unsent : All (λ r. is_pending_reply r.state ≡ false) s'.replies
  pub none_held : All (λ a. held_by s'.inbox a.claimed_by_message_id ≡ false) s'.attachments
  pub in_order : IsSorted received_order rows
  pub all_queued : Perm rows (where_select (λ r. is_queued r.status) s.inbox)

queued-interrupt :
    (inbox : List InboxRecord)
    → where_select
        (λ r. is_queued r.status)
        (where_update (λ r. is_running r.status) interrupt inbox)
      ≡ where_select (λ r. is_queued r.status) inbox
unfolding where_select where_update
queued-interrupt [] = refl
queued-interrupt (r ∷ rs) = ground (arith, queued-interrupt rs)

-- After a restart no message is running, no approval and no reply is pending, and no interrupted
-- message holds an attachment. The messages that it returns are those that were queued, each once,
-- in the order in which they were received.
pub recover_on_startup-IsRecovered :
    (s : FeishuStore) → IsRecovered s (recover_on_startup s).0 (recover_on_startup s).1
unfolding recover_on_startup
recover_on_startup-IsRecovered s = record {
  none_running = All-where_update_new _ _ _ (λ r e. refl) (λ r e. e) s.inbox;
  none_pending = All-where_update_new _ _ _ (λ r e. refl) (λ r e. e) s.approvals;
  none_unsent = All-where_update_new _ _ _ (λ r e. refl) (λ r e. e) s.replies;
  none_held = All-where_update_new _ _ _ (λ r e. refl) (λ r e. e) s.attachments;
  in_order = order_by-IsSorted received_order received_order-IsOrder _;
  all_queued = rw (queued-interrupt s.inbox) (order_by-perm received_order _);
}
