-- ===== src/Feishu/Store/Approvals/Ops.antt =====
-- The calls that change the approvals of the store, as one type.
use codex_feishu_remoter.Prelude.{
  ℕ, String, refl, ◌==◌, Option, none, some, arith, lookup, Unique, Unique-where_update,
  Unique-snoc, Unique-where_delete, Stays, same_row, where_delete-Stays, max,
}
use codex_feishu_remoter.Feishu.Store.{FeishuStore, Approval, ApprovalState, approval_keyed}
use codex_feishu_remoter.Feishu.Store.Prune.{Retention, prune_history}
use codex_feishu_remoter.Feishu.Store.Inbox.{recover_on_startup}
use codex_feishu_remoter.Feishu.Store.Approvals.{
  ApprovalRequest, new_approval, create_approval, bind_approval_card, feedback_rank, move_feedback,
  advanced, feedback_to, transition_feedback, mark_feedback_update_failed,
  mark_feedback_update_succeeded, resolve_approval, expire_approval,
}

pub data ApprovalOp : Type 0 where
  create : ℕ → String → ApprovalRequest → String → ℕ → String → ApprovalOp
  bind_card : String → String → ApprovalOp
  feedback : ℕ → String → String → ApprovalOp
  feedback_failed : ℕ → String → String → ApprovalOp
  feedback_succeeded : ℕ → String → ApprovalOp
  resolve : ℕ → String → String → ApprovalState → ApprovalOp
  expire : ℕ → String → ApprovalOp
  restart : ApprovalOp
  prune : ℕ → Retention → ApprovalOp

unfoldable pub apply : ApprovalOp → FeishuStore → FeishuStore
apply (create now id request requester expires summary) s =
    (create_approval now id request requester expires summary s).1
apply (bind_card id card) s = (bind_approval_card id card s).1
apply (feedback now id state) s = (transition_feedback now id state s).1
apply (feedback_failed now id code) s = mark_feedback_update_failed now id code s
apply (feedback_succeeded now id) s = mark_feedback_update_succeeded now id s
apply (resolve now id decision state) s = (resolve_approval now id decision state s).1
apply (expire now id) s = (expire_approval now id s).1
apply restart s = (recover_on_startup s).1
apply (prune now opts) s = (prune_history now opts s).1

create-Unique :
    (now : ℕ) (id : String) (request : ApprovalRequest) (requester : String) (expires : ℕ)
    (summary : String) (s : FeishuStore)
    → Unique s.approvals
    → Unique (create_approval now id request requester expires summary s).1.approvals
unfolding create_approval
create-Unique now id request requester expires summary s u =
    ground
      (arith, Unique-snoc s.approvals (new_approval now id request requester expires summary) u)

move-Unique :
    (now : ℕ) (id state : String) (rank : ℕ) (s : FeishuStore) (row : Option Approval)
    → Unique s.approvals
    → Unique (move_feedback now id state rank s row).1.approvals
move-Unique now id state rank s none u = u
move-Unique now id state rank s (some row) u = ground (
  arith,
  Unique-where_update (λ (a : Approval). a.approval_id == id)
      (advanced now state (max rank row.feedback_revision)) (λ r. refl) s.approvals u,
)

feedback-Unique :
    (now : ℕ) (id state : String) (s : FeishuStore) (rank : Option ℕ)
    → Unique s.approvals
    → Unique (feedback_to now id state s rank).1.approvals
feedback-Unique now id state s none u = u
feedback-Unique now id state s (some rank) u =
    move-Unique now id state rank s (lookup id s.approvals) u

-- No call gives an approval a second row.
pub apply-Unique :
    (op : ApprovalOp) (s : FeishuStore) → Unique s.approvals → Unique (apply op s).approvals
unfolding apply transition_feedback bind_approval_card mark_feedback_update_failed
    mark_feedback_update_succeeded expire_approval resolve_approval recover_on_startup prune_history
apply-Unique (create now id request requester expires summary) s u =
    create-Unique now id request requester expires summary s u
apply-Unique (bind_card id card) s u = Unique-where_update _ _ (λ r. refl) s.approvals u
apply-Unique (feedback now id state) s u = feedback-Unique now id state s (feedback_rank state) u
apply-Unique (feedback_failed now id code) s u = Unique-where_update _ _ (λ r. refl) s.approvals u
apply-Unique (feedback_succeeded now id) s u = Unique-where_update _ _ (λ r. refl) s.approvals u
apply-Unique (resolve now id decision state) s u = Unique-where_update _ _ (λ r. refl) s.approvals u
apply-Unique (expire now id) s u = Unique-where_update _ _ (λ r. refl) s.approvals u
apply-Unique restart s u = Unique-where_update _ _ (λ r. refl) s.approvals u
apply-Unique (prune now opts) s u = Unique-where_delete _ _ (Unique-where_delete _ s.approvals u)

-- `prune_history` changes no approval that it leaves.
pub prune-Stays :
    (now : ℕ) (opts : Retention) (id : String) (s : FeishuStore)
    → Unique s.approvals
    → Stays (lookup id s.approvals) (lookup id (prune_history now opts s).1.approvals)
unfolding prune_history
prune-Stays now opts id s u =
    where_delete-Stays _ id _ _ (Unique-where_delete _ s.approvals u)
      (where_delete-Stays _ id _ s.approvals u (same_row (lookup id s.approvals)))
