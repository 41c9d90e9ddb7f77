-- ===== src/Feishu/Store/Prune/Examples.antt =====
-- A store with finished and live rows, and the theorems at it.
use codex_feishu_remoter.Prelude.{sql, ℕ, String, ◌≡◌, refl, false, none, some, [], ◌∷◌, map}
use codex_feishu_remoter.Feishu.Store.{FeishuStore, Approval, ApprovalState, approval_keyed, empty}
use codex_feishu_remoter.Feishu.Store.Prune.{Retention, prune_history}
use codex_feishu_remoter.Feishu.Store.Prune.Live.{KeepsLive, prune-KeepsLive}
use codex_feishu_remoter.Feishu.Store.Prune.Bounded.{IsPruned, prune-IsPruned}

abbrev approval : String → ApprovalState → ℕ → Approval
approval id state at = record {
  approval_id = id;
  codex_request_id = none;
  thread_id = "t";
  turn_id = none;
  kind = "command";
  requester_open_id = "ou_1";
  state = state;
  decision = none;
  created_at = at;
  expires_at = at;
  resolved_at = some at;
  summary_json = "{}";
  card_message_id = none;
  feedback_state = "PENDING";
  feedback_revision = 0;
  feedback_update_failed = false;
  feedback_update_error_code = none;
  feedback_updated_at = none;
}

abbrev crowded : FeishuStore
crowded = record empty {
  approvals =
      approval "old" ApprovalState.approved 1
      ∷ approval "live" ApprovalState.pending 2
      ∷ approval "answered" ApprovalState.resolved 3
      ∷ approval "surplus" ApprovalState.declined 50
      ∷ approval "newest" ApprovalState.expired 60
      ∷ [];
}

abbrev opts : Retention
opts = record {
  inbox_retention = 60;
  approval_retention = 60;
  attachment_retention = 60;
  max_inbox = some 1;
  max_replies = some 1;
  max_approvals = some 1;
}

-- The rows of the state `resolved` are as lasting as the pending ones.
leaves :
    map (λ (a : Approval). a.approval_id) (prune_history 100 opts crowded).1.approvals
    ≡ "live" ∷ "answered" ∷ "newest" ∷ []
unfolding sql prune_history
leaves = refl

prune-KeepsLive_example : KeepsLive crowded (prune_history 100 opts crowded).1
unfolding sql
prune-KeepsLive_example = prune-KeepsLive 100 opts crowded (record {
  inbox_keys = tt;
  attachment_keys = tt;
  reply_keys = tt;
  approval_keys = (refl, (refl, (refl, (refl, (refl, tt)))));
})

prune-IsPruned_example : IsPruned 100 opts crowded (prune_history 100 opts crowded).1
prune-IsPruned_example = prune-IsPruned 100 opts crowded
