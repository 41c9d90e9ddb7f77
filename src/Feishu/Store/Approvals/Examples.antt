-- ===== src/Feishu/Store/Approvals/Examples.antt =====
-- Runs of the approval methods, and the theorems at them.
use codex_feishu_remoter.Prelude.{sql, ◌≤◌, ◌≡◌, refl, none, some, List, [], ◌∷◌, run, total}
use codex_feishu_remoter.Feishu.Store.{ApprovalState, empty, approval_keyed}
use codex_feishu_remoter.Feishu.Store.Approvals.{
  ApprovalRequest, create_approval, feedback_rank, transition_feedback, resolve_approval,
  expire_approval,
}
use codex_feishu_remoter.Feishu.Store.Prune.{Retention, prune_history}
use codex_feishu_remoter.Feishu.Store.Approvals.Ops.{
  ApprovalOp, create, feedback, resolve, expire, prune, apply,
}
use codex_feishu_remoter.Feishu.Store.Approvals.Decisions.{decisions_in, creations_in, decided_once}
use codex_feishu_remoter.Feishu.Store.Approvals.Feedback.{rank_at, feedback_at, feedback_monotone}

abbrev request : ApprovalRequest
request = record { request_id = "7"; thread_id = "t"; turn_id = some "u"; kind = "command" }

abbrev retention : Retention
retention = record {
  inbox_retention = 9;
  approval_retention = 900;
  attachment_retention = 9;
  max_inbox = none;
  max_replies = none;
  max_approvals = some 1;
}

-- The decision of the user and the expiry race; the card was declined by then.
abbrev race : List ApprovalOp
race =
    create 1 "a" request "ou_1" 60 "{}"
    ∷ feedback 2 "a" "ACKNOWLEDGED_PROCESSING"
    ∷ resolve 3 "a" "decline" ApprovalState.declined
    ∷ expire 61 "a"
    ∷ feedback 4 "a" "DECLINED"
    ∷ feedback 5 "a" "APPROVED"
    ∷ prune 70 retention
    ∷ []

decided : total apply (decisions_in "a") race empty ≡ 1
unfolding sql total apply create_approval transition_feedback feedback_rank resolve_approval
    expire_approval prune_history
decided = refl

decided_once_example :
    total apply (decisions_in "a") race empty ≤ total apply (creations_in "a") race empty
decided_once_example = decided_once "a" race (tt, (tt, (refl, (tt, (tt, (tt, (tt, tt)))))))

feedback_monotone_example :
    (rank_at "a" (run apply race empty) ≤ rank_at "a" (run apply race (run apply race empty)))
    × (3 ≤ rank_at "a" (run apply race empty)
        → feedback_at "a" (run apply race (run apply race empty))
          ≡ feedback_at "a" (run apply race empty))
unfolding sql run total apply create_approval transition_feedback feedback_rank resolve_approval
    expire_approval prune_history
feedback_monotone_example = feedback_monotone "a" race (run apply race empty) (refl, tt) refl

shows_declined : feedback_at "a" (run apply race empty) ≡ some "DECLINED"
unfolding sql run apply create_approval transition_feedback feedback_rank resolve_approval
    expire_approval prune_history
shows_declined = refl
