-- ===== src/Feishu/Store/Inbox/Examples.antt =====
-- Runs of the inbox methods on concrete messages, and the theorems at them.
use codex_feishu_remoter.Prelude.{
  sql, String, ◌+◌, ◌≤◌, ◌≡◌, refl, true, false, none, some, List, [], ◌∷◌, run, total,
}
use mathlib.Core.Option
use codex_feishu_remoter.Feishu.Model.{FeishuInboundMessage, InboxRecord, inbox_keyed}
use codex_feishu_remoter.Feishu.Store.{FeishuStore, empty}
use codex_feishu_remoter.Feishu.Store.Inbox.{
  enqueue_message, claim_next, rewrite_queued_text, mark_completed, next_to_claim,
  recover_on_startup,
}
use codex_feishu_remoter.Feishu.Store.Inbox.Ops.{InboxOp, enqueue, claim, rewrite, complete, apply}
use codex_feishu_remoter.Feishu.Store.Inbox.Claims.{claims_in, requeues_in, claims-le-requeues}
use codex_feishu_remoter.Feishu.Store.Inbox.Finished.{is_finished, run-finished}
use codex_feishu_remoter.Feishu.Store.Inbox.Order.{Claimed, claim_next-Claimed}
use codex_feishu_remoter.Feishu.Store.Inbox.Recovery.{IsRecovered, recover_on_startup-IsRecovered}

abbrev message : String → FeishuInboundMessage
message id = record {
  event_id = none;
  message_id = id;
  chat_id = "oc_1";
  chat_type = "p2p";
  sender_open_id = "ou_1";
  sender_type = "user";
  message_type = "text";
  text = some "hello";
  mentioned_bot = false;
  sender_is_bot = false;
  resources = [];
}

-- A redelivered event, a redirect that requeues the message, and a second execution.
abbrev calls : List InboxOp
calls =
    enqueue 1 (message "a")
    ∷ enqueue 2 (message "a")
    ∷ claim 3 (some "a")
    ∷ claim 4 (some "a")
    ∷ rewrite "a" "again"
    ∷ claim 5 none
    ∷ complete 6 "a" none
    ∷ claim 7 none
    ∷ []

claimed_twice :
    (total apply (claims_in "a") calls empty ≡ 2) × (total apply (requeues_in "a") calls empty ≡ 1)
unfolding sql total apply enqueue_message claim_next rewrite_queued_text mark_completed
    next_to_claim
claimed_twice = (refl, refl)

claims-le-requeues_example :
    total apply (claims_in "a") calls empty ≤ 1 + total apply (requeues_in "a") calls empty
claims-le-requeues_example = claims-le-requeues "a" calls

abbrev one_done : FeishuStore
one_done = run apply calls empty

run-finished_example :
    (is_finished "a" (run apply calls one_done) ≡ true)
    × (total apply (claims_in "a") calls one_done ≡ 0)
unfolding sql run apply enqueue_message claim_next rewrite_queued_text mark_completed next_to_claim
run-finished_example = run-finished "a" calls one_done (refl, tt) refl

abbrev two_waiting : FeishuStore
two_waiting = run apply (enqueue 2 (message "b") ∷ enqueue 1 (message "a") ∷ []) empty

claim_next-Claimed_example : Claimed 3 two_waiting (claim_next 3 none two_waiting)
unfolding sql run apply enqueue_message
claim_next-Claimed_example = claim_next-Claimed 3 two_waiting (refl, (refl, tt))

earlier_first :
    Option.map (λ (r : InboxRecord). r.message_id) (claim_next 3 none two_waiting).0 ≡ some "a"
unfolding sql run apply enqueue_message claim_next next_to_claim
earlier_first = refl

abbrev crashed : FeishuStore
crashed = run apply (enqueue 1 (message "a") ∷ enqueue 2 (message "b") ∷ claim 3 none ∷ []) empty

recover_on_startup-IsRecovered_example :
    IsRecovered crashed (recover_on_startup crashed).0 (recover_on_startup crashed).1
recover_on_startup-IsRecovered_example = recover_on_startup-IsRecovered crashed
