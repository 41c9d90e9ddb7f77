-- ===== src/Feishu/Store/Attachments/Examples.antt =====
-- One chat with two prompts and two files, and the theorems at them.
use codex_feishu_remoter.Prelude.{
  sql, ℕ, String, ◌≡◌, ◌≢◌, refl, true, false, Option, none, some, [], ◌∷◌, lookup, All, run, total,
  ok,
}
use codex_feishu_remoter.Feishu.Model.{FeishuInboundMessage}
use codex_feishu_remoter.Feishu.Store.{FeishuStore, Attachment, attachment_keyed, empty}
use codex_feishu_remoter.Feishu.Store.Inbox.{enqueue_message}
use codex_feishu_remoter.Feishu.Store.Prune.{Retention, prune_history}
use codex_feishu_remoter.Feishu.Store.Attachments.{
  Resolved, Upload, add_pending_attachments, claim_pending_attachments, release_claimed_attachments,
  claimed_for,
}
use codex_feishu_remoter.Feishu.Store.Attachments.Claims.{
  IsBatch, claim_pending-IsBatch, release-claim,
}
use codex_feishu_remoter.Feishu.Store.Attachments.Exclusive.{
  claiming, releasing, pruning, apply, claim_exclusive,
}

abbrev message : String → FeishuInboundMessage
message id = record {
  event_id = none;
  message_id = id;
  chat_id = "c";
  chat_type = "p2p";
  sender_open_id = "ou_1";
  sender_type = "user";
  message_type = "text";
  text = some "go";
  mentioned_bot = false;
  sender_is_bot = false;
  resources = [];
}

abbrev resolve : String → Option Resolved
resolve path = some (record { path = path; name = "file"; is_file = true })

abbrev upload : String → ℕ → Upload
upload id at = record {
  path = "/tmp/a";
  kind = "file";
  name = none;
  attachment_id = id;
  created_at = at;
}

abbrev waiting : String → Option String → ℕ → Attachment
waiting id source at = record {
  attachment_id = id;
  chat_id = "c";
  kind = "file";
  path = "/tmp/a";
  name = "file";
  source_message_id = source;
  claimed_by_message_id = none;
  claimed_at = none;
  created_at = at;
}

-- The second file came with a message that was received after the prompt.
abbrev start : FeishuStore
start = record empty {
  inbox =
      (enqueue_message 5 (message "late") (enqueue_message 3 (message "prompt") empty).1).1.inbox;
  attachments = waiting "x" none 1 ∷ waiting "y" (some "late") 5 ∷ [];
}

added :
    add_pending_attachments resolve "c" (upload "x" 1 ∷ []) none empty
    ≡ (ok (waiting "x" none 1 ∷ []), record empty { attachments = waiting "x" none 1 ∷ [] })
unfolding sql add_pending_attachments
added = refl

abbrev claimed : FeishuStore
claimed = (claim_pending_attachments 4 "c" "prompt" start).1

takes_first :
    (claim_pending_attachments 4 "c" "prompt" start).0
    ≡ claimed_for 4 "prompt" (waiting "x" none 1) ∷ []
unfolding sql enqueue_message claim_pending_attachments
takes_first = refl

claim_pending-IsBatch_example :
    IsBatch 4 "c" "prompt" start (claim_pending_attachments 4 "c" "prompt" start).0 claimed
unfolding sql enqueue_message
claim_pending-IsBatch_example = claim_pending-IsBatch 4 "c" "prompt" start (refl, (refl, tt))

release-claim_example : (release_claimed_attachments "prompt" claimed).1 ≡ start
release-claim_example =
    release-claim 4 "c" "prompt" start ((λ _. refl), ((λ _. refl), tt)) (refl, (refl, tt))

abbrev retention : Retention
retention = record {
  inbox_retention = 0;
  approval_retention = 0;
  attachment_retention = 0;
  max_inbox = some 0;
  max_replies = some 0;
  max_approvals = some 0;
}

abbrev late : String
late = "late"

late_is_other : late ≢ "prompt"
late_is_other h = cc

claim_exclusive_example :
    (lookup "x"
        (run apply
          (claiming 6 "c" "late" ∷ releasing "late" ∷ pruning 900 retention ∷ [])
          claimed).attachments
      ≡ some (claimed_for 4 "prompt" (waiting "x" none 1)))
    × All
        (λ q. q ≢ claimed_for 4 "prompt" (waiting "x" none 1))
        (claim_pending_attachments 7 "c" "late" (
          run apply
            (claiming 6 "c" "late" ∷ releasing "late" ∷ pruning 900 retention ∷ [])
            claimed)).0
unfolding sql total apply prune_history release_claimed_attachments enqueue_message
    claim_pending_attachments
claim_exclusive_example =
    claim_exclusive "x" "prompt" (claimed_for 4 "prompt" (waiting "x" none 1))
      (claiming 6 "c" "late" ∷ releasing "late" ∷ pruning 900 retention ∷ []) claimed 7 "c" "late"
      refl refl refl late_is_other
