-- ===== src/Feishu/Replies/Examples.antt =====
-- Texts that are cut and sent, and the theorems at them.
use codex_feishu_remoter.Prelude.{
  sql, ◌+◌, ℕ, String, ◌<>◌, ◌≡◌, refl, none, some, List, [], ◌∷◌, arith, ok, raised,
}
use codex_feishu_remoter.Prelude.Decimal.{decimal}
use codex_feishu_remoter.Feishu.Store.{FeishuStore, empty}
use codex_feishu_remoter.Feishu.Store.Replies.{reserve_reply, set_reply_response, mark_reply_failed}
use codex_feishu_remoter.Feishu.Replies.{
  Failure, delivery_failed, Transport, chunk_loop, chunk_text, deliver, send_one, send_parts, send,
  reply_text, deterministic_reply_uuid,
}
use codex_feishu_remoter.Feishu.Replies.Chunks.{AreChunks, chunk_text-AreChunks}
use codex_feishu_remoter.Feishu.Replies.Again.{CanRetry, reply_text_again, reply_text-CanRetry}

-- `é` takes two bytes.
cut : chunk_text "aéébc" 4 ≡ ok ("aé" ∷ "ébc" ∷ [])
unfolding chunk_text chunk_loop
cut = refl

chunk_text-AreChunks_example :
    (parts : List String) × ((chunk_text "aéébc" 4 ≡ ok parts) × AreChunks 4 "aéébc" parts)
chunk_text-AreChunks_example = chunk_text-AreChunks "aéébc" 4 refl (omega arith)

abbrev same_hash : String → String
same_hash text = text

-- a transport that counts what it sends
abbrev counting : Transport ℕ
counting = record {
  send_text = λ open_id text uuid t. (ok "sent", t + 1);
  reply_text = λ message_id chat_id text uuid t. (ok "sent", t + 1);
  reply_image = λ message_id chat_id image uuid t. (ok "sent", t + 1);
  reply_file = λ message_id chat_id path uuid t. (ok "sent", t + 1);
  reply_video = λ message_id chat_id path uuid t. (ok "sent", t + 1);
  send_card = λ open_id card uuid t. (ok "sent", t + 1);
}

abbrev timeout : Failure
timeout = record { code = some "FEISHU_API_TIMEOUT" }

-- a transport that times out, and counts how often
abbrev failing : Transport ℕ
failing = record counting { reply_text = λ message_id chat_id text uuid t. (raised timeout, t + 1) }

abbrev one_reply : FeishuStore
unfolding sql reserve_reply set_reply_response ◌<>◌
one_reply = set_reply_response "m" "final" "0" "sent" (reserve_reply 5 "m" "final" "0" none empty).1

first_reply :
    reply_text same_hash counting 5 "m" "Hi" "final" none (empty, 0)
    ≡ (ok (some "sent" ∷ []), (one_reply, 1))
unfolding sql reply_text send chunk_text chunk_loop send_parts send_one deliver reserve_reply
    set_reply_response decimal ◌<>◌ deterministic_reply_uuid one_reply
first_reply = refl

reply_text_again_example :
    reply_text same_hash failing 9 "m" "Hi" "final" (some "chat") (one_reply, 7)
    ≡ (ok (some "sent" ∷ []), (one_reply, 7))
reply_text_again_example =
    reply_text_again same_hash counting failing 5 9 "m" "Hi" "final" none (some "chat") (empty, 0)
      (some "sent" ∷ []) one_reply 1 7 first_reply

-- A timeout is tried twice.
abbrev failed_reply : FeishuStore
unfolding sql reserve_reply mark_reply_failed ◌<>◌
failed_reply = mark_reply_failed "m" "final" "0" (reserve_reply 5 "m" "final" "0" none empty).1

first_failure :
    reply_text same_hash failing 5 "m" "Hi" "final" none (empty, 0)
    ≡ (raised (delivery_failed timeout), (failed_reply, 2))
unfolding sql reply_text send chunk_text chunk_loop send_parts send_one deliver reserve_reply
    mark_reply_failed decimal ◌<>◌ deterministic_reply_uuid failed_reply
first_failure = refl

reply_text-CanRetry_example : CanRetry "m" "final" "Hi" failed_reply
reply_text-CanRetry_example =
    reply_text-CanRetry same_hash failing 5 "m" "Hi" "final" none (empty, 0)
      (delivery_failed timeout) failed_reply 2 first_failure
