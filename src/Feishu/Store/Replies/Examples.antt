-- ===== src/Feishu/Store/Replies/Examples.antt =====
-- A run of the reply methods, and the theorem at it.
use codex_feishu_remoter.Prelude.{
  sql, ◌+◌, ◌≤◌, ◌≡◌, refl, String, none, List, [], ◌∷◌, total, ◌<>◌,
}
use codex_feishu_remoter.Feishu.Store.{empty}
use codex_feishu_remoter.Feishu.Store.Replies.{
  reply_key, reserve_reply, set_reply_response, mark_reply_failed,
}
use codex_feishu_remoter.Feishu.Store.Replies.Reservations.{
  ReplyOp, reserving, answering, failing, apply, reservations_in, failures_in,
  reservations-le-failures,
}

-- The first delivery fails, the second succeeds, and the third attempt is refused.
abbrev retried : List ReplyOp
retried =
    reserving 1 "m" "final" "0" none
    ∷ failing "m" "final" "0"
    ∷ reserving 2 "m" "final" "0" none
    ∷ answering "m" "final" "0" "r"
    ∷ reserving 3 "m" "final" "0" none
    ∷ []

abbrev final_chunk : String
final_chunk = reply_key "m" "final" "0"

reserved_twice : total apply (reservations_in final_chunk) retried empty ≡ 2
unfolding sql total apply reserve_reply set_reply_response mark_reply_failed ◌<>◌
reserved_twice = refl

reservations-le-failures_example :
    total apply (reservations_in final_chunk) retried empty
    ≤ 1 + total apply (failures_in final_chunk) retried empty
reservations-le-failures_example = reservations-le-failures final_chunk retried
