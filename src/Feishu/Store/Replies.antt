-- ===== src/Feishu/Store/Replies.antt =====
-- The reply methods of `FeishuStore`: a reply chunk is reserved before it is sent, so that it is
-- not sent twice.
pub mod Reservations
mod Examples
use codex_feishu_remoter.Prelude.{
  ℕ, String, Bool, true, false, ◌==◌, Option, none, some, List, [], ◌∷◌, ◌++◌, ◌<>◌, if◌then◌else◌,
  lookup, where_update,
}
use codex_feishu_remoter.Feishu.Store.{
  FeishuStore, Reply, ReplyState, pending, sent, failed, reply_keyed,
}

-- `f'{message_id}|{phase}|{chunk_index}'`; the chunk's index is given as its text.
abbrev pub reply_key : String → String → String → String
reply_key message_id phase chunk_index = message_id <> ("|" <> (phase <> ("|" <> chunk_index)))

abbrev pub is_failed : ReplyState → Bool
is_failed failed = true
is_failed _ = false

abbrev pub reserved_row : ℕ → String → String → Option String → Reply
reserved_row now key message_id response_message_id = record {
  reply_key = key;
  message_id = message_id;
  response_message_id = response_message_id;
  state = pending;
  created_at = now;
}

abbrev pub reserve_again : ℕ → Reply → Reply
reserve_again now r = record r { response_message_id = none; state = pending; created_at = now }

-- The row count of `on conflict … do update … where state='failed'`: it is 0 if the row is there and
-- has not failed.
abbrev pub reserve_key :
    ℕ → String → String → Option String → FeishuStore → Option Reply → Bool × FeishuStore
reserve_key now key message_id response_message_id s none = (
  true,
  record s { replies = s.replies ++ reserved_row now key message_id response_message_id ∷ [] },
)
reserve_key now key message_id response_message_id s (some r) =
    if is_failed r.state
    then (
      true,
      record s {
        replies = where_update (λ (q : Reply). q.reply_key == key) (reserve_again now) s.replies;
      },
    )
    else (false, s)

unfoldable pub reserve_reply :
    ℕ → String → String → String → Option String → FeishuStore → Bool × FeishuStore
reserve_reply now message_id phase chunk_index response_message_id s =
    let key : String = reply_key message_id phase chunk_index in
    reserve_key now key message_id response_message_id s (lookup key s.replies)

abbrev response_of : Option Reply → Option String
response_of none = none
response_of (some r) = r.response_message_id

unfoldable pub get_reply : String → String → String → FeishuStore → Option String
get_reply message_id phase chunk_index s =
    response_of (lookup (reply_key message_id phase chunk_index) s.replies)

abbrev record_of : Option Reply → Option (Option String × ReplyState)
record_of none = none
record_of (some r) = some (r.response_message_id, r.state)

unfoldable pub get_reply_record :
    String → String → String → FeishuStore → Option (Option String × ReplyState)
get_reply_record message_id phase chunk_index s =
    record_of (lookup (reply_key message_id phase chunk_index) s.replies)

abbrev pub answered : String → Reply → Reply
answered response_message_id r = record r {
  response_message_id = some response_message_id;
  state = sent;
}

unfoldable pub set_reply_response : String → String → String → String → FeishuStore → FeishuStore
set_reply_response message_id phase chunk_index response_message_id s =
    let key : String = reply_key message_id phase chunk_index in
    record s {
      replies =
          where_update (λ (r : Reply). r.reply_key == key) (answered response_message_id) s.replies;
    }

abbrev pub given_up : Reply → Reply
given_up r = record r { state = failed }

unfoldable pub mark_reply_failed : String → String → String → FeishuStore → FeishuStore
mark_reply_failed message_id phase chunk_index s =
    let key : String = reply_key message_id phase chunk_index in
    record s { replies = where_update (λ (r : Reply). r.reply_key == key) given_up s.replies }
