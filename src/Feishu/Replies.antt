-- ===== src/Feishu/Replies.antt =====
-- src/cfr/feishu/replies.py: a reply is cut into chunks, and each chunk is reserved in the store
-- before it is sent. The transport is an argument, with a state of its own, and `sha256(…).hexdigest()`
-- another. A payload that is not text is the text that stands for it.
pub mod Chunks
pub mod Rows
pub mod Parts
pub mod Again
mod Examples
use codex_feishu_remoter.Prelude.{
  ℕ, zero, suc, String, ◌+◌, ◌<>◌, Bool, true, false, not, ◌&&◌, ◌||◌, ◌==◌, Option, none, some,
  List, [], ◌∷◌, ◌++◌, if◌then◌else◌, ltb, leb, eqb, or_else, strip, is_empty_text, take_text,
  Outcome, ok, raised,
}
use Prim.Native.Char.{Char, len_utf8}
use codex_feishu_remoter.Prelude.Decimal.{decimal}
use codex_feishu_remoter.Feishu.Store.{FeishuStore, Reply, ReplyState, pending, sent}
use codex_feishu_remoter.Feishu.Store.Replies.{
  reply_key, reserve_reply, get_reply_record, set_reply_response, mark_reply_failed,
}

-- an exception on the way to Feishu: the `code` of a `StructuredError`, or none
pub record Failure : Type 0 where
  pub code : Option String

pub data SendError : Type 0 where
  limit_not_positive limit_too_small : SendError
  delivery_failed : Failure → SendError

-- `text + character`
abbrev pub with_char : String → Char → String
with_char String.[] c = String.◌∷◌ c String.[]
with_char (String.◌∷◌ d text) c = String.◌∷◌ d (with_char text c)

abbrev pub cons_part : String → Outcome SendError (List String) → Outcome SendError (List String)
cons_part part (ok parts) = ok (part ∷ parts)
cons_part part (raised e) = raised e

-- The loop of `chunk_text` with `current` and `current_bytes`: the parts that are still to come.
unfoldable pub chunk_loop : ℕ → String → String → ℕ → Outcome SendError (List String)
chunk_loop limit String.[] current current_bytes =
    ok (if is_empty_text current then [] else current ∷ [])
chunk_loop limit (String.◌∷◌ c text) current current_bytes =
    let flushed = chunk_loop limit text (String.◌∷◌ c String.[]) (len_utf8 c) in
    let grown = chunk_loop limit text (with_char current c) (current_bytes + len_utf8 c) in
    if ltb limit (len_utf8 c)
    then raised limit_too_small
    else if not (is_empty_text current) && ltb limit (current_bytes + len_utf8 c)
    then cons_part current flushed
    else grown

-- A limit below 0 is 0.
unfoldable pub chunk_text : String → ℕ → Outcome SendError (List String)
unfolding chunk_loop
chunk_text text limit =
    if is_empty_text text
    then ok ("" ∷ [])
    else if eqb limit 0
    then raised limit_not_positive
    else chunk_loop limit text "" 0

abbrev pub default_limit : ℕ
default_limit = 12000

-- `RETRYABLE_OUTBOUND_ERRORS`
abbrev pub is_retryable : Failure → Bool
is_retryable e = code_is (or_else e.code "")
  where
    code_is : String → Bool
    code_is code = code == "FEISHU_API_TIMEOUT" || code == "FEISHU_API_UNKNOWN"

module _ (sha256 : String → String) where
  unfoldable pub deterministic_reply_uuid : String → String → ℕ → String
  deterministic_reply_uuid message_id phase chunk_index =
      "cfr-" <> take_text 32 (sha256 (reply_key message_id phase (decimal chunk_index)))

-- The transport's methods, each of which takes the uuid of the request last.
pub record Transport (T : Type 0) : Type 0 where
  pub send_text : String → String → String → T → Outcome Failure String × T
  pub reply_text : String → String → String → String → T → Outcome Failure String × T
  pub reply_image : String → String → String → String → T → Outcome Failure String × T
  pub reply_file : String → String → String → String → T → Outcome Failure String × T
  pub reply_video : String → String → String → String → T → Outcome Failure String × T
  pub send_card : String → String → String → T → Outcome Failure String × T

-- the ids that are returned, where a reply that was sent has its id, and the store and the transport
abbrev pub Sent : Type 0 → Type 0
Sent T = Outcome SendError (List (Option String)) × (FeishuStore × T)

abbrev pub join :
    List (Option String)
    → Outcome SendError (List (Option String))
    → Outcome SendError (List (Option String))
join ids (ok rest) = ok (ids ++ rest)
join ids (raised e) = raised e

module _ {T : Type 0} where
  -- `_deliver`: the second attempt is the last.
  abbrev pub deliver_again :
      (T → Outcome Failure String × T) → Outcome Failure String × T → Outcome Failure String × T
  deliver_again operation (ok id, t) = (ok id, t)
  deliver_again operation (raised e, t) = if is_retryable e then operation t else (raised e, t)

  unfoldable pub deliver : (T → Outcome Failure String × T) → T → Outcome Failure String × T
  deliver operation t = deliver_again operation (operation t)

  abbrev pub record_delivery :
      String → String → ℕ → FeishuStore → Outcome Failure String × T → Sent T
  record_delivery message_id phase index s (ok id, t) =
      (ok (some id ∷ []), (set_reply_response message_id phase (decimal index) id s, t))
  record_delivery message_id phase index s (raised e, t) =
      (raised (delivery_failed e), (mark_reply_failed message_id phase (decimal index) s, t))

  -- A chunk that is not reserved was sent, or is under way; `attempt` is what follows otherwise.
  abbrev pub unless_settled :
      FeishuStore → T → Sent T → Option (Option String × ReplyState) → Sent T
  unless_settled s t attempt none = attempt
  unless_settled s t attempt (some (id, sent)) = (ok (id ∷ []), (s, t))
  unless_settled s t attempt (some (id, pending)) = (ok [], (s, t))
  unless_settled s t attempt (some (id, ReplyState.failed)) = attempt

  abbrev pub after_reservation :
      (T → Outcome Failure String × T) → String → String → ℕ → T → Bool × FeishuStore → Sent T
  after_reservation operation message_id phase index t (true, s) =
      record_delivery message_id phase index s (deliver operation t)
  after_reservation operation message_id phase index t (false, s) =
      unless_settled s t (record_delivery message_id phase index s (deliver operation t))
        (get_reply_record message_id phase (decimal index) s)

  -- the body of the loop of `_send`, which the replies that are not text repeat
  unfoldable pub send_one :
      (T → Outcome Failure String × T) → ℕ → String → String → ℕ → FeishuStore × T → Sent T
  send_one operation now message_id phase index (s, t) =
      after_reservation operation message_id phase index t
        (reserve_reply now message_id phase (decimal index) none s)

  abbrev pub prepend : List (Option String) → Sent T → Sent T
  prepend ids (o, shared) = (join ids o, shared)

  -- An exception ends the loop.
  abbrev pub and_then : (FeishuStore × T → Sent T) → Sent T → Sent T
  and_then rest (ok ids, shared) = prepend ids (rest shared)
  and_then rest (raised e, shared) = (raised e, shared)

  -- the loop of `_send` from `index` on; `operation` sends a part
  unfoldable pub send_parts :
      (ℕ → String → T → Outcome Failure String × T)
      → ℕ
      → String
      → String
      → ℕ
      → List String
      → FeishuStore × T
      → Sent T
  send_parts operation now message_id phase index [] shared = (ok [], shared)
  send_parts operation now message_id phase index (part ∷ parts) shared =
      and_then (send_parts operation now message_id phase (index + 1) parts)
        (send_one (operation index part) now message_id phase index shared)

  abbrev pub send_chunks :
      (ℕ → String → T → Outcome Failure String × T)
      → ℕ
      → String
      → String
      → FeishuStore × T
      → Outcome SendError (List String)
      → Sent T
  send_chunks operation now message_id phase shared (raised e) = (raised e, shared)
  send_chunks operation now message_id phase shared (ok parts) =
      send_parts operation now message_id phase 0 parts shared

  module _ (sha256 : String → String) (transport : Transport T) where
    -- how `_send` delivers a part: to a user if one is named, else as a reply
    abbrev pub operation_for :
        Option String
        → Option String
        → String
        → String
        → ℕ
        → String
        → T
        → Outcome Failure String × T
    operation_for none chat_id message_id phase index part =
        transport.reply_text message_id (or_else chat_id message_id) part
          (deterministic_reply_uuid sha256 message_id phase index)
    operation_for (some open_id) chat_id message_id phase index part =
        transport.send_text open_id part (deterministic_reply_uuid sha256 message_id phase index)

    -- `_send` with `chunks=True`, as its callers have it. An empty name is none.
    unfoldable pub send :
        ℕ → String → String → String → Option String → Option String → FeishuStore × T → Sent T
    send now message_id phase text sender_open_id chat_id shared =
        send_chunks (operation_for sender_open_id chat_id message_id phase) now message_id phase
          shared (chunk_text text default_limit)

    unfoldable pub reply_text :
        ℕ → String → String → String → Option String → FeishuStore × T → Sent T
    reply_text now message_id text phase chat_id shared =
        if is_empty_text (strip text)
        then (ok [], shared)
        else send now message_id phase text none chat_id shared

    unfoldable pub send_private_text :
        ℕ → String → String → String → String → FeishuStore × T → Sent T
    send_private_text now message_id open_id text phase shared =
        send now message_id phase text (some open_id) none shared

    unfoldable pub reply_image :
        ℕ → String → String → String → Option String → FeishuStore × T → Sent T
    reply_image now message_id image phase chat_id shared =
        send_one
          (transport.reply_image message_id (or_else chat_id message_id) image
            (deterministic_reply_uuid sha256 message_id phase 0))
          now message_id phase 0 shared

    unfoldable pub reply_file :
        ℕ → String → String → String → Option String → FeishuStore × T → Sent T
    reply_file now message_id path phase chat_id shared =
        send_one
          (transport.reply_file message_id (or_else chat_id message_id) path
            (deterministic_reply_uuid sha256 message_id phase 0))
          now message_id phase 0 shared

    unfoldable pub reply_video :
        ℕ → String → String → String → Option String → FeishuStore × T → Sent T
    reply_video now message_id path phase chat_id shared =
        send_one
          (transport.reply_video message_id (or_else chat_id message_id) path
            (deterministic_reply_uuid sha256 message_id phase 0))
          now message_id phase 0 shared

    -- the one id, or none while the card is under way
    abbrev pub card_id : Sent T → Outcome SendError (Option String) × (FeishuStore × T)
    card_id (ok [], shared) = (ok none, shared)
    card_id (ok (id ∷ ids), shared) = (ok id, shared)
    card_id (raised e, shared) = (raised e, shared)

    unfoldable pub send_card :
        ℕ
        → String
        → String
        → String
        → String
        → FeishuStore × T
        → Outcome SendError (Option String) × (FeishuStore × T)
    send_card now message_id open_id card phase shared = card_id (
        send_one
          (transport.send_card open_id card (deterministic_reply_uuid sha256 message_id phase 0))
          now message_id phase 0 shared)
