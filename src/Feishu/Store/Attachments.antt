-- ===== src/Feishu/Store/Attachments.antt =====
-- The attachment methods of `FeishuStore`: files that a chat has sent wait for a prompt, which
-- claims them as one batch. `pathlib` and the file system are one argument, `resolve`.
mod For
pub mod Claims
pub mod Exclusive
mod Examples
use codex_feishu_remoter.Prelude.{
  ℕ, String, Bool, true, false, ◌&&◌, ◌||◌, ◌==◌, Option, none, some, List, [], ◌∷◌, ◌++◌, map,
  if◌then◌else◌, ltb, leb, eqb, is_value, is_null, or_else, lookup, has, where_update, where_delete,
  where_select, order_by, first, rowcount, text_leb, Outcome, ok, raised,
}
use codex_feishu_remoter.Feishu.Model.{
  InboxRecord, inbox_keyed, ErrorCode, feishu_attachment_kind_invalid,
  feishu_attachment_file_required, file_not_found, integrity_error,
}
use codex_feishu_remoter.Feishu.Store.{FeishuStore, Attachment, attachment_keyed}

-- what `Path(path).expanduser().resolve(strict=True)` is, where it does not raise
pub record Resolved : Type 0 where
  pub path : String
  pub name : String
  pub is_file : Bool

-- one attachment to add, with the values of `uuid.uuid4().hex` and of `time.time()` for it
pub record Upload : Type 0 where
  pub path : String
  pub kind : String
  pub name : Option String
  pub attachment_id : String
  pub created_at : ℕ

-- A text that is absent or empty is false.
abbrev pub truthy : Option String → Option String
truthy none = none
truthy (some s) = if s == "" then none else some s

abbrev pub pending_row : String → Option String → Upload → Resolved → Attachment
pending_row chat_id source_message_id upload resolved = record {
  attachment_id = upload.attachment_id;
  chat_id = chat_id;
  kind = upload.kind;
  path = resolved.path;
  name = or_else (truthy upload.name) resolved.name;
  source_message_id = truthy source_message_id;
  claimed_by_message_id = none;
  claimed_at = none;
  created_at = upload.created_at;
}

abbrev pub validated :
    String → Option String → Upload → Option Resolved → Outcome ErrorCode Attachment
validated chat_id source_message_id upload none = raised file_not_found
validated chat_id source_message_id upload (some resolved) =
    if resolved.is_file
    then ok (pending_row chat_id source_message_id upload resolved)
    else raised feishu_attachment_file_required

abbrev cons_ok :
    Outcome ErrorCode Attachment
    → Outcome ErrorCode (List Attachment)
    → Outcome ErrorCode (List Attachment)
cons_ok (raised e) rest = raised e
cons_ok (ok r) (raised e) = raised e
cons_ok (ok r) (ok rs) = ok (r ∷ rs)

-- the loop over `attachments`, which stops at the first error
abbrev pub validate_all :
    (String → Option Resolved)
    → String
    → Option String
    → List Upload
    → Outcome ErrorCode (List Attachment)
validate_all resolve chat_id source_message_id [] = ok []
validate_all resolve chat_id source_message_id (upload ∷ uploads) =
    let rest = validate_all resolve chat_id source_message_id uploads in
    cons_ok
      (if upload.kind == "image" || upload.kind == "file"
        then validated chat_id source_message_id upload (resolve upload.path)
        else raised feishu_attachment_kind_invalid)
      rest

-- `executemany`: a key that is taken raises, and the transaction is rolled back.
abbrev pub insert_all : List Attachment → List Attachment → Option (List Attachment)
insert_all [] table = some table
insert_all (r ∷ rs) table =
    let rest = insert_all rs (table ++ r ∷ []) in if has r.attachment_id table then none else rest

abbrev inserted :
    List Attachment
    → FeishuStore
    → Option (List Attachment)
    → Outcome ErrorCode (List Attachment) × FeishuStore
inserted records s none = (raised integrity_error, s)
inserted records s (some table) = (ok records, record s { attachments = table })

abbrev store_all :
    FeishuStore
    → Outcome ErrorCode (List Attachment)
    → Outcome ErrorCode (List Attachment) × FeishuStore
store_all s (raised e) = (raised e, s)
store_all s (ok records) = inserted records s (insert_all records s.attachments)

unfoldable pub add_pending_attachments :
    (String → Option Resolved)
    → String
    → List Upload
    → Option String
    → FeishuStore
    → Outcome ErrorCode (List Attachment) × FeishuStore
add_pending_attachments resolve chat_id uploads source_message_id s =
    store_all s (validate_all resolve chat_id source_message_id uploads)

-- `order by created_at,attachment_id`
abbrev pub added_order : Attachment → Attachment → Bool
added_order a b =
    ltb a.created_at b.created_at
    || (eqb a.created_at b.created_at && text_leb a.attachment_id b.attachment_id)

abbrev pub is_pending_of : String → Attachment → Bool
is_pending_of chat_id a = a.chat_id == chat_id && is_null a.claimed_by_message_id

unfoldable pub list_pending_attachments : String → FeishuStore → List Attachment
list_pending_attachments chat_id s =
    order_by added_order (where_select (is_pending_of chat_id) s.attachments)

abbrev pub received_of : Option InboxRecord → Option ℕ
received_of none = none
received_of (some r) = some r.received_at

-- `select received_at from feishu_inbox where message_id=? and chat_id=?`
abbrev pub prompt_of : String → String → List InboxRecord → Option ℕ
prompt_of chat_id message_id inbox = received_of (
    first (
      where_select (λ (r : InboxRecord). r.message_id == message_id && r.chat_id == chat_id) inbox))

-- The source is absent, or a message of the chat that was received by then.
abbrev pub source_by : ℕ → List InboxRecord → String → Option String → Bool
source_by received_at inbox chat_id none = true
source_by received_at inbox chat_id (some source) = ltb 0 (
    rowcount
      (λ (r : InboxRecord).
        r.message_id == source && (r.chat_id == chat_id && leb r.received_at received_at))
      inbox)

-- the `where` of the update
abbrev pub claimable : String → Option ℕ → List InboxRecord → Attachment → Bool
claimable chat_id none inbox a = is_pending_of chat_id a
claimable chat_id (some received_at) inbox a =
    is_pending_of chat_id a && source_by received_at inbox a.chat_id a.source_message_id

abbrev pub claimed_for : ℕ → String → Attachment → Attachment
claimed_for now message_id a = record a {
  claimed_by_message_id = some message_id;
  claimed_at = some now;
}

abbrev pub held_in : String → String → Attachment → Bool
held_in chat_id message_id a = a.chat_id == chat_id && is_value a.claimed_by_message_id message_id

unfoldable pub claim_pending_attachments :
    ℕ → String → String → FeishuStore → List Attachment × FeishuStore
claim_pending_attachments now chat_id message_id s =
    let attachments : List Attachment =
      where_update (claimable chat_id (prompt_of chat_id message_id s.inbox) s.inbox)
        (claimed_for now message_id) s.attachments in
    (
      order_by added_order (where_select (held_in chat_id message_id) attachments),
      record s { attachments = attachments },
    )

unfoldable pub list_claimed_attachments : String → FeishuStore → List Attachment
list_claimed_attachments message_id s =
    order_by added_order
      (where_select (λ (a : Attachment). is_value a.claimed_by_message_id message_id) s.attachments)

abbrev pub unclaimed : Attachment → Attachment
unclaimed a = record a { claimed_by_message_id = none; claimed_at = none }

unfoldable pub release_claimed_attachments : String → FeishuStore → ℕ × FeishuStore
release_claimed_attachments message_id s =
    let claimed : Attachment → Bool = λ a. is_value a.claimed_by_message_id message_id in
    (
      rowcount claimed s.attachments,
      record s { attachments = where_update claimed unclaimed s.attachments },
    )

unfoldable pub list_attachment_paths : FeishuStore → List String
list_attachment_paths s = map (λ (a : Attachment). a.path) s.attachments

-- `attachment_id in (…)`, where no ids are all of them
abbrev pub cleared : String → List String → Attachment → Bool
cleared chat_id [] a = a.chat_id == chat_id
cleared chat_id (id ∷ ids) a = a.chat_id == chat_id && one_of a.attachment_id (id ∷ ids)
  where
    one_of : String → List String → Bool
    one_of k [] = false
    one_of k (j ∷ js) = k == j || one_of k js

unfoldable pub clear_pending_attachments : String → List String → FeishuStore → FeishuStore
clear_pending_attachments chat_id attachment_ids s = record s {
  attachments = where_delete (cleared chat_id attachment_ids) s.attachments;
}
