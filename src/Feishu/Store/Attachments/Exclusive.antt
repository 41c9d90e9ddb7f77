-- ===== src/Feishu/Store/Attachments/Exclusive.antt =====
-- What becomes of an attachment that a prompt holds.
use codex_feishu_remoter.Prelude.{
  ℕ, ◌≡◌, ◌≢◌, refl, String, true, false, eq_iff, Option, none, some, List, [], ◌∷◌, ◌++◌, arith,
  is_value, lookup, lookup-snoc, lookup-where_update, where_delete, All, All-map, run,
  run_keeps_free, total, sym, ap, ◌∙◌, where_update, rowcount, if◌then◌else◌, ◌&&◌, ◌||◌, Outcome,
  ok, raised, Bool, ◌==◌,
}
use codex_feishu_remoter.Feishu.Model.{InboxRecord, is_active, is_running}
use codex_feishu_remoter.Feishu.Store.Inbox.{
  interrupt, is_interrupted, interrupted_ids, held_by, recover_on_startup,
}
use codex_feishu_remoter.Feishu.Store.Prune.{Retention, exists, stale_claim, prune_history}
use codex_feishu_remoter.Feishu.Store.{FeishuStore, Attachment, attachment_keyed}
use codex_feishu_remoter.Feishu.Store.Attachments.{
  Resolved, Upload, validate_all, insert_all, inserted, store_all, add_pending_attachments,
  claim_pending_attachments, unclaimed, release_claimed_attachments, cleared,
  clear_pending_attachments, held_in,
}
use codex_feishu_remoter.Feishu.Store.Attachments.Claims.{claim_held, claim_keeps}

-- `working` is any other change of the inbox.
pub data AttachmentOp : Type 0 where
  adding : (String → Option Resolved) → String → List Upload → Option String → AttachmentOp
  claiming : ℕ → String → String → AttachmentOp
  releasing : String → AttachmentOp
  clearing : String → List String → AttachmentOp
  restarting : AttachmentOp
  pruning : ℕ → Retention → AttachmentOp
  working : List InboxRecord → AttachmentOp

unfoldable pub apply : AttachmentOp → FeishuStore → FeishuStore
apply (adding resolve chat_id uploads source) s =
    (add_pending_attachments resolve chat_id uploads source s).1
apply (claiming now chat_id message_id) s = (claim_pending_attachments now chat_id message_id s).1
apply (releasing message_id) s = (release_claimed_attachments message_id s).1
apply (clearing chat_id ids) s = clear_pending_attachments chat_id ids s
apply restarting s = (recover_on_startup s).1
apply (pruning now opts) s = (prune_history now opts s).1
apply (working inbox) s = record s { inbox = inbox }

abbrev halted : String → InboxRecord → Bool
halted message_id r = r.message_id == message_id && (is_running r.status || is_interrupted r.status)

abbrev works : String → InboxRecord → Bool
works message_id r = r.message_id == message_id && is_active r.status

-- 1 if the call may give the attachments back that the prompt holds in the chat: it releases the batch or
-- clears the chat, or it is a restart while the prompt is running or was interrupted, or a retention
-- while the prompt is neither queued nor running.
abbrev pub frees_in : String → String → AttachmentOp → FeishuStore → ℕ
frees_in message_id chat_id (releasing other) s = if other == message_id then 1 else 0
frees_in message_id chat_id (clearing which ids) s = if which == chat_id then 1 else 0
frees_in message_id chat_id restarting s = rowcount (halted message_id) s.inbox
frees_in message_id chat_id (pruning now opts) s =
    if exists (works message_id) s.inbox then 0 else 1
frees_in message_id chat_id _ s = 0

insert_all_keeps :
    (id : String) (a : Attachment) (rs table table' : List Attachment)
    → lookup id table ≡ some a
    → insert_all rs table ≡ some table'
    → lookup id table' ≡ some a
insert_all_keeps id a [] table table' found e = cc
insert_all_keeps id a (r ∷ rs) table table' found e =
    let grown : lookup id (table ++ r ∷ []) ≡ some a =
      ground (arith, found, lookup-snoc id table r) in
    ground (arith, e, insert_all_keeps id a rs (table ++ r ∷ []) table' grown)

inserted_keeps :
    (id : String) (a : Attachment) (rs : List Attachment) (s : FeishuStore)
    (o : Option (List Attachment))
    → ((table : List Attachment) → o ≡ some table → lookup id table ≡ some a)
    → lookup id s.attachments ≡ some a
    → lookup id (inserted rs s o).1.attachments ≡ some a
inserted_keeps id a rs s none keeps found = found
inserted_keeps id a rs s (some table) keeps found = keeps table refl

store_all_keeps :
    (id : String) (a : Attachment) (s : FeishuStore) (o : Outcome _ (List Attachment))
    → lookup id s.attachments ≡ some a
    → lookup id (store_all s o).1.attachments ≡ some a
store_all_keeps id a s (raised e) found = found
store_all_keeps id a s (ok rs) found =
    inserted_keeps id a rs s (insert_all rs s.attachments)
      (λ table e. insert_all_keeps id a rs s.attachments table found e) found

other_holder :
    (by : Option String) (message_id other : String)
    → is_value by message_id ≡ true
    → other ≢ message_id
    → is_value by other ≡ false
other_holder none message_id other h n = cc
other_holder (some by) message_id other h n = ground (arith, eq_iff by message_id, eq_iff by other)

-- A deletion keeps the row that is found, if it fails the test.
delete_keeps :
    (p : Attachment → Bool) (id : String) (a : Attachment) (rows : List Attachment)
    → p a ≡ false
    → lookup id rows ≡ some a
    → lookup id (where_delete p rows) ≡ some a
unfolding lookup where_delete
delete_keeps p id a [] h found = cc
delete_keeps p id a (r ∷ rows) h found = ground (arith, h, delete_keeps p id a rows h)

cleared_other :
    (chat_id : String) (ids : List String) (a : Attachment)
    → a.chat_id ≢ chat_id
    → cleared chat_id ids a ≡ false
cleared_other chat_id [] a n = ground (arith, eq_iff a.chat_id chat_id)
cleared_other chat_id (id ∷ ids) a n =
    let other : (a.chat_id == chat_id) ≡ false = ground (arith, eq_iff a.chat_id chat_id) in
    rw other refl

not_halted :
    (message_id : String) (inbox : List InboxRecord)
    → rowcount (halted message_id) inbox ≡ 0
    → interrupted_ids
        (where_update (λ (r : InboxRecord). is_running r.status) interrupt inbox)
        message_id
      ≡ false
unfolding rowcount where_update
not_halted message_id [] h = refl
not_halted message_id (r ∷ inbox) h = ground (arith, h, not_halted message_id inbox)

held_by_other :
    (inbox : List InboxRecord) (by : Option String) (message_id : String)
    → is_value by message_id ≡ true
    → interrupted_ids inbox message_id ≡ false
    → held_by inbox by ≡ false
held_by_other inbox none message_id h free = refl
held_by_other inbox (some by) message_id h free =
    ap (interrupted_ids inbox) ((eq_iff by message_id).0 h) ∙ free

fresh_claim :
    (inbox : List InboxRecord) (cutoff : ℕ) (a : Attachment) (by : Option String)
    (message_id : String)
    → is_value by message_id ≡ true
    → exists (works message_id) inbox ≡ true
    → stale_claim inbox cutoff a by ≡ false
fresh_claim inbox cutoff a none message_id h live = cc
fresh_claim inbox cutoff a (some by) message_id h live = rw ((eq_iff by message_id).0 h, live) refl

distinct : (x y : String) → ◌≡◌ {A = ℕ} (if x == y then 1 else 0) 0 → x ≢ y
distinct x y h = λ same. absurd (ground (arith, h, (eq_iff x y).1 same))

step_keeps :
    (id message_id : String) (a : Attachment) (op : AttachmentOp) (s : FeishuStore)
    → is_value a.claimed_by_message_id message_id ≡ true
    → frees_in message_id a.chat_id op s ≡ 0
    → lookup id s.attachments ≡ some a
    → lookup id (apply op s).attachments ≡ some a
unfolding apply recover_on_startup prune_history add_pending_attachments release_claimed_attachments
    clear_pending_attachments
step_keeps id message_id a (adding resolve chat_id uploads source) s held leaves found =
    store_all_keeps id a s (validate_all resolve chat_id source uploads) found
step_keeps id message_id a (claiming now chat_id other) s held leaves found =
    claim_keeps now chat_id other s id message_id a found held
step_keeps id message_id a (releasing other) s held leaves found = ground (
  arith,
  found,
  other_holder a.claimed_by_message_id message_id other held (distinct other message_id leaves),
  lookup-where_update (λ (q : Attachment). is_value q.claimed_by_message_id other) unclaimed
      (λ q. refl) id s.attachments,
)
step_keeps id message_id a (clearing chat_id ids) s held leaves found =
    delete_keeps (cleared chat_id ids) id a s.attachments
      (cleared_other chat_id ids a (λ same. distinct chat_id a.chat_id leaves (sym same))) found
step_keeps id message_id a restarting s held leaves found =
    rw
      (lookup-where_update
        (λ (q : Attachment).
          held_by (where_update (λ (r : InboxRecord). is_running r.status) interrupt s.inbox)
            q.claimed_by_message_id)
        unclaimed (λ q. refl) id s.attachments)
      (rw
        (
          found,
          held_by_other _ a.claimed_by_message_id message_id held
              (not_halted message_id s.inbox leaves),
        )
        refl)
step_keeps id message_id a (pruning now opts) s held leaves found =
    delete_keeps _ id a s.attachments
      (fresh_claim s.inbox _ a a.claimed_by_message_id message_id held (ground (arith, leaves)))
      found
step_keeps id message_id a (working inbox) s held leaves found = found

not_held :
    (chat_id message_id other : String) (a : Attachment)
    → is_value a.claimed_by_message_id message_id ≡ true
    → other ≢ message_id
    → (q : Attachment) → held_in chat_id other q ≡ true
    → q ≢ a
not_held chat_id message_id other a held n q h same =
    let free = other_holder a.claimed_by_message_id message_id other held n in
    let mine : held_in chat_id other a ≡ true = rw same at h in ground (arith, free, mine)

-- An attachment that a prompt holds stays as it is under any calls, `prune_history`, restarts and changes
-- of the inbox included, and no claim of another message after them returns it; this if no call among
-- them releases the batch of the prompt or clears its chat, no restart comes while the prompt is running
-- or was interrupted, and no `prune_history` while it is neither queued nor running.
pub claim_exclusive :
    (id message_id : String) (a : Attachment) (ops : List AttachmentOp) (s : FeishuStore) (now : ℕ)
    (chat_id other : String)
    → lookup id s.attachments ≡ some a
    → is_value a.claimed_by_message_id message_id ≡ true
    → total apply (frees_in message_id a.chat_id) ops s ≡ 0
    → other ≢ message_id
    → (lookup id (run apply ops s).attachments ≡ some a)
      × All (λ q. q ≢ a) (claim_pending_attachments now chat_id other (run apply ops s)).0
claim_exclusive id message_id a ops s now chat_id other found held leaves n = (
  run_keeps_free apply (frees_in message_id a.chat_id) (λ d. lookup id d.attachments ≡ some a)
      (λ op d fits k. step_keeps id message_id a op d held fits k) ops s leaves found,
  All-map _ _ (not_held chat_id message_id other a held n) _
      (claim_held now chat_id other (run apply ops s)),
)
