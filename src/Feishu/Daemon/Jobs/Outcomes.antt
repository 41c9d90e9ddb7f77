-- ===== src/Feishu/Daemon/Jobs/Outcomes.antt =====
-- A message that a worker has claimed gets an outcome, whatever its handler does.
use codex_feishu_remoter.Prelude.{
  ℕ, String, ◌≡◌, ◌≢◌, refl, sym, ap, subst, ◌∙◌, inl, inr, Bool, true, false, ◌&&◌, ◌==◌, eq_iff,
  Option, none, some, List, [], ◌∷◌, arith, is_value, Bool-cases, Option-cases, Unique, insert_by,
  lookup, has, lookup-where_update, lookup-key, where_update, order_by, All, All-map,
  All-of_where_select, ok, raised,
}
use codex_feishu_remoter.Feishu.Model.{
  FeishuInboundMessage, InboxRecord, InboxStatus, completed, failed, is_queued, inbox_keyed,
}
use codex_feishu_remoter.Feishu.Store.{FeishuStore, Attachment}
use codex_feishu_remoter.Feishu.Store.Inbox.{
  started, next_to_claim, claim_next, completed_row, mark_completed, error_row, mark_error,
  mark_failed,
}
use codex_feishu_remoter.Feishu.Store.Inbox.Ops.{
  claim_next_lem, claim_next-none, next_to_claim_queued,
}
use codex_feishu_remoter.Feishu.Store.Attachments.{
  added_order, list_claimed_attachments, unclaimed, release_claimed_attachments,
  clear_pending_attachments,
}
use codex_feishu_remoter.Feishu.Daemon.Jobs.{
  fault_code, fault_text, Handled, Handlers, told, message_of, last_id, dispatch, record_outcome,
  settle, settle_claimed, process_one,
}

abbrev status_in : Option InboxRecord → Option InboxStatus
status_in none = none
status_in (some r) = some r.status

abbrev error_in : Option InboxRecord → Option String
error_in none = none
error_in (some r) = r.error_code

-- No attachment is claimed by the message.
abbrev NoneClaimed : String → FeishuStore → Type 0
NoneClaimed message_id s =
    All (λ a. is_value a.claimed_by_message_id message_id ≡ false) s.attachments

-- What is left of a message whose handler returned, or raised.
abbrev pub HasOutcome : {W : Type 0} → Handled W → String → FeishuStore → Type 0
HasOutcome (ok ids, shared) message_id s = status_in (lookup message_id s.inbox) ≡ some completed
HasOutcome (raised e, shared) message_id s =
    (status_in (lookup message_id s.inbox) ≡ some failed)
    × ((error_in (lookup message_id s.inbox) ≡ some (fault_code e)) × NoneClaimed message_id s)

update_status :
    (message_id : String) (f : InboxRecord → InboxRecord) (inbox : List InboxRecord)
    → ((r : InboxRecord) → (f r).message_id ≡ r.message_id)
    → has message_id inbox ≡ true
    → (r : InboxRecord) × (lookup message_id
          (where_update (λ (q : InboxRecord). q.message_id == message_id) f inbox)
        ≡ some (f r))
update_status message_id f inbox keeps present =
    let after =
      lookup-where_update (λ (q : InboxRecord). q.message_id == message_id) f keeps message_id
        inbox in
    elim (Option-cases (lookup message_id inbox)) [
      | inl absent ↦ absurd (ground (arith, absent, present))
      | inr (r, found) ↦ (
        r,
        ground (
          arith,
          after,
          found,
          lookup-key message_id inbox r found,
          eq_iff r.message_id message_id,
        ),
      )
    ]

release-NoneClaimed :
    (message_id : String) (rows : List Attachment)
    → All
        (λ (a : Attachment). is_value a.claimed_by_message_id message_id ≡ false)
        (where_update
          (λ (a : Attachment). is_value a.claimed_by_message_id message_id)
          unclaimed
          rows)
unfolding where_update
release-NoneClaimed message_id [] = tt
release-NoneClaimed message_id (a ∷ rows) =
    elim (Bool-cases (is_value a.claimed_by_message_id message_id)) [
      | inl e ↦ rw e (refl, release-NoneClaimed message_id rows)
      | inr e ↦ rw e (e, release-NoneClaimed message_id rows)
    ]

inserted_some : (a : Attachment) (rs : List Attachment) → insert_by added_order a rs ≢ []
unfolding insert_by
inserted_some a [] e = cc
inserted_some a (r ∷ rs) e = elim (Bool-cases (added_order a r)) [
  | inl first ↦ let filled = rw first at e in cc filled
  | inr later ↦ let filled = rw later at e in cc filled
]

ordered_nothing : (rs : List Attachment) → order_by added_order rs ≡ [] → rs ≡ []
unfolding order_by insert_by
ordered_nothing [] e = refl
ordered_nothing (r ∷ rs) e = absurd (inserted_some r (order_by added_order rs) e)

none_listed :
    (message_id : String) (s : FeishuStore)
    → list_claimed_attachments message_id s ≡ []
    → NoneClaimed message_id s
unfolding list_claimed_attachments
none_listed message_id s e =
    All-map _ _ (λ a claimed. ground (arith, claimed)) s.attachments
      (All-of_where_select (λ a. ⊥)
        (λ (a : Attachment). is_value a.claimed_by_message_id message_id) s.attachments
        (subst (All (λ a. ⊥)) (sym (ordered_nothing _ e)) tt))

abbrev HasClaimed : Option InboxRecord × FeishuStore → Type 0
HasClaimed (none, s) = Unit
HasClaimed (some r, s) = has r.message_id s.inbox ≡ true

-- The row that is claimed is in the inbox.
claim_next-HasClaimed :
    (now : ℕ) (message_id : Option String) (s : FeishuStore)
    → Unique s.inbox
    → HasClaimed (claim_next now message_id s)
claim_next-HasClaimed now message_id s u = elim (Option-cases (next_to_claim message_id s.inbox)) [
  | inl nothing ↦ subst HasClaimed (sym (claim_next-none now message_id s nothing)) tt
  | inr (r, found) ↦
      let here : InboxRecord → Bool = λ q. q.message_id == r.message_id && is_queued q.status in
      let present = next_to_claim_queued message_id s.inbox r u found in
      let after = lookup-where_update here (started now) (λ q. refl) r.message_id s.inbox in
      subst HasClaimed (sym (claim_next_lem now message_id s r u found))
        (ground (arith, after, present.0))
]

module _ {W : Type 0} (h : Handlers W) where
  settle-inbox :
      (message : FeishuInboundMessage) (claimed : List Attachment) (o : Bool × (FeishuStore × W))
      → (settle h message claimed o).0.inbox ≡ o.1.0.inbox
  unfolding clear_pending_attachments release_claimed_attachments
  settle-inbox message [] o = refl
  settle-inbox message (a ∷ claimed) (true, shared) = refl
  settle-inbox message (a ∷ claimed) (false, shared) = refl

  settle-NoneClaimed :
      (message : FeishuInboundMessage) (s : FeishuStore) (w : W) (claimed : List Attachment)
      → list_claimed_attachments message.message_id s ≡ claimed
      → NoneClaimed message.message_id (settle h message claimed (false, (s, w))).0
  unfolding release_claimed_attachments
  settle-NoneClaimed message s w [] e = none_listed message.message_id s e
  settle-NoneClaimed message s w (a ∷ claimed) e =
      release-NoneClaimed message.message_id s.attachments

  settled-HasOutcome :
      (now : ℕ) (message : FeishuInboundMessage) (o : Handled W)
      → ((m : FeishuInboundMessage) (text : String) (shared : FeishuStore × W)
          → (h.error_reply m text shared).0.inbox ≡ shared.0.inbox)
      → has message.message_id o.1.0.inbox ≡ true
      → HasOutcome o message.message_id
          (settle_claimed h message (record_outcome h now message o)).0
  unfolding mark_completed mark_failed mark_error error_row
  settled-HasOutcome now message (ok ids, (s, w)) keeps present =
      let id : String = message.message_id in
      let s' : FeishuStore = mark_completed now id (last_id ids) s in
      let same = settle-inbox message (list_claimed_attachments id s') (true, (s', w)) in
      let row = update_status id (completed_row now (last_id ids)) s.inbox (λ r. refl) present in
      ap (λ x. status_in (lookup id x)) same ∙ ap status_in row.1
  settled-HasOutcome now message (raised e, (s, w)) keeps present =
      let id : String = message.message_id in
      let s' : FeishuStore = mark_failed now id (fault_code e) (fault_text e) s in
      let told_to = h.error_reply message (told e) (s', w) in
      let same =
        settle-inbox message (list_claimed_attachments id told_to.0) (false, told_to)
        ∙ keeps message (told e) (s', w) in
      let row =
        update_status id (error_row failed now (fault_code e) (fault_text e)) s.inbox (λ r. refl)
          present in
      (
        ap (λ x. status_in (lookup id x)) same ∙ ap status_in row.1,
        (
          ap (λ x. error_in (lookup id x)) same ∙ ap error_in row.1,
          settle-NoneClaimed message told_to.0 told_to.1 (list_claimed_attachments id told_to.0)
              refl,
        ),
      )

  -- A message that is claimed is completed if its handler returns, and has failed with the code of
  -- the exception if it raises; then no attachment is claimed by it. The handlers leave its row in
  -- the inbox, and the reply to an error leaves the inbox as it is.
  pub process_one-HasOutcome :
      (default : String) (now : ℕ) (message_id : Option String) (s claimed : FeishuStore) (w : W)
      (row : InboxRecord)
      → Unique s.inbox
      → ((m : FeishuInboundMessage) (text : String) (shared : FeishuStore × W)
          → (h.error_reply m text shared).0.inbox ≡ shared.0.inbox)
      → ((m : FeishuInboundMessage) (r : InboxRecord) (shared : FeishuStore × W)
          → has m.message_id shared.0.inbox ≡ true
          → has m.message_id (dispatch h default m r shared).1.0.inbox ≡ true)
      → claim_next now message_id s ≡ (some row, claimed)
      → HasOutcome
          (dispatch h default (message_of row) row (claimed, w))
          row.message_id
          (process_one h default now message_id (s, w)).1.0
  unfolding process_one
  process_one-HasOutcome default now message_id s claimed w row u replies keeps e =
      let present = subst HasClaimed e (claim_next-HasClaimed now message_id s u) in
      rw e (
        settled-HasOutcome now (message_of row)
          (dispatch h default (message_of row) row (claimed, w)) replies
          (keeps (message_of row) row (claimed, w) present))
