-- ===== src/Feishu/Store/Prune/Live.antt =====
-- The retention takes no row that is still at work.
use codex_feishu_remoter.Prelude.{
  ℕ, ◌-◌, ◌≡◌, refl, inl, inr, String, Bool, true, false, ◌&&◌, ◌==◌, eq_refl, Option, some, List,
  [], ◌∷◌, arith, Bool-cases, lookup, lookup-key, where_delete, rowcount, Unique,
  Unique-where_delete, ap, ◌∙◌, Keyed,
}
use codex_feishu_remoter.Prelude.Caps.{over_limit, over_limit-passes, where_delete_keeps}
use codex_feishu_remoter.Feishu.Model.{InboxRecord, inbox_keyed, is_active}
use codex_feishu_remoter.Feishu.Store.{
  FeishuStore, Attachment, attachment_keyed, Reply, reply_keyed, Approval, approval_keyed,
}
use codex_feishu_remoter.Feishu.Store.Prune.{
  Retention, is_finished, is_terminal, is_delivered, exists, is_stale, old_reply, newer_reply,
  old_approval, newer_approval, old_message, newer_message, prune_history,
}

-- The tables have primary keys.
pub record HasKeys (s : FeishuStore) : Type 0 where
  pub inbox_keys : Unique s.inbox
  pub attachment_keys : Unique s.attachments
  pub reply_keys : Unique s.replies
  pub approval_keys : Unique s.approvals

-- the rows of `s` that are at work are rows of `s'`
pub record KeepsLive (s s' : FeishuStore) : Type 0 where
  pub messages :
      (id : String) (r : InboxRecord)
      → lookup id s.inbox ≡ some r
      → is_finished r ≡ false
      → lookup id s'.inbox ≡ some r
  pub replies :
      (key : String) (r : Reply)
      → lookup key s.replies ≡ some r
      → is_delivered r ≡ false
      → lookup key s'.replies ≡ some r
  pub approvals :
      (id : String) (a : Approval)
      → lookup id s.approvals ≡ some a
      → is_terminal a ≡ false
      → lookup id s'.approvals ≡ some a
  pub batches :
      (id by : String) (a : Attachment) (r : InboxRecord)
      → lookup id s.attachments ≡ some a
      → a.claimed_by_message_id ≡ some by
      → lookup by s.inbox ≡ some r
      → is_finished r ≡ false
      → lookup id s'.attachments ≡ some a

found-exists :
    (p : InboxRecord → Bool) (id : String) (inbox : List InboxRecord) (r : InboxRecord)
    → lookup id inbox ≡ some r
    → p r ≡ true
    → exists p inbox ≡ true
unfolding lookup rowcount
found-exists p id [] r found h = cc
found-exists p id (q ∷ inbox) r found h = elim (Bool-cases (q.message_id == id)) [
  | inl e ↦ let same : q ≡ r = ground (arith, e) in ground (arith, same)
  | inr e ↦ ground (arith, found-exists p id inbox r (ground (arith, e)) h)
]

held-fresh :
    (cutoff : ℕ) (s : FeishuStore) (by : String) (a : Attachment) (r : InboxRecord)
    → a.claimed_by_message_id ≡ some by
    → lookup by s.inbox ≡ some r
    → is_finished r ≡ false
    → is_stale s.inbox cutoff a ≡ false
held-fresh cutoff s by a r held found live =
    let works =
      found-exists (λ i. i.message_id == by && is_active i.status) by s.inbox r found
        (ground (arith, lookup-key by s.inbox r found, eq_refl by)) in
    simp (held, works) refl

module _ {ℓ} {R : Type ℓ} ⦃t : Keyed R⦄ (p old : R → Bool) where
  -- The deletion of the old rows and then of the surplus keeps a row that is neither old nor passes.
  two_deletions_keep :
      (le : R → R → Bool) (limit : Option ℕ) (rows : List R) (k : String) (r : R)
      → Unique rows
      → lookup k rows ≡ some r
      → p r ≡ false
      → old r ≡ false
      → lookup k
          (where_delete (over_limit p le limit (where_delete old rows)) (where_delete old rows))
        ≡ some r
  two_deletions_keep le limit rows k r u found h young =
      let kept = where_delete_keeps old k rows r u young found in
      let u' = Unique-where_delete old rows u in
      let at_key : lookup (t.key r) (where_delete old rows) ≡ some r =
        ap (λ j. lookup j (where_delete old rows)) (lookup-key k rows r found) ∙ kept in
      where_delete_keeps _ k _ r u' (over_limit-passes p le limit _ r u' at_key h) kept

-- `prune_history` takes no message that is queued or running, no reply that is pending, no approval
-- whose state is none of the terminal ones, and no attachment that a queued or running message
-- holds, whatever the ages and the caps are.
pub prune-KeepsLive :
    (now : ℕ) (opts : Retention) (s : FeishuStore)
    → HasKeys s
    → KeepsLive s (prune_history now opts s).1
unfolding prune_history
prune-KeepsLive now opts s keys = record {
  messages = λ id r found live.
      two_deletions_keep is_finished (old_message (now - opts.inbox_retention)) newer_message
        opts.max_inbox s.inbox id r keys.inbox_keys found live (ground (arith, live));
  replies = λ key r found live.
      where_delete_keeps _ key _ r
        (Unique-where_delete _ _ (Unique-where_delete _ s.replies keys.reply_keys))
        (ground (arith, live))
        (two_deletions_keep is_delivered (old_reply (now - opts.inbox_retention)) newer_reply
          opts.max_replies s.replies key r keys.reply_keys found live (ground (arith, live)));
  approvals = λ id a found live.
      two_deletions_keep is_terminal (old_approval (now - opts.approval_retention)) newer_approval
        opts.max_approvals s.approvals id a keys.approval_keys found live (ground (arith, live));
  batches = λ id by a r found held there live.
      where_delete_keeps _ id s.attachments a keys.attachment_keys
        (held-fresh (now - opts.attachment_retention) s by a r held there live) found;
}
