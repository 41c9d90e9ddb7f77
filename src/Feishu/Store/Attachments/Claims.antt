-- ===== src/Feishu/Store/Attachments/Claims.antt =====
-- What a claim takes, and that a release gives it back.
use codex_feishu_remoter.Prelude.{
  ℕ, ◌≡◌, refl, ◌∙◌, Unique, inl, inr, String, Bool, true, false, ◌&&◌, ◌==◌, eq_refl, Option, none,
  some, List, [], ◌∷◌, arith, if◌then◌else◌, Bool-cases, Option-cases, is_value, is_null, lookup,
  lookup-where_update, where_update, All, All-where_select, All-order_by, All-of,
}
use codex_feishu_remoter.Feishu.Model.{inbox_keyed}
use codex_feishu_remoter.Feishu.Store.{FeishuStore, Attachment, attachment_keyed}
use codex_feishu_remoter.Feishu.Store.Attachments.{
  added_order, prompt_of, claimable, claimed_for, held_in, claim_pending_attachments, unclaimed,
  release_claimed_attachments,
}
use codex_feishu_remoter.Feishu.Store.Attachments.For.{IsFor, claimable_iff}

-- what `claim_pending_attachments` did for the prompt
pub record IsBatch (now : ℕ) (chat_id message_id : String) (s : FeishuStore)
    (batch : List Attachment) (s' : FeishuStore) : Type 0 where
  pub only_held : All (λ a. held_in chat_id message_id a ≡ true) batch
  pub taken :
      (id : String) (a : Attachment)
      → lookup id s.attachments ≡ some a
      → IsFor chat_id message_id s.inbox a
      → lookup id s'.attachments
        ≡ some (record a { claimed_by_message_id = some message_id; claimed_at = some now })
  pub left :
      (id : String) (a : Attachment)
      → lookup id s.attachments ≡ some a
      → (IsFor chat_id message_id s.inbox a → ⊥)
      → lookup id s'.attachments ≡ some a

held-pending :
    (here : Bool) (other : String) (by : Option String)
    → is_value by other ≡ true
    → (here && is_null by) ≡ false
held-pending here other none h = cc
held-pending here other (some by) h = ground arith

pub claimable-held :
    (chat_id other : String) (prompt : Option ℕ) (s : FeishuStore) (a : Attachment)
    → is_value a.claimed_by_message_id other ≡ true
    → claimable chat_id prompt s.inbox a ≡ false
claimable-held chat_id other none s a h =
    held-pending (a.chat_id == chat_id) other a.claimed_by_message_id h
claimable-held chat_id other (some t) s a h =
    ground (arith, held-pending (a.chat_id == chat_id) other a.claimed_by_message_id h)

module _ (now : ℕ) (chat_id message_id : String) (s : FeishuStore) where
  -- What a claim returns is held by the prompt.
  pub claim_held :
      All
        (λ a. held_in chat_id message_id a ≡ true)
        (claim_pending_attachments now chat_id message_id s).0
  unfolding claim_pending_attachments
  claim_held =
      All-order_by (λ a. held_in chat_id message_id a ≡ true) added_order _
        (All-where_select _ (held_in chat_id message_id) _ (All-of _ (λ a h. h) _))

  claim_at :
      (id : String) (a : Attachment)
      → lookup id s.attachments ≡ some a
      → lookup id (claim_pending_attachments now chat_id message_id s).1.attachments
        ≡ some (
            if claimable chat_id (prompt_of chat_id message_id s.inbox) s.inbox a
            then claimed_for now message_id a
            else a)
  unfolding claim_pending_attachments
  claim_at id a found =
      rw
        (lookup-where_update (claimable chat_id (prompt_of chat_id message_id s.inbox) s.inbox)
          (claimed_for now message_id) (λ q. refl) id s.attachments)
        (rw found refl)

  -- What a message holds stays with it.
  pub claim_keeps :
      (id other : String) (a : Attachment)
      → lookup id s.attachments ≡ some a
      → is_value a.claimed_by_message_id other ≡ true
      → lookup id (claim_pending_attachments now chat_id message_id s).1.attachments ≡ some a
  claim_keeps id other a found held =
      claim_at id a found
      ∙ rw (claimable-held chat_id other (prompt_of chat_id message_id s.inbox) s a held) refl

  -- A prompt's claim takes the attachments that wait in its chat and came with no message, or with one
  -- of the chat that was received by the time of the prompt: all of them and no others. If the inbox has
  -- no such prompt in the chat, it takes all that wait there. What it returns is held by the prompt.
  pub claim_pending-IsBatch :
      Unique s.inbox
      → IsBatch now chat_id message_id s
          (claim_pending_attachments now chat_id message_id s).0
          (claim_pending_attachments now chat_id message_id s).1
  claim_pending-IsBatch u = record {
    only_held = claim_held;
    taken = λ id a found fits.
        claim_at id a found ∙ rw ((claimable_iff chat_id message_id s.inbox a u).1 fits) refl;
    left = λ id a found other.
        claim_at id a found
        ∙ elim (Bool-cases (claimable chat_id (prompt_of chat_id message_id s.inbox) s.inbox a)) [
          | inl e ↦ absurd (other ((claimable_iff chat_id message_id s.inbox a u).0 e))
          | inr e ↦ rw e refl
        ];
  }

-- The columns of a claim are null together.
abbrev pub ClaimsMatch : Attachment → Type 0
ClaimsMatch a = a.claimed_by_message_id ≡ none → a.claimed_at ≡ none

restored :
    (now : ℕ) (chat_id message_id : String) (prompt : Option ℕ) (s : FeishuStore) (a : Attachment)
    → ClaimsMatch a
    → is_value a.claimed_by_message_id message_id ≡ false
    → claimable chat_id prompt s.inbox a ≡ true
    → unclaimed (claimed_for now message_id a) ≡ a
restored now chat_id message_id prompt s a both free h =
    elim (Option-cases a.claimed_by_message_id) [
      | inl absent ↦ let at = both absent in cc (absent, at)
      | inr (by, held) ↦
          let blocked : claimable chat_id prompt s.inbox a ≡ false =
            claimable-held chat_id by prompt s a (ground (arith, held, eq_refl by)) in
          cc (h, blocked)
    ]

give_back :
    (now : ℕ) (message_id : String) (p : Attachment → Bool) (rows : List Attachment)
    → All (λ a. is_value a.claimed_by_message_id message_id ≡ false) rows
    → All (λ a. p a ≡ true → unclaimed (claimed_for now message_id a) ≡ a) rows
    → where_update
        (λ (a : Attachment). is_value a.claimed_by_message_id message_id)
        unclaimed
        (where_update p (claimed_for now message_id) rows)
      ≡ rows
unfolding where_update
give_back now message_id p [] free back = refl
give_back now message_id p (a ∷ rows) free back = elim (Bool-cases (p a)) [
  | inl e ↦ rw (e, eq_refl message_id, back.0 e, give_back now message_id p rows free.1 back.1)
  | inr e ↦ rw (e, free.0, give_back now message_id p rows free.1 back.1)
]

-- Releasing the batch of a failed prompt that held nothing before its claim puts every attachment
-- back as it was.
pub release-claim :
    (now : ℕ) (chat_id message_id : String) (s : FeishuStore)
    → All ClaimsMatch s.attachments
    → All (λ a. is_value a.claimed_by_message_id message_id ≡ false) s.attachments
    → (release_claimed_attachments message_id
        (claim_pending_attachments now chat_id message_id s).1).1
      ≡ s
unfolding claim_pending_attachments release_claimed_attachments
release-claim now chat_id message_id s match free =
    let prompt = prompt_of chat_id message_id s.inbox in
    rw
      (give_back now message_id (claimable chat_id prompt s.inbox) s.attachments free
        (zip s.attachments match free))
      refl
  where
    zip :
        (rows : List Attachment)
        → All ClaimsMatch rows
        → All (λ a. is_value a.claimed_by_message_id message_id ≡ false) rows
        → All
            (λ a.
              claimable chat_id (prompt_of chat_id message_id s.inbox) s.inbox a ≡ true
              → unclaimed (claimed_for now message_id a) ≡ a)
            rows
    zip [] m f = tt
    zip (a ∷ rows) m f = (
      restored now chat_id message_id (prompt_of chat_id message_id s.inbox) s a m.0 f.0,
      zip rows m.1 f.1,
    )
