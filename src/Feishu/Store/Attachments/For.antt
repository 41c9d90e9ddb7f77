-- ===== src/Feishu/Store/Attachments/For.antt =====
-- Which attachments a prompt is for, and that the `where` of the claim finds them.
use codex_feishu_remoter.Prelude.{
  ℕ, ◌≤◌, ◌≡◌, ◌↔◌, refl, sym, ap, subst, leb, eq_iff, where_select, first, rowcount_at_key, Unique,
  inl, inr, String, Bool, true, false, ◌&&◌, ◌==◌, Option, none, some, List, [], ◌∷◌, arith,
  if◌then◌else◌, Bool-cases, Option-cases, lookup, lookup-key,
}
use codex_feishu_remoter.Feishu.Model.{InboxRecord, inbox_keyed}
use codex_feishu_remoter.Feishu.Store.{Attachment, attachment_keyed}
use codex_feishu_remoter.Feishu.Store.Attachments.{
  received_of, prompt_of, is_pending_of, source_by, claimable,
}

-- The attachment came with no message, or with one of its chat that was received by then.
abbrev pub SourceBy : ℕ → List InboxRecord → String → Option String → Type 0
SourceBy at inbox chat_id none = Unit
SourceBy at inbox chat_id (some source) =
    (r : InboxRecord) × ((lookup source inbox ≡ some r)
      × ((r.chat_id ≡ chat_id) × (r.received_at ≤ at)))

-- The attachment is for the prompt: it waits in the chat, and if the prompt is in the inbox as a message
-- of the chat, then what it came with was received by the time of the prompt.
abbrev pub IsFor : String → String → List InboxRecord → Attachment → Type 0
IsFor chat_id message_id inbox a =
    (a.chat_id ≡ chat_id)
    × ((a.claimed_by_message_id ≡ none)
        × ((p : InboxRecord)
            → lookup message_id inbox ≡ some p
            → p.chat_id ≡ chat_id
            → SourceBy p.received_at inbox chat_id a.source_message_id))

-- the message at a key, if it is one of the chat
abbrev in_chat : String → Option InboxRecord → Option InboxRecord
in_chat chat_id none = none
in_chat chat_id (some r) = if r.chat_id == chat_id then some r else none

first_at :
    (chat_id id : String) (inbox : List InboxRecord)
    → Unique inbox
    → first (where_select (λ (r : InboxRecord). r.message_id == id && r.chat_id == chat_id) inbox)
      ≡ in_chat chat_id (lookup id inbox)
unfolding lookup where_select
first_at chat_id id [] u = refl
first_at chat_id id (r ∷ inbox) u =
    ground (arith, eq_iff r.message_id id, first_at chat_id id inbox u.1)

source_by_at :
    (at : ℕ) (inbox : List InboxRecord) (chat_id source : String) (r : InboxRecord)
    → Unique inbox
    → lookup source inbox ≡ some r
    → r.chat_id ≡ chat_id
    → r.received_at ≤ at
    → source_by at inbox chat_id (some source) ≡ true
source_by_at at inbox chat_id source r u found here by =
    let one =
      rowcount_at_key
        (λ (q : InboxRecord).
          q.message_id == source && (q.chat_id == chat_id && leb q.received_at at))
        source inbox u (λ q passed. (eq_iff q.message_id source).0 (ground arith)) in
    ground (
      arith,
      one,
      found,
      eq_iff r.message_id source,
      eq_iff r.chat_id chat_id,
      lookup-key source inbox r found,
    )

source_by_iff :
    (at : ℕ) (inbox : List InboxRecord) (chat_id : String) (source : Option String)
    → Unique inbox
    → (source_by at inbox chat_id source ≡ true) ↔ SourceBy at inbox chat_id source
source_by_iff at inbox chat_id none u = ((λ h. tt), (λ h. refl))
source_by_iff at inbox chat_id (some source) u =
    let here : InboxRecord → Bool =
      λ r. r.message_id == source && (r.chat_id == chat_id && leb r.received_at at) in
    let one =
      rowcount_at_key here source inbox u
        (λ r passed. (eq_iff r.message_id source).0 (ground arith)) in
    elim (Option-cases (lookup source inbox)) [
      | inl absent ↦ ((λ h. absurd (ground (arith, h, one, absent))), (λ h. cc (absent, h.1.0)))
      | inr (r, found) ↦ (
        (λ h. (
          r,
          (
            found,
            (
              ground (arith, h, one, found, eq_iff r.chat_id chat_id),
              ground (arith, h, one, found),
            ),
          ),
        )),
        (λ (q, (there, (near, by))). source_by_at at inbox chat_id source q u there near by),
      )
    ]

pending_iff :
    (chat_id : String) (a : Attachment)
    → (is_pending_of chat_id a ≡ true) ↔ ((a.chat_id ≡ chat_id) × (a.claimed_by_message_id ≡ none))
pending_iff chat_id a = elim (Option-cases a.claimed_by_message_id) [
  | inl absent ↦ (
    (λ h. (ground (arith, h, eq_iff a.chat_id chat_id), absent)),
    (λ h. ground (arith, absent, h.0, eq_iff a.chat_id chat_id)),
  )
  | inr (by, held) ↦ ((λ h. absurd (ground (arith, h, held))), (λ h. absurd (cc (h.1, held))))
]

pub claimable_iff :
    (chat_id message_id : String) (inbox : List InboxRecord) (a : Attachment)
    → Unique inbox
    → (claimable chat_id (prompt_of chat_id message_id inbox) inbox a ≡ true)
      ↔ IsFor chat_id message_id inbox a
claimable_iff chat_id message_id inbox a u =
    let read : prompt_of chat_id message_id inbox
        ≡ received_of (in_chat chat_id (lookup message_id inbox)) =
      ap received_of (first_at chat_id message_id inbox u) in
    let pending = pending_iff chat_id a in
    elim (Option-cases (lookup message_id inbox)) [
      | inl absent ↦
          rw (read, absent)
            (
              (λ h. (
                (pending.0 h).0,
                ((pending.0 h).1, (λ p found here. absurd (cc (absent, found)))),
              )),
              (λ h. pending.1 (h.0, h.1.0)),
            )
      | inr (p, found) ↦ elim (Bool-cases (p.chat_id == chat_id)) [
        | inl e ↦
            rw (read, found, e)
              (
                (λ h.
                    let waits = pending.0 (both _ _ h).0 in
                    (
                      waits.0,
                      (
                        waits.1,
                        (λ p' same near.
                            subst (λ q. SourceBy q.received_at inbox chat_id a.source_message_id)
                              (some_inj p p' same)
                              (subst (λ c. SourceBy p.received_at inbox c a.source_message_id)
                                waits.0
                                ((source_by_iff p.received_at inbox a.chat_id a.source_message_id
                                    u).0
                                  (both _ _ h).1))),
                      ),
                    )),
                (λ h.
                    rw
                      (
                        pending.1 (h.0, h.1.0),
                        (source_by_iff p.received_at inbox a.chat_id a.source_message_id u).1 (
                            subst (λ c. SourceBy p.received_at inbox c a.source_message_id)
                              (sym h.0) (h.1.1 p refl ((eq_iff p.chat_id chat_id).0 e))),
                      )
                      refl),
              )
        | inr e ↦
            rw (read, found, e)
              (
                (λ h. (
                  (pending.0 h).0,
                  (
                    (pending.0 h).1,
                    (λ p' same near.
                        absurd (other p p' same e ((eq_iff p'.chat_id chat_id).1 near))),
                  ),
                )),
                (λ h. pending.1 (h.0, h.1.0)),
              )
      ]
    ]
  where
    both : (x y : Bool) → x && y ≡ true → (x ≡ true) × (y ≡ true)
    both x y h = ground arith

    some_inj : (p p' : InboxRecord) → some p ≡ some p' → p ≡ p'
    some_inj p p' h = cc h

    other :
        (p p' : InboxRecord)
        → some p ≡ some p'
        → (p.chat_id == chat_id) ≡ false
        → (p'.chat_id == chat_id) ≡ true
        → ⊥
    other p p' same e near =
        let q : (p.chat_id == chat_id) ≡ (p'.chat_id == chat_id) =
          ap (λ (r : InboxRecord). r.chat_id == chat_id) (some_inj p p' same) in
        cc (q, e, near)
