-- ===== src/Feishu/Replies/Rows.antt =====
-- What sending one part leaves in the table of replies.
use codex_feishu_remoter.Prelude.{
  ℕ, String, ◌<>◌, ◌≡◌, ◌≢◌, refl, sym, ap, subst, ◌∙◌, inl, inr, Bool, true, false, ◌==◌, eq_iff,
  eq_refl, Option, none, some, List, [], ◌∷◌, arith, Bool-cases, Option-cases, lookup, lookup-key,
  lookup-snoc, lookup-where_update, where_update, Outcome, ok, raised,
}
use codex_feishu_remoter.Prelude.Decimal.{decimal, decimal_inj}
use codex_feishu_remoter.Feishu.Store.{
  FeishuStore, Reply, ReplyState, pending, sent, failed, reply_keyed,
}
use codex_feishu_remoter.Feishu.Store.Replies.{
  reply_key, is_failed, reserved_row, reserve_again, reserve_key, reserve_reply, get_reply_record,
  answered, set_reply_response, given_up, mark_reply_failed,
}
use codex_feishu_remoter.Feishu.Replies.{
  Failure, Sent, deliver, record_delivery, unless_settled, after_reservation, send_one,
}

-- A row that answers for the ids: it was sent with that one, or it is under way and there is none.
abbrev SettledState : List (Option String) → Option String → ReplyState → Type 0
SettledState ids response sent = ids ≡ response ∷ []
SettledState ids response pending = ids ≡ []
SettledState ids response failed = ⊥

abbrev pub SettledAt : List (Option String) → Option Reply → Type 0
SettledAt ids none = ⊥
SettledAt ids (some r) = SettledState ids r.response_message_id r.state

abbrev pub FailedAt : Option Reply → Type 0
FailedAt none = ⊥
FailedAt (some r) = r.state ≡ failed

append_cancel : (a b c : String) → a <> b ≡ a <> c → b ≡ c
unfolding ◌<>◌
append_cancel String.[] b c e = e
append_cancel (String.◌∷◌ x a) b c e = append_cancel a b c (ap tail e)
  where
    tail : String → String
    tail String.[] = ""
    tail (String.◌∷◌ x text) = text

-- The chunks of a reply have different keys.
pub reply_key_inj :
    (message_id phase : String) (i j : ℕ)
    → reply_key message_id phase (decimal i) ≡ reply_key message_id phase (decimal j)
    → i ≡ j
reply_key_inj message_id phase i j e = decimal_inj i j (
    append_cancel "|" _ _
      (append_cancel phase _ _ (append_cancel "|" _ _ (append_cancel message_id _ _ e))))

module _ (key : String) (f : Reply → Reply)
    (keeps : (r : Reply) → (f r).reply_key ≡ r.reply_key) where
  update_other :
      (k : String) (rs : List Reply)
      → key ≢ k
      → lookup k (where_update (λ (r : Reply). r.reply_key == key) f rs) ≡ lookup k rs
  update_other k rs other =
      let after = lookup-where_update (λ (r : Reply). r.reply_key == key) f keeps k rs in
      elim (Option-cases (lookup k rs)) [
        | inl absent ↦ rw (after, absent)
        | inr (r, found) ↦
            ground (arith, after, found, other, lookup-key k rs r found, eq_iff r.reply_key key)
      ]

  update_self :
      (rs : List Reply) (r : Reply)
      → lookup key rs ≡ some r
      → lookup key (where_update (λ (r : Reply). r.reply_key == key) f rs) ≡ some (f r)
  update_self rs r found =
      let after = lookup-where_update (λ (r : Reply). r.reply_key == key) f keeps key rs in
      ground (arith, after, found, lookup-key key rs r found, eq_iff r.reply_key key)

reserve-other :
    (now : ℕ) (key message_id k : String) (s : FeishuStore) (o : Option Reply)
    → key ≢ k
    → lookup k (reserve_key now key message_id none s o).1.replies ≡ lookup k s.replies
reserve-other now key message_id k s none other =
    ground
      (arith, other, lookup-snoc k s.replies (reserved_row now key message_id none), eq_iff key k)
reserve-other now key message_id k s (some r) other = elim (Bool-cases (is_failed r.state)) [
  | inl again ↦ rw again (update_other key (reserve_again now) (λ r. refl) k s.replies other)
  | inr settled ↦ rw settled
]

reserve-present :
    (now : ℕ) (key message_id : String) (s : FeishuStore)
    → (r : Reply) × (lookup key
          (reserve_key now key message_id none s (lookup key s.replies)).1.replies
        ≡ some r)
reserve-present now key message_id s = elim (Option-cases (lookup key s.replies)) [
  | inl absent ↦ rw absent (
    reserved_row now key message_id none,
    ground (
      arith,
      absent,
      lookup-snoc key s.replies (reserved_row now key message_id none),
      eq_refl key,
    ),
  )
  | inr (r, found) ↦ elim (Bool-cases (is_failed r.state)) [
    | inl again ↦
        rw (found, again)
          (reserve_again now r, update_self key (reserve_again now) (λ r. refl) s.replies r found)
    | inr settled ↦ rw (found, settled) (r, found)
  ]
]

get_reply_record-some :
    (message_id phase chunk_index : String) (s : FeishuStore) (r : Reply)
    → lookup (reply_key message_id phase chunk_index) s.replies ≡ some r
    → get_reply_record message_id phase chunk_index s ≡ some (r.response_message_id, r.state)
unfolding get_reply_record
get_reply_record-some message_id phase chunk_index s r found = rw found refl

-- What a part's delivery leaves in the row of its key.
abbrev pub Result : {T : Type 0} → String → Sent T → Type 0
Result key (ok ids, (s, t)) = SettledAt ids (lookup key s.replies)
Result key (raised e, (s, t)) = FailedAt (lookup key s.replies)

module _ {T : Type 0} where
  record_delivery-Result :
      (message_id phase : String) (index : ℕ) (s : FeishuStore) (o : Outcome Failure String × T)
      (r : Reply)
      → lookup (reply_key message_id phase (decimal index)) s.replies ≡ some r
      → Result
          (reply_key message_id phase (decimal index))
          (record_delivery message_id phase index s o)
  unfolding set_reply_response mark_reply_failed
  record_delivery-Result message_id phase index s (ok id, t) r found =
      let key : String = reply_key message_id phase (decimal index) in
      let after = update_self key (answered id) (λ r. refl) s.replies r found in rw after refl
  record_delivery-Result message_id phase index s (raised e, t) r found =
      let key : String = reply_key message_id phase (decimal index) in
      let after = update_self key given_up (λ r. refl) s.replies r found in rw after refl

  record_delivery-other :
      (message_id phase : String) (index : ℕ) (s : FeishuStore) (o : Outcome Failure String × T)
      (k : String)
      → reply_key message_id phase (decimal index) ≢ k
      → lookup k (record_delivery message_id phase index s o).1.0.replies ≡ lookup k s.replies
  unfolding set_reply_response mark_reply_failed
  record_delivery-other message_id phase index s (ok id, t) k other =
      update_other (reply_key message_id phase (decimal index)) (answered id) (λ r. refl) k
        s.replies other
  record_delivery-other message_id phase index s (raised e, t) k other =
      update_other (reply_key message_id phase (decimal index)) given_up (λ r. refl) k s.replies
        other

  unless_settled-Result :
      (key : String) (s : FeishuStore) (t : T) (attempt : Sent T) (r : Reply)
      → lookup key s.replies ≡ some r
      → Result key attempt
      → Result key (unless_settled s t attempt (some (r.response_message_id, r.state)))
  unless_settled-Result key s t attempt r found h = by_state r.state refl
    where
      by_state :
          (state : ReplyState)
          → r.state ≡ state
          → Result key (unless_settled s t attempt (some (r.response_message_id, state)))
      by_state sent e = rw found (rw e refl)
      by_state pending e = rw found (rw e refl)
      by_state failed e = h

  after_reservation-Result :
      (operation : T → Outcome Failure String × T) (message_id phase : String) (index : ℕ) (t : T)
      (o : Bool × FeishuStore) (r : Reply)
      → lookup (reply_key message_id phase (decimal index)) o.1.replies ≡ some r
      → Result
          (reply_key message_id phase (decimal index))
          (after_reservation operation message_id phase index t o)
  unfolding get_reply_record
  after_reservation-Result operation message_id phase index t (true, s) r found =
      record_delivery-Result message_id phase index s (deliver operation t) r found
  after_reservation-Result operation message_id phase index t (false, s) r found =
      let key : String = reply_key message_id phase (decimal index) in
      let attempt : Sent T = record_delivery message_id phase index s (deliver operation t) in
      let delivered =
        record_delivery-Result message_id phase index s (deliver operation t) r found in
      rw found (unless_settled-Result key s t attempt r found delivered)

  pub send_one-Result :
      (operation : T → Outcome Failure String × T) (now : ℕ) (message_id phase : String) (index : ℕ)
      (shared : FeishuStore × T)
      → Result
          (reply_key message_id phase (decimal index))
          (send_one operation now message_id phase index shared)
  unfolding send_one reserve_reply
  send_one-Result operation now message_id phase index (s, t) =
      let key : String = reply_key message_id phase (decimal index) in
      let present = reserve-present now key message_id s in
      after_reservation-Result operation message_id phase index t
        (reserve_key now key message_id none s (lookup key s.replies)) present.0 present.1

  unless_settled-other :
      (k : String) (s : FeishuStore) (t : T) (attempt : Sent T)
      (o : Option (Option String × ReplyState))
      → lookup k attempt.1.0.replies ≡ lookup k s.replies
      → lookup k (unless_settled s t attempt o).1.0.replies ≡ lookup k s.replies
  unless_settled-other k s t attempt none h = h
  unless_settled-other k s t attempt (some (id, sent)) h = refl
  unless_settled-other k s t attempt (some (id, pending)) h = refl
  unless_settled-other k s t attempt (some (id, failed)) h = h

  after_reservation-other :
      (operation : T → Outcome Failure String × T) (message_id phase : String) (index : ℕ) (t : T)
      (o : Bool × FeishuStore) (k : String)
      → reply_key message_id phase (decimal index) ≢ k
      → lookup k (after_reservation operation message_id phase index t o).1.0.replies
        ≡ lookup k o.1.replies
  after_reservation-other operation message_id phase index t (true, s) k other =
      record_delivery-other message_id phase index s (deliver operation t) k other
  after_reservation-other operation message_id phase index t (false, s) k other =
      unless_settled-other k s t _ (get_reply_record message_id phase (decimal index) s)
        (record_delivery-other message_id phase index s (deliver operation t) k other)

  -- Sending a part leaves the rows of other keys.
  pub send_one-other :
      (operation : T → Outcome Failure String × T) (now : ℕ) (message_id phase : String) (index : ℕ)
      (shared : FeishuStore × T) (k : String)
      → reply_key message_id phase (decimal index) ≢ k
      → lookup k (send_one operation now message_id phase index shared).1.0.replies
        ≡ lookup k shared.0.replies
  unfolding send_one reserve_reply
  send_one-other operation now message_id phase index (s, t) k other =
      let key : String = reply_key message_id phase (decimal index) in
      after_reservation-other operation message_id phase index t
        (reserve_key now key message_id none s (lookup key s.replies)) k other
      ∙ reserve-other now key message_id k s (lookup key s.replies) other

  -- A part whose row answers for the ids is not sent.
  pub send_one-Settled :
      (operation : T → Outcome Failure String × T) (now : ℕ) (message_id phase : String) (index : ℕ)
      (s : FeishuStore) (t : T) (ids : List (Option String))
      → SettledAt ids (lookup (reply_key message_id phase (decimal index)) s.replies)
      → send_one operation now message_id phase index (s, t) ≡ (ok ids, (s, t))
  unfolding send_one reserve_reply get_reply_record
  send_one-Settled operation now message_id phase index s t ids h =
      let key : String = reply_key message_id phase (decimal index) in
      elim (Option-cases (lookup key s.replies)) [
        | inl absent ↦ absurd (subst (SettledAt ids) absent h)
        | inr (r, found) ↦ by_state r.state r found refl (subst (SettledAt ids) found h)
      ]
    where
      by_state :
          (state : ReplyState) (r : Reply)
          → lookup (reply_key message_id phase (decimal index)) s.replies ≡ some r
          → r.state ≡ state
          → SettledState ids r.response_message_id r.state
          → after_reservation operation message_id phase index t (
              reserve_key now
                (reply_key message_id phase (decimal index))
                message_id
                none
                s
                (lookup (reply_key message_id phase (decimal index)) s.replies))
            ≡ (ok ids, (s, t))
      by_state sent r found e h =
          let known = get_reply_record-some message_id phase (decimal index) s r found in
          rw (found, e, known, e)
            (ap (λ x. (ok x, (s, t))) (sym (subst (SettledState ids r.response_message_id) e h)))
      by_state pending r found e h =
          let known = get_reply_record-some message_id phase (decimal index) s r found in
          rw (found, e, known, e)
            (ap (λ x. (ok x, (s, t))) (sym (subst (SettledState ids r.response_message_id) e h)))
      by_state failed r found e h = absurd (subst (SettledState ids r.response_message_id) e h)
