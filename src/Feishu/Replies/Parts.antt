-- ===== src/Feishu/Replies/Parts.antt =====
-- What a run over the parts of a reply leaves: rows that answer for its ids, or one that failed.
use codex_feishu_remoter.Prelude.{
  ℕ, ◌+◌, ◌≤◌, ◌<◌, String, ◌≡◌, ◌≢◌, refl, sym, subst, ◌∙◌, Option, List, [], ◌∷◌, ◌++◌, arith,
  lookup, Outcome, ok, raised,
}
use codex_feishu_remoter.Prelude.Decimal.{decimal}
use codex_feishu_remoter.Core.Telemetry.{count}
use codex_feishu_remoter.Feishu.Store.{FeishuStore, Reply, reply_keyed}
use codex_feishu_remoter.Feishu.Store.Replies.{reply_key}
use codex_feishu_remoter.Feishu.Replies.{Failure, Sent, prepend, and_then, send_one, send_parts}
use codex_feishu_remoter.Feishu.Replies.Rows.{
  SettledAt, FailedAt, Result, reply_key_inj, send_one-Result, send_one-other, send_one-Settled,
}

-- The rows from `index` on answer for the ids, one part after another.
pub data Settled (message_id phase : String) (rows : List Reply)
    : ℕ → List String → List (Option String) → Type 0 where
  done : {index : ℕ} → Settled message_id phase rows index [] []
  next :
      {index : ℕ} {part : String} {parts : List String} (ids : List (Option String))
      {rest : List (Option String)}
      → SettledAt ids (lookup (reply_key message_id phase (decimal index)) rows)
      → Settled message_id phase rows (index + 1) parts rest
      → Settled message_id phase rows index (part ∷ parts) (ids ++ rest)

-- Some chunk below `size` has a row that failed.
abbrev pub HasFailed : String → String → ℕ → FeishuStore → Type 0
HasFailed message_id phase size s =
    (index : ℕ) × ((index < size)
      × FailedAt (lookup (reply_key message_id phase (decimal index)) s.replies))

module _ {T : Type 0} where
  -- the store after a run that returned ids, or raised
  abbrev pub PartsResult : String → String → ℕ → List String → Sent T → Type 0
  PartsResult message_id phase index parts (ok ids, (s, t)) =
      Settled message_id phase s.replies index parts ids
  PartsResult message_id phase index parts (raised e, (s, t)) =
      HasFailed message_id phase (index + count parts) s

  and_then-other :
      (key : String) (rows : List Reply) (rest : FeishuStore × T → Sent T) (one : Sent T)
      → ((shared : FeishuStore × T)
          → lookup key (rest shared).1.0.replies ≡ lookup key shared.0.replies)
      → lookup key one.1.0.replies ≡ lookup key rows
      → lookup key (and_then rest one).1.0.replies ≡ lookup key rows
  and_then-other key rows rest (ok ids, shared) keeps h = keeps shared ∙ h
  and_then-other key rows rest (raised e, shared) keeps h = h

  prepend-result :
      (message_id phase : String) (index : ℕ) (part : String) (parts : List String)
      (ids : List (Option String)) (rest : Sent T)
      → SettledAt ids (lookup (reply_key message_id phase (decimal index)) rest.1.0.replies)
      → PartsResult message_id phase (index + 1) parts rest
      → PartsResult message_id phase index (part ∷ parts) (prepend ids rest)
  prepend-result message_id phase index part parts ids (ok more, (s, t)) h r = next ids h r
  prepend-result message_id phase index part parts ids (raised e, (s, t)) h
        (i, (below, failed_at)) =
      (i, (omega arith, failed_at))

  and_then-result :
      (message_id phase : String) (index : ℕ) (part : String) (parts : List String)
      (rest : FeishuStore × T → Sent T) (one : Sent T)
      → Result (reply_key message_id phase (decimal index)) one
      → ((shared : FeishuStore × T) → PartsResult message_id phase (index + 1) parts (rest shared))
      → ((shared : FeishuStore × T)
          → lookup (reply_key message_id phase (decimal index)) (rest shared).1.0.replies
            ≡ lookup (reply_key message_id phase (decimal index)) shared.0.replies)
      → PartsResult message_id phase index (part ∷ parts) (and_then rest one)
  and_then-result message_id phase index part parts rest (raised e, (s, t)) h more keeps =
      (index, (omega arith, h))
  and_then-result message_id phase index part parts rest (ok ids, shared) h more keeps =
      prepend-result message_id phase index part parts ids (rest shared)
        (subst (SettledAt ids) (sym (keeps shared)) h) (more shared)

  module _ (operation : ℕ → String → T → Outcome Failure String × T) (now : ℕ)
      (message_id phase : String) where
    send_parts-other :
        (index : ℕ) (parts : List String) (shared : FeishuStore × T) (k : String)
        → ((j : ℕ) → index ≤ j → reply_key message_id phase (decimal j) ≢ k)
        → lookup k (send_parts operation now message_id phase index parts shared).1.0.replies
          ≡ lookup k shared.0.replies
    unfolding send_parts
    send_parts-other index [] shared k other = refl
    send_parts-other index (part ∷ parts) shared k other =
        and_then-other k shared.0.replies
          (send_parts operation now message_id phase (index + 1) parts)
          (send_one (operation index part) now message_id phase index shared)
          (λ shared'. send_parts-other (index + 1) parts shared' k (λ j le. other j (omega arith)))
          (send_one-other (operation index part) now message_id phase index shared k
            (other index (omega arith)))

    pub send_parts-PartsResult :
        (index : ℕ) (parts : List String) (shared : FeishuStore × T)
        → PartsResult message_id phase index parts
            (send_parts operation now message_id phase index parts shared)
    unfolding send_parts
    send_parts-PartsResult index [] shared = done
    send_parts-PartsResult index (part ∷ parts) shared =
        and_then-result message_id phase index part parts
          (send_parts operation now message_id phase (index + 1) parts)
          (send_one (operation index part) now message_id phase index shared)
          (send_one-Result (operation index part) now message_id phase index shared)
          (send_parts-PartsResult (index + 1) parts)
          (λ shared'.
            send_parts-other (index + 1) parts shared' (reply_key message_id phase (decimal index))
              (λ j le e. let same = reply_key_inj message_id phase j index e in omega arith))

    -- Parts that are settled are not sent.
    pub send_parts-Settled :
        (index : ℕ) (parts : List String) (ids : List (Option String)) (s : FeishuStore) (t : T)
        → Settled message_id phase s.replies index parts ids
        → send_parts operation now message_id phase index parts (s, t) ≡ (ok ids, (s, t))
    unfolding send_parts
    send_parts-Settled index [] [] s t done = refl
    send_parts-Settled index [] (id ∷ ids) s t settled = elim settled [ ]
    send_parts-Settled index (part ∷ parts) _ s t (next ids {rest = rest} h r) =
        let one = send_one-Settled (operation index part) now message_id phase index s t ids h in
        let more = send_parts-Settled (index + 1) parts rest s t r in rw one (rw more refl)
