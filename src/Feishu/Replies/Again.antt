-- ===== src/Feishu/Replies/Again.antt =====
-- A reply that was sent is not sent a second time, and one that failed can be.
use codex_feishu_remoter.Prelude.{
  ℕ, ◌<◌, String, ◌≡◌, refl, ap, subst, inl, inr, true, false, Option, none, List, [], arith,
  Bool-cases, Option-cases, is_empty_text, strip, lookup, Outcome, ok, raised,
}
use codex_feishu_remoter.Prelude.Decimal.{decimal}
use codex_feishu_remoter.Core.Telemetry.{count}
use codex_feishu_remoter.Feishu.Store.{FeishuStore, failed, reply_keyed}
use codex_feishu_remoter.Feishu.Store.Replies.{reply_key, reserve_reply}
use codex_feishu_remoter.Feishu.Replies.{
  Failure, SendError, Sent, Transport, default_limit, chunk_text, operation_for, send_parts,
  send_chunks, send, reply_text,
}
use codex_feishu_remoter.Feishu.Replies.Chunks.{chunk_text-AreChunks}
use codex_feishu_remoter.Feishu.Replies.Rows.{FailedAt}
use codex_feishu_remoter.Feishu.Replies.Parts.{
  PartsResult, send_parts-PartsResult, send_parts-Settled,
}

-- One of the chunks of the text has a row that failed, and can be reserved, and so sent, at any time.
pub record CanRetry (message_id phase text : String) (s : FeishuStore) : Type 0 where
  pub parts : List String
  pub cut : chunk_text text default_limit ≡ ok parts
  pub index : ℕ
  pub below : index < count parts
  pub row : FailedAt (lookup (reply_key message_id phase (decimal index)) s.replies)
  pub again : (now : ℕ) → (reserve_reply now message_id phase (decimal index) none s).0 ≡ true

reserve_failed :
    (message_id phase chunk_index : String) (s : FeishuStore) (now : ℕ)
    → FailedAt (lookup (reply_key message_id phase chunk_index) s.replies)
    → (reserve_reply now message_id phase chunk_index none s).0 ≡ true
unfolding reserve_reply
reserve_failed message_id phase chunk_index s now h =
    elim (Option-cases (lookup (reply_key message_id phase chunk_index) s.replies)) [
      | inl absent ↦ absurd (subst FailedAt absent h)
      | inr (r, found) ↦
          let state : r.state ≡ failed = subst FailedAt found h in rw found (rw state refl)
    ]

strip_filled : (text : String) → is_empty_text (strip text) ≡ false → is_empty_text text ≡ false
strip_filled String.[] h = h
strip_filled (String.◌∷◌ c text) h = refl

module _ {T : Type 0} where
  resulting :
      (message_id phase : String) (parts : List String) (out out' : Sent T)
      → PartsResult message_id phase 0 parts out
      → out ≡ out'
      → PartsResult message_id phase 0 parts out'
  resulting message_id phase parts out out' h e = subst (PartsResult message_id phase 0 parts) e h

  send_chunks_again :
      (operation operation' : ℕ → String → T → Outcome Failure String × T) (now now' : ℕ)
      (message_id phase : String) (shared : FeishuStore × T) (o : Outcome SendError (List String))
      (ids : List (Option String)) (s : FeishuStore) (t t' : T)
      → send_chunks operation now message_id phase shared o ≡ (ok ids, (s, t))
      → send_chunks operation' now' message_id phase (s, t') o ≡ (ok ids, (s, t'))
  send_chunks_again operation operation' now now' message_id phase shared (ok parts) ids s t t' h =
      send_parts-Settled operation' now' message_id phase 0 parts ids s t' (
        resulting message_id phase parts _ _
          (send_parts-PartsResult operation now message_id phase 0 parts shared) h)
  send_chunks_again operation operation' now now' message_id phase shared (raised e) ids s t t' h =
      let differ : raised e ≡ ok ids = ap (λ x. x.0) h in cc differ

module _ {T : Type 0} (sha256 : String → String) (transport : Transport T) where
  -- A reply that returned its ids is not sent again: a call with the same text, at any time, through
  -- any transport and to any chat returns the same ids and changes nothing.
  pub reply_text_again :
      (transport' : Transport T) (now now' : ℕ) (message_id text phase : String)
      (chat_id chat_id' : Option String) (shared : FeishuStore × T) (ids : List (Option String))
      (s : FeishuStore) (t t' : T)
      → reply_text sha256 transport now message_id text phase chat_id shared ≡ (ok ids, (s, t))
      → reply_text sha256 transport' now' message_id text phase chat_id' (s, t') ≡ (ok ids, (s, t'))
  unfolding reply_text send
  reply_text_again transport' now now' message_id text phase chat_id chat_id' shared ids s t t' h =
      elim (Bool-cases (is_empty_text (strip text))) [
        | inl empty ↦
            let none_sent : ok [] ≡ ok ids = ap (λ x. x.0) (rw empty at h) in
            rw empty (ap (λ x. (x, (s, t'))) none_sent)
        | inr filled ↦ rw filled (
            send_chunks_again (operation_for sha256 transport none chat_id message_id phase)
              (operation_for sha256 transport' none chat_id' message_id phase) now now' message_id
              phase shared (chunk_text text default_limit) ids s t t' (rw filled at h))
      ]

  -- A reply that raises leaves a row that says that one of the chunks of its text has failed, and this
  -- chunk can be reserved again at any time.
  pub reply_text-CanRetry :
      (now : ℕ) (message_id text phase : String) (chat_id : Option String)
      (shared : FeishuStore × T) (e : SendError) (s : FeishuStore) (t : T)
      → reply_text sha256 transport now message_id text phase chat_id shared ≡ (raised e, (s, t))
      → CanRetry message_id phase text s
  unfolding reply_text send
  reply_text-CanRetry now message_id text phase chat_id shared e s t h =
      elim (Bool-cases (is_empty_text (strip text))) [
        | inl empty ↦ let differ : ok [] ≡ raised e = ap (λ x. x.0) (rw empty at h) in cc differ
        | inr filled ↦
            let operation = operation_for sha256 transport none chat_id message_id phase in
            let cut =
              chunk_text-AreChunks text default_limit (strip_filled text filled) (omega arith) in
            let sent : send_parts operation now message_id phase 0 cut.0 shared
                ≡ (raised e, (s, t)) =
              rw (filled, cut.1.0) at h in
            let failed_at =
              resulting message_id phase cut.0 _ _
                (send_parts-PartsResult operation now message_id phase 0 cut.0 shared) sent in
            record {
              parts = cut.0;
              cut = cut.1.0;
              index = failed_at.0;
              below = omega (arith, failed_at.1.0);
              row = failed_at.1.1;
              again = λ again.
                  reserve_failed message_id phase (decimal failed_at.0) s again failed_at.1.1;
            }
      ]
