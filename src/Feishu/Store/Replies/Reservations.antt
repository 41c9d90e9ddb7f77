-- ===== src/Feishu/Store/Replies/Reservations.antt =====
-- How often a reply chunk is reserved, and so sent.
use codex_feishu_remoter.Prelude.{
  ℕ, ◌+◌, ◌≤◌, String, ◌≡◌, refl, inl, inr, Bool, false, ◌&&◌, ◌==◌, eq_iff, Option, none, some,
  List, arith, if◌then◌else◌, Option-cases, lookup, lookup-key, lookup-snoc, lookup-where_update,
  gone, Stays, same_row, where_delete-Stays, Unique, Unique-snoc, Unique-where_update,
  Unique-where_delete, where_update, total, total_bounded, All-of,
}
use codex_feishu_remoter.Feishu.Store.{FeishuStore, Reply, reply_keyed, empty}
use codex_feishu_remoter.Feishu.Store.Prune.{Retention, prune_history}
use codex_feishu_remoter.Feishu.Store.Inbox.{recover_on_startup}
use codex_feishu_remoter.Feishu.Store.Replies.{
  reply_key, is_failed, reserved_row, reserve_again, reserve_key, reserve_reply, answered,
  set_reply_response, given_up, mark_reply_failed,
}

pub data ReplyOp : Type 0 where
  reserving : ℕ → String → String → String → Option String → ReplyOp
  answering : String → String → String → String → ReplyOp
  failing : String → String → String → ReplyOp
  restarting : ReplyOp
  pruning : ℕ → Retention → ReplyOp

unfoldable pub apply : ReplyOp → FeishuStore → FeishuStore
apply (reserving now message phase chunk response) s =
    (reserve_reply now message phase chunk response s).1
apply (answering message phase chunk response) s = set_reply_response message phase chunk response s
apply (failing message phase chunk) s = mark_reply_failed message phase chunk s
apply restarting s = (recover_on_startup s).1
apply (pruning now opts) s = (prune_history now opts s).1

-- 1 if the call reserved the chunk
abbrev pub reservations_in : String → ReplyOp → FeishuStore → ℕ
reservations_in key (reserving now message phase chunk response) s =
    if reply_key message phase chunk == key && (reserve_reply now message phase chunk response s).0
    then 1
    else 0
reservations_in key _ s = 0

-- 1 if the call can give the chunk up: the failure of its delivery, a restart, or a retention that
-- deletes its row
abbrev pub failures_in : String → ReplyOp → FeishuStore → ℕ
failures_in key (failing message phase chunk) s =
    if reply_key message phase chunk == key then 1 else 0
failures_in key restarting s = 1
failures_in key (pruning now opts) s =
    gone (lookup key s.replies) (lookup key (prune_history now opts s).1.replies)
failures_in key _ s = 0

-- whether the chunk can be reserved
abbrev open_for : Option Reply → ℕ
open_for none = 1
open_for (some r) = if is_failed r.state then 1 else 0

update-open :
    (key : String) (p : Reply → Bool) (f : Reply → Reply) (replies : List Reply)
    → ((r : Reply) → (f r).reply_key ≡ r.reply_key)
    → ((r : Reply) → is_failed (f r).state ≡ false)
    → open_for (lookup key (where_update p f replies)) ≤ open_for (lookup key replies)
update-open key p f replies keeps closes = elim (Option-cases (lookup key replies)) [
  | inl absent ↦ ground (arith, absent, lookup-where_update p f keeps key replies)
  | inr (r, found) ↦ ground (arith, found, lookup-where_update p f keeps key replies, closes r)
]

reserve-open :
    (key : String) (now : ℕ) (which message : String) (response : Option String) (s : FeishuStore)
    → (if which == key && (reserve_key now which message response s (lookup which s.replies)).0
          then 1
          else 0)
        + open_for (
            lookup key
              (reserve_key now which message response s (lookup which s.replies)).1.replies)
      ≤ open_for (lookup key s.replies)
reserve-open key now which message response s =
    let here : Reply → Bool = λ q. q.reply_key == which in
    let after = lookup-where_update here (reserve_again now) (λ r. refl) key s.replies in
    elim (Option-cases (lookup which s.replies)) [
      | inl absent ↦ ground (
        arith,
        absent,
        eq_iff which key,
        lookup-snoc key s.replies (reserved_row now which message response),
      )
      | inr (r, found) ↦ elim (Option-cases (lookup key s.replies)) [
        | inl absent ↦ ground (arith, absent, found, after, eq_iff which key)
        | inr (q, there) ↦ ground (
          arith,
          there,
          found,
          after,
          eq_iff which key,
          eq_iff q.reply_key which,
          lookup-key key s.replies q there,
          lookup-key which s.replies r found,
        )
      ]
    ]

fail-open :
    (key which : String) (replies : List Reply)
    → open_for (lookup key (where_update (λ (r : Reply). r.reply_key == which) given_up replies))
      ≤ open_for (lookup key replies) + (if which == key then 1 else 0)
fail-open key which replies =
    let after =
      lookup-where_update (λ (r : Reply). r.reply_key == which) given_up (λ r. refl) key replies in
    elim (Option-cases (lookup key replies)) [
      | inl absent ↦ ground (arith, absent, after)
      | inr (r, found) ↦ ground (
        arith,
        found,
        after,
        eq_iff r.reply_key which,
        eq_iff which key,
        lookup-key key replies r found,
      )
    ]

open_le_one : (o : Option Reply) → open_for o ≤ 1
open_le_one none = omega arith
open_le_one (some r) = ground arith

row-open :
    (before after : Option Reply)
    → Stays before after
    → open_for after ≤ open_for before + gone before after
row-open none none h = omega arith
row-open (some r) none h = ground arith
row-open before (some q) h = rw h (omega arith)

prune-open :
    (key : String) (now : ℕ) (opts : Retention) (s : FeishuStore)
    → Unique s.replies
    → open_for (lookup key (prune_history now opts s).1.replies)
      ≤ open_for (lookup key s.replies)
        + gone (lookup key s.replies) (lookup key (prune_history now opts s).1.replies)
unfolding prune_history
prune-open key now opts s u = row-open (lookup key s.replies) _ (
    where_delete-Stays _ key _ _ (Unique-where_delete _ _ (Unique-where_delete _ s.replies u)) (
      where_delete-Stays _ key _ _ (Unique-where_delete _ s.replies u)
        (where_delete-Stays _ key _ s.replies u (same_row (lookup key s.replies)))))

reserve-Unique :
    (now : ℕ) (which message : String) (response : Option String) (s : FeishuStore)
    → Unique s.replies
    → Unique (reserve_key now which message response s (lookup which s.replies)).1.replies
reserve-Unique now which message response s u = elim (Option-cases (lookup which s.replies)) [
  | inl absent ↦
      ground (arith, absent, Unique-snoc s.replies (reserved_row now which message response) u)
  | inr (r, found) ↦ ground (
    arith,
    found,
    Unique-where_update (λ (q : Reply). q.reply_key == which) (reserve_again now) (λ q. refl)
        s.replies u,
    u,
  )
]

-- No call gives a chunk a second row.
apply-Unique : (op : ReplyOp) (s : FeishuStore) → Unique s.replies → Unique (apply op s).replies
unfolding apply reserve_reply set_reply_response mark_reply_failed recover_on_startup prune_history
apply-Unique (reserving now message phase chunk response) s u =
    reserve-Unique now (reply_key message phase chunk) message response s u
apply-Unique (answering message phase chunk response) s u =
    Unique-where_update _ _ (λ r. refl) s.replies u
apply-Unique (failing message phase chunk) s u = Unique-where_update _ _ (λ r. refl) s.replies u
apply-Unique restarting s u = Unique-where_update _ _ (λ r. refl) s.replies u
apply-Unique (pruning now opts) s u =
    Unique-where_delete _ _ (Unique-where_delete _ _ (Unique-where_delete _ s.replies u))

step-open :
    (key : String) (op : ReplyOp) (s : FeishuStore)
    → Unique s.replies
    → reservations_in key op s + open_for (lookup key (apply op s).replies)
      ≤ open_for (lookup key s.replies) + failures_in key op s
unfolding apply reserve_reply set_reply_response mark_reply_failed recover_on_startup
step-open key (reserving now message phase chunk response) s u =
    omega (arith, reserve-open key now (reply_key message phase chunk) message response s)
step-open key (answering message phase chunk response) s u = omega (
  arith,
  update-open key (λ r. r.reply_key == reply_key message phase chunk) (answered response) s.replies
      (λ r. refl) (λ r. refl),
)
step-open key (failing message phase chunk) s u =
    omega (arith, fail-open key (reply_key message phase chunk) s.replies)
step-open key restarting s u = omega (arith, open_le_one (lookup key (apply restarting s).replies))
step-open key (pruning now opts) s u = omega (arith, prune-open key now opts s u)

-- Over any calls on an empty store, `prune_history` included, a reply chunk is reserved at most once, and
-- once more for each time that its delivery was marked as failed, that the program was restarted, or
-- that `prune_history` deleted its row.
pub reservations-le-failures :
    (key : String) (ops : List ReplyOp)
    → total apply (reservations_in key) ops empty ≤ 1 + total apply (failures_in key) ops empty
unfolding lookup
reservations-le-failures key ops = omega (
  arith,
  total_bounded apply (λ _. Unit {0}) (λ s. Unique s.replies) (λ s. open_for (lookup key s.replies))
      (reservations_in key) (failures_in key) (λ op s _ u. apply-Unique op s u)
      (λ op s _ u. step-open key op s u) ops empty (All-of _ (λ _. tt) ops) tt,
)
