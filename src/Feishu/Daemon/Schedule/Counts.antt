-- ===== src/Feishu/Daemon/Schedule/Counts.antt =====
-- How often a chat stands in a list, and how many workers have it.
use codex_feishu_remoter.Prelude.{
  ℕ, suc, String, ◌+◌, ◌≤◌, ◌≡◌, refl, Bool, true, false, ◌==◌, eq_iff, List, [], ◌∷◌, ◌++◌, arith,
  if◌then◌else◌, where_delete,
}
use codex_feishu_remoter.Feishu.Daemon.Schedule.{Job, Phase, member, discard, at}

-- how often a chat stands in a list
unfoldable pub tokens : String → List String → ℕ
tokens c [] = 0
tokens c (d ∷ ds) = let rest = tokens c ds in if d == c then suc rest else rest

-- how many workers have the chat
unfoldable pub workers_on : String → List Job → ℕ
workers_on c [] = 0
workers_on c (j ∷ jobs) = let rest = workers_on c jobs in if j.chat_id == c then suc rest else rest

pub tokens-append :
    (c : String) (xs ys : List String) → tokens c (xs ++ ys) ≡ tokens c xs + tokens c ys
unfolding tokens
tokens-append c [] ys = omega arith
tokens-append c (x ∷ xs) ys = ground (arith, tokens-append c xs ys)

pub workers_on-append :
    (c : String) (xs ys : List Job) → workers_on c (xs ++ ys) ≡ workers_on c xs + workers_on c ys
unfolding workers_on
workers_on-append c [] ys = omega arith
workers_on-append c (x ∷ xs) ys = ground (arith, workers_on-append c xs ys)

-- 1 if the names agree
abbrev pub one_if : Bool → ℕ
one_if b = if b then 1 else 0

pub workers_on-at :
    (k c : String) (phase : Phase) (before after : List Job)
    → workers_on k (at before c phase after) ≡ workers_on k (before ++ after) + one_if (c == k)
unfolding workers_on
workers_on-at k c phase before after = ground (
  arith,
  workers_on-append k before (record { chat_id = c; phase = phase } ∷ after),
  workers_on-append k before after,
)

pub tokens-discard :
    (k c : String) (cs : List String)
    → tokens k (discard c cs) ≡ (if c == k then 0 else tokens k cs)
unfolding tokens where_delete
tokens-discard k c [] = ground arith
tokens-discard k c (x ∷ cs) =
    ground (arith, tokens-discard k c cs, eq_iff x c, eq_iff x k, eq_iff c k)

pub tokens-snoc :
    (k c : String) (cs : List String) → tokens k (cs ++ c ∷ []) ≡ tokens k cs + one_if (c == k)
unfolding tokens
tokens-snoc k c cs = ground (arith, tokens-append k cs (c ∷ []))

pub not_member : (c : String) (cs : List String) → member c cs ≡ false → tokens c cs ≡ 0
unfolding tokens
not_member c [] h = refl
not_member c (x ∷ cs) h = ground (arith, not_member c cs)

pub member-some : (c : String) (cs : List String) → member c cs ≡ true → 1 ≤ tokens c cs
unfolding tokens
member-some c [] h = cc
member-some c (x ∷ cs) h = ground (arith, member-some c cs)
