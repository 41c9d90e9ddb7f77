-- ===== src/Feishu/Store/Sessions/Threads.antt =====
-- A native Codex thread is bound to one chat at most.
use codex_feishu_remoter.Prelude.{
  ℕ, String, ◌≡◌, ◌⊎◌, refl, sym, ap, ◌∙◌, inl, inr, Bool, false, not, ◌||◌, ◌==◌, eq_iff, Option,
  none, some, List, [], ◌∷◌, ◌++◌, arith, eqb, Option-cases, Bool-cases, lookup, lookup-key,
  lookup-snoc, lookup-where_update, lookup-where_delete, lookup-where_delete_self, where_update,
  where_delete, where_select, first, Unique, Unique-snoc, Unique-where_update, Unique-where_delete,
  All_at_lookup, none_selected, run, run_keeps, or_else, has-either, rowcount, Outcome,
}
use codex_feishu_remoter.Feishu.Model.{FeishuSession, is_pending_initial, session_keyed, ErrorCode}
use codex_feishu_remoter.Feishu.Store.{FeishuStore}
use codex_feishu_remoter.Feishu.Store.Sessions.{
  pending_session, create_pending_session, switch_to_pending_session, with_mode, set_approval_mode,
  with_settings, change_settings, update_pending_thread_settings, update_settings, is_empty,
  all_allowed, bound_to, bound_elsewhere, bind_unless, bind_session, unbind_session, mode_of,
}

pub data SessionOp : Type 0 where
  create switch : ℕ → String → String → String → String → SessionOp
  set_mode : ℕ → String → String → SessionOp
  set_pending : ℕ → String → List (String × Option String) → SessionOp
  bind : ℕ → String → String → SessionOp
  unbind : String → SessionOp

unfoldable pub apply : SessionOp → FeishuStore → FeishuStore
apply (create now chat kind owner cwd) s = (create_pending_session now chat kind owner cwd s).1
apply (switch now chat kind owner cwd) s = switch_to_pending_session now chat kind owner cwd s
apply (set_mode now chat mode) s = (set_approval_mode now chat mode s).1
apply (set_pending now chat changes) s = (update_pending_thread_settings now chat changes s).1
apply (bind now chat thread) s = (bind_session now chat thread s).1
apply (unbind chat) s = unbind_session chat s

abbrev thread_of : Option FeishuSession → Option String
thread_of none = none
thread_of (some r) = r.thread_id

-- the thread that a chat is bound to
abbrev pub bound_thread : String → FeishuStore → Option String
bound_thread chat s = thread_of (lookup chat s.sessions)

-- One row for a chat, and no thread in the rows of two chats.
pub record IsExclusive (s : FeishuStore) : Type 0 where
  pub keys : Unique s.sessions
  pub one_chat :
      (c d thread : String)
      → bound_thread c s ≡ some thread
      → bound_thread d s ≡ some thread
      → c ≡ d

-- An update that leaves the threads alone.
update-thread :
    (p : FeishuSession → Bool) (f : FeishuSession → FeishuSession) (sessions : List FeishuSession)
    → ((r : FeishuSession) → (f r).chat_id ≡ r.chat_id)
    → ((r : FeishuSession) → (f r).thread_id ≡ r.thread_id)
    → (c : String)
    → thread_of (lookup c (where_update p f sessions)) ≡ thread_of (lookup c sessions)
update-thread p f sessions keeps same c = elim (Option-cases (lookup c sessions)) [
  | inl absent ↦ ground (arith, absent, lookup-where_update p f keeps c sessions)
  | inr (r, found) ↦ ground (arith, found, lookup-where_update p f keeps c sessions, same r)
]

delete-thread :
    (p : FeishuSession → Bool) (sessions : List FeishuSession) (c thread : String)
    → Unique sessions
    → thread_of (lookup c (where_delete p sessions)) ≡ some thread
    → thread_of (lookup c sessions) ≡ some thread
delete-thread p sessions c thread u h = elim (Option-cases (lookup c sessions)) [
  | inl absent ↦ ground (arith, absent, lookup-where_delete p c sessions u)
  | inr (r, found) ↦ ground (arith, found, lookup-where_delete p c sessions u)
]

-- A fresh session is bound to nothing.
snoc-thread :
    (sessions : List FeishuSession) (r : FeishuSession) (c : String)
    → r.thread_id ≡ none
    → thread_of (lookup c (sessions ++ r ∷ [])) ≡ thread_of (lookup c sessions)
snoc-thread sessions r c unbound = elim (Option-cases (lookup c sessions)) [
  | inl absent ↦ ground (arith, absent, lookup-snoc c sessions r)
  | inr (q, found) ↦ ground (arith, found, lookup-snoc c sessions r)
]

-- A chat that shows a thread after the binding is the chat that was bound, or showed it before.
bound-thread :
    (now : ℕ) (chat thread : String) (sessions : List FeishuSession) (c t : String)
    → thread_of (lookup c (where_update (λ r. r.chat_id == chat) (bound_to now thread) sessions))
      ≡ some t
    → ((c ≡ chat) × (thread ≡ t)) ⊎ (thread_of (lookup c sessions) ≡ some t)
bound-thread now chat thread sessions c t h =
    let after =
      lookup-where_update (λ (r : FeishuSession). r.chat_id == chat) (bound_to now thread)
        (λ r. refl) c sessions in
    elim (Option-cases (lookup c sessions)) [
      | inl absent ↦ inr (ground (arith, absent, after))
      | inr (r, found) ↦ elim (Bool-cases (r.chat_id == chat)) [
        | inl hit ↦ inl (
          sym (lookup-key c sessions r found) ∙ (eq_iff r.chat_id chat).0 hit,
          ground (arith, found, after, hit),
        )
        | inr miss ↦ inr (ground (arith, found, after, miss))
      ]
    ]

-- Where `bind_session` finds no other chat, every chat but its own is free of the thread.
free-thread :
    (chat thread : String) (sessions : List FeishuSession)
    → first (where_select (bound_elsewhere chat thread) sessions) ≡ none
    → (d : String) → thread_of (lookup d sessions) ≡ some thread
    → d ≡ chat
free-thread chat thread sessions free d h = elim (Option-cases (lookup d sessions)) [
  | inl absent ↦ ground (arith, absent)
  | inr (r, found) ↦
      let key = lookup-key d sessions r found in
      let clear : bound_elsewhere chat thread r ≡ false =
        All_at_lookup (λ q. bound_elsewhere chat thread q ≡ false) d sessions r found
          (none_selected (bound_elsewhere chat thread) sessions free) in
      sym key ∙ (eq_iff r.chat_id chat).0 (ground (arith, found, clear, eq_iff thread thread))
]

bind-one_chat :
    (now : ℕ) (chat thread : String) (s : FeishuStore)
    → IsExclusive s
    → first (where_select (bound_elsewhere chat thread) s.sessions) ≡ none
    → (c d t : String)
    → thread_of (lookup c (where_update (λ r. r.chat_id == chat) (bound_to now thread) s.sessions))
      ≡ some t
    → thread_of (lookup d (where_update (λ r. r.chat_id == chat) (bound_to now thread) s.sessions))
      ≡ some t
    → c ≡ d
bind-one_chat now chat thread s h free c d t hc hd =
    elim (bound-thread now chat thread s.sessions c t hc) [
      | inl (hit, this) ↦ elim (bound-thread now chat thread s.sessions d t hd) [
        | inl (also, _) ↦ hit ∙ sym also
        | inr old ↦ hit ∙ sym (free-thread chat thread s.sessions free d (old ∙ ap some (sym this)))
      ]
      | inr old ↦ elim (bound-thread now chat thread s.sessions d t hd) [
        | inl (also, this) ↦
            free-thread chat thread s.sessions free c (old ∙ ap some (sym this)) ∙ sym also
        | inr older ↦ h.one_chat c d t old older
      ]
    ]

-- The parts of `IsExclusive` from the rows.
IsExclusive-of :
    (s s' : FeishuStore)
    → IsExclusive s
    → Unique s'.sessions
    → ((c thread : String) → bound_thread c s' ≡ some thread → bound_thread c s ≡ some thread)
    → IsExclusive s'
IsExclusive-of s s' h u back = record {
  keys = u;
  one_chat = λ c d thread hc hd. h.one_chat c d thread (back c thread hc) (back d thread hd);
}

bind-IsExclusive :
    (now : ℕ) (chat thread : String) (s : FeishuStore) (other : Option FeishuSession)
    → first (where_select (bound_elsewhere chat thread) s.sessions) ≡ other
    → IsExclusive s
    → IsExclusive (bind_unless now chat thread s other).1
bind-IsExclusive now chat thread s (some other) found h = h
bind-IsExclusive now chat thread s none free h = record {
  keys = Unique-where_update _ _ (λ r. refl) s.sessions h.keys;
  one_chat = bind-one_chat now chat thread s h free;
}

update-IsExclusive :
    (s : FeishuStore) (p : FeishuSession → Bool) (f : FeishuSession → FeishuSession)
    → ((r : FeishuSession) → (f r).chat_id ≡ r.chat_id)
    → ((r : FeishuSession) → (f r).thread_id ≡ r.thread_id)
    → IsExclusive s
    → IsExclusive (record s { sessions = where_update p f s.sessions })
update-IsExclusive s p f keeps same h =
    IsExclusive-of s (record s { sessions = where_update p f s.sessions }) h
      (Unique-where_update p f keeps s.sessions h.keys)
      (λ c thread e. sym (update-thread p f s.sessions keeps same c) ∙ e)

delete-IsExclusive :
    (s : FeishuStore) (p : FeishuSession → Bool)
    → IsExclusive s
    → IsExclusive (record s { sessions = where_delete p s.sessions })
delete-IsExclusive s p h =
    IsExclusive-of s (record s { sessions = where_delete p s.sessions }) h
      (Unique-where_delete p s.sessions h.keys)
      (λ c thread e. delete-thread p s.sessions c thread h.keys e)

snoc-IsExclusive :
    (s : FeishuStore) (r : FeishuSession)
    → r.thread_id ≡ none
    → lookup r.chat_id s.sessions ≡ none
    → IsExclusive s
    → IsExclusive (record s { sessions = s.sessions ++ r ∷ [] })
snoc-IsExclusive s r unbound absent h =
    IsExclusive-of s (record s { sessions = s.sessions ++ r ∷ [] }) h
      (Unique-snoc s.sessions r h.keys absent)
      (λ c thread e. sym (snoc-thread s.sessions r c unbound) ∙ e)

set_mode-IsExclusive :
    (now : ℕ) (chat mode : String) (s : FeishuStore)
    → IsExclusive s
    → IsExclusive (set_approval_mode now chat mode s).1
unfolding set_approval_mode
set_mode-IsExclusive now chat mode s h =
    let updated =
      update-IsExclusive s (λ r. r.chat_id == chat) (with_mode now mode) (λ r. refl) (λ r. refl)
        h in
    elim (Bool-cases (mode == "ask" || mode == "auto" || mode == "full")) [
      | inl known ↦
          elim (Bool-cases
            (eqb (rowcount (λ (r : FeishuSession). r.chat_id == chat) s.sessions) 1)) [
              | inl one ↦ rw (known, one) updated
              | inr other ↦ rw (known, other) updated
            ]
      | inr unknown ↦ rw unknown h
    ]

change-IsExclusive :
    (now : ℕ) (chat : String) (changes : List (String × Option String)) (s : FeishuStore)
    (row : Option FeishuSession)
    → IsExclusive s
    → IsExclusive (change_settings now chat changes s row).1
change-IsExclusive now chat changes s none h = h
change-IsExclusive now chat changes s (some row) h =
    elim (Bool-cases (is_pending_initial row.state)) [
      | inl waits ↦ rw waits (
          update-IsExclusive s (λ r. r.chat_id == chat)
            (with_settings now (update_settings changes (or_else row.pending_settings_json [])))
            (λ r. refl) (λ r. refl) h)
      | inr begun ↦ rw begun h
    ]

create-IsExclusive :
    (now : ℕ) (chat kind owner cwd : String) (s : FeishuStore)
    → IsExclusive s
    → IsExclusive (create_pending_session now chat kind owner cwd s).1
unfolding create_pending_session
create-IsExclusive now chat kind owner cwd s h =
    has-either (λ (o : Outcome ErrorCode (Unit {0}) × FeishuStore). IsExclusive o.1) chat s.sessions
      _ _ h
      (λ absent. snoc-IsExclusive s (pending_session now chat kind owner cwd "ask") refl absent h)

switch-IsExclusive :
    (now : ℕ) (chat kind owner cwd : String) (s : FeishuStore)
    → IsExclusive s
    → IsExclusive (switch_to_pending_session now chat kind owner cwd s)
unfolding switch_to_pending_session
switch-IsExclusive now chat kind owner cwd s h =
    snoc-IsExclusive
      (record s { sessions = where_delete (λ (r : FeishuSession). r.chat_id == chat) s.sessions })
      (pending_session now chat kind owner cwd (or_else (mode_of (lookup chat s.sessions)) "ask"))
      refl (lookup-where_delete_self chat s.sessions)
      (delete-IsExclusive s (λ r. r.chat_id == chat) h)

set_pending-IsExclusive :
    (now : ℕ) (chat : String) (changes : List (String × Option String)) (s : FeishuStore)
    → IsExclusive s
    → IsExclusive (update_pending_thread_settings now chat changes s).1
unfolding update_pending_thread_settings
set_pending-IsExclusive now chat changes s h =
    elim (Bool-cases (is_empty changes || not (all_allowed changes))) [
      | inl refused ↦ rw refused h
      | inr passed ↦ rw passed (change-IsExclusive now chat changes s (lookup chat s.sessions) h)
    ]

apply-IsExclusive : (op : SessionOp) (s : FeishuStore) → IsExclusive s → IsExclusive (apply op s)
unfolding apply bind_session unbind_session
apply-IsExclusive (create now chat kind owner cwd) s h =
    create-IsExclusive now chat kind owner cwd s h
apply-IsExclusive (switch now chat kind owner cwd) s h =
    switch-IsExclusive now chat kind owner cwd s h
apply-IsExclusive (set_mode now chat mode) s h = set_mode-IsExclusive now chat mode s h
apply-IsExclusive (set_pending now chat changes) s h = set_pending-IsExclusive now chat changes s h
apply-IsExclusive (bind now chat thread) s h = bind-IsExclusive now chat thread s _ refl h
apply-IsExclusive (unbind chat) s h = delete-IsExclusive s (λ r. r.chat_id == chat) h

-- Over any calls of the session methods a store keeps one row for a chat and binds no native thread
-- to two chats: the thread that two chats show is one chat's.
pub sessions-IsExclusive :
    (ops : List SessionOp) (s : FeishuStore) → IsExclusive s → IsExclusive (run apply ops s)
sessions-IsExclusive = run_keeps apply IsExclusive apply-IsExclusive
