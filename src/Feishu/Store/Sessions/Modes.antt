-- ===== src/Feishu/Store/Sessions/Modes.antt =====
-- The approval mode and the pending settings of a chat.
use mathlib.Core.Option
use codex_feishu_remoter.Prelude.{
  ℕ, String, ◌≡◌, refl, sym, ap, ◌∙◌, inl, inr, true, false, ◌==◌, eq_iff, eq_refl, Option, none,
  some, List, [], ◌∷◌, ◌++◌, arith, if◌then◌else◌, Option-cases, Bool-cases, coalesce, or_else,
  lookup, lookup-key, lookup-snoc, lookup-where_update, lookup-where_delete,
  lookup-where_delete_self, where_delete, Unique, ok,
}
use codex_feishu_remoter.Feishu.Model.{FeishuSession, session_keyed, is_pending_initial}
use codex_feishu_remoter.Feishu.Store.{FeishuStore}
use codex_feishu_remoter.Feishu.Store.Sessions.{
  pending_session, mode_or_ask, mode_of, switch_to_pending_session, get_approval_mode, put_setting,
  get_setting, update_settings, is_allowed, all_allowed, is_empty, only_allowed,
  pending_settings_of, get_pending_thread_settings, with_settings, change_settings,
  update_pending_thread_settings,
}

mode_or_ask_again :
    (r : FeishuSession) (now : ℕ) (chat kind owner cwd : String)
    → mode_or_ask (pending_session now chat kind owner cwd (mode_or_ask r)) ≡ mode_or_ask r
mode_or_ask_again r now chat kind owner cwd = ground (arith, eq_iff r.approval_mode "")

-- Switching a chat to a new pending session keeps the approval mode that the chat had, `ask` if it
-- had no session, and leaves the sessions of the other chats as they are.
pub switch-mode :
    (now : ℕ) (chat kind owner cwd : String) (s : FeishuStore)
    → Unique s.sessions
    → (get_approval_mode chat (switch_to_pending_session now chat kind owner cwd s)
        ≡ some (or_else (get_approval_mode chat s) "ask"))
      × ((d : String)
          → (d == chat) ≡ false
          → lookup d (switch_to_pending_session now chat kind owner cwd s).sessions
            ≡ lookup d s.sessions)
unfolding switch_to_pending_session get_approval_mode
switch-mode now chat kind owner cwd s u = (own, others)
  where
    kept : String
    kept = or_else (mode_of (lookup chat s.sessions)) "ask"

    new : FeishuSession
    new = pending_session now chat kind owner cwd kept

    rest : List FeishuSession
    rest = where_delete (λ r. r.chat_id == chat) s.sessions

    kept-mode : mode_or_ask new ≡ kept
    kept-mode = elim (Option-cases (lookup chat s.sessions)) [
      | inl absent ↦ rw absent
      | inr (r, found) ↦ rw found (mode_or_ask_again r now chat kind owner cwd)
    ]

    own_row : lookup chat (rest ++ new ∷ []) ≡ some new
    own_row =
        lookup-snoc chat rest new
        ∙ ground (arith, lookup-where_delete_self chat s.sessions, eq_iff chat chat)

    own : mode_of (lookup chat (rest ++ new ∷ [])) ≡ some kept
    own = ap mode_of own_row ∙ ap some kept-mode

    others : (d : String) → (d == chat) ≡ false → lookup d (rest ++ new ∷ []) ≡ lookup d s.sessions
    others d other = elim (Option-cases (lookup d s.sessions)) [
      | inl absent ↦ ground (
        arith,
        lookup-snoc d rest new,
        lookup-where_delete (λ r. r.chat_id == chat) d s.sessions u,
        absent,
        eq_iff chat d,
        eq_iff d chat,
      )
      | inr (r, found) ↦ ground (
        arith,
        lookup-snoc d rest new,
        lookup-where_delete (λ r. r.chat_id == chat) d s.sessions u,
        found,
        lookup-key d s.sessions r found,
        eq_iff r.chat_id chat,
        eq_iff d chat,
      )
    ]

-- the last change of a key, if the call names it
pub last_setting : String → List (String × Option String) → Option (Option String)
last_setting k [] = none
last_setting k ((j, v) ∷ changes) =
    coalesce (last_setting k changes) (if j == k then some v else none)

get_setting-put_setting :
    (k j : String) (v : Option String) (d : List (String × Option String))
    → get_setting k (put_setting j v d) ≡ (if j == k then some v else get_setting k d)
unfolding get_setting put_setting
get_setting-put_setting k j v [] = refl
get_setting-put_setting k j v ((i, w) ∷ d) =
    ground (arith, eq_iff i j, eq_iff i k, eq_iff j k, get_setting-put_setting k j v d)

get_setting-update_settings :
    (k : String) (changes d : List (String × Option String))
    → get_setting k (update_settings changes d)
      ≡ coalesce (last_setting k changes) (get_setting k d)
unfolding update_settings last_setting
get_setting-update_settings k [] d = refl
get_setting-update_settings k ((j, v) ∷ changes) d =
    get_setting-update_settings k changes (put_setting j v d)
    ∙ ground (arith, get_setting-put_setting k j v d)

get_setting-only_allowed :
    (k : String) (d : List (String × Option String))
    → is_allowed k ≡ true
    → get_setting k (only_allowed d) ≡ get_setting k d
unfolding get_setting
get_setting-only_allowed k [] a = refl
get_setting-only_allowed k ((j, w) ∷ d) a = elim (Bool-cases (j == k)) [
  | inl same ↦ rw (ap is_allowed ((eq_iff j k).0 same) ∙ a, same)
  | inr other ↦ elim (Bool-cases (is_allowed j)) [
    | inl kept ↦ rw (kept, other) (get_setting-only_allowed k d a)
    | inr dropped ↦ rw (dropped, other) (get_setting-only_allowed k d a)
  ]
]

-- the chat waits for its native thread to be created
abbrev pub IsPendingChat : String → FeishuStore → Type 0
IsPendingChat chat s =
    (r : FeishuSession) × (lookup chat s.sessions ≡ some r) × (is_pending_initial r.state ≡ true)

change-settings :
    (now : ℕ) (chat : String) (changes : List (String × Option String)) (s : FeishuStore)
    (r : FeishuSession)
    → lookup chat s.sessions ≡ some r
    → is_pending_initial r.state ≡ true
    → get_pending_thread_settings chat (change_settings now chat changes s (some r)).1
      ≡ only_allowed (update_settings changes (or_else r.pending_settings_json []))
unfolding get_pending_thread_settings
change-settings now chat changes s r found waits =
    let settings = update_settings changes (or_else r.pending_settings_json []) in
    let after =
      lookup-where_update (λ (q : FeishuSession). q.chat_id == chat) (with_settings now settings)
        (λ q. refl) chat s.sessions in
    rw waits (
      ap pending_settings_of (after ∙ ap (Option.map _) found)
      ∙ rw (lookup-key chat s.sessions r found, eq_refl chat, waits) refl)

-- Presetting a chat that waits for its thread: a call that names some of the three settings and no
-- other key succeeds and returns what `get_pending_thread_settings` then reads. Each setting that
-- the call names has its new value, and each other one the value that it had.
pub update_pending-settings :
    (now : ℕ) (chat : String) (changes : List (String × Option String)) (s : FeishuStore)
    → IsPendingChat chat s
    → is_empty changes ≡ false
    → all_allowed changes ≡ true
    → (settings : List (String × Option String)) × (s' : FeishuStore)
      × (update_pending_thread_settings now chat changes s ≡ (ok settings, s'))
      × (get_pending_thread_settings chat s' ≡ settings)
      × ((k : String)
          → is_allowed k ≡ true
          → get_setting k settings
            ≡ coalesce
                (last_setting k changes)
                (get_setting k (get_pending_thread_settings chat s)))
unfolding update_pending_thread_settings get_pending_thread_settings
update_pending-settings now chat changes s (r, found, waits) some_change allowed =
    let s' = (change_settings now chat changes s (some r)).1 in
    (
      get_pending_thread_settings chat s',
      s',
      rw (some_change, allowed, found, waits) refl,
      refl,
      λ k known.
          ap (get_setting k) (change-settings now chat changes s r found waits)
          ∙ get_setting-only_allowed k _ known
          ∙ get_setting-update_settings k changes (or_else r.pending_settings_json [])
          ∙ ap (coalesce (last_setting k changes))
              (sym (rw (found, waits) (get_setting-only_allowed k _ known))),
    )
