-- ===== src/Feishu/Store/Sessions/Examples.antt =====
-- Sessions of two chats, and the theorems at them.
use codex_feishu_remoter.Prelude.{
  sql, String, ◌≡◌, refl, true, Option, none, some, List, [], ◌∷◌, coalesce, lookup, run, ok,
  raised,
}
use codex_feishu_remoter.Feishu.Model.{session_keyed, feishu_thread_already_bound}
use codex_feishu_remoter.Feishu.Store.{FeishuStore, empty}
use codex_feishu_remoter.Feishu.Store.Sessions.{
  pending_session, create_pending_session, switch_to_pending_session, set_approval_mode,
  bind_session, get_setting, is_allowed, get_pending_thread_settings,
  update_pending_thread_settings,
}
use codex_feishu_remoter.Feishu.Store.Sessions.Threads.{
  SessionOp, create, set_mode, bind, apply, IsExclusive, sessions-IsExclusive,
}
use codex_feishu_remoter.Feishu.Store.Sessions.Modes.{last_setting, update_pending-settings}

empty-IsExclusive : IsExclusive empty
unfolding lookup
empty-IsExclusive = record { keys = tt; one_chat = λ c d thread hc hd. cc }

abbrev rivals : List SessionOp
rivals =
    create 1 "a" "p2p" "ou_1" "/w"
    ∷ create 2 "b" "p2p" "ou_1" "/w"
    ∷ bind 3 "a" "t"
    ∷ bind 4 "b" "t"
    ∷ set_mode 5 "a" "full"
    ∷ []

sessions-IsExclusive_example : IsExclusive (run apply rivals empty)
sessions-IsExclusive_example = sessions-IsExclusive rivals empty empty-IsExclusive

second_refused :
    (bind_session 4 "b" "t" (run apply rivals empty)).0 ≡ raised feishu_thread_already_bound
unfolding sql run apply create_pending_session bind_session set_approval_mode
second_refused = refl

abbrev switched : FeishuStore
switched = switch_to_pending_session 9 "a" "p2p" "ou_1" "/v" (run apply rivals empty)

abbrev waiting : FeishuStore
waiting = record empty { sessions = pending_session 1 "a" "p2p" "ou_1" "/w" "ask" ∷ [] }

abbrev choices : List (String × Option String)
choices = ("model", some "gpt") ∷ ("service_tier", none) ∷ []

update_pending-settings_example :
    (settings : List (String × Option String)) × (s' : FeishuStore)
    × (update_pending_thread_settings 2 "a" choices waiting ≡ (ok settings, s'))
    × (get_pending_thread_settings "a" s' ≡ settings)
    × ((k : String)
        → is_allowed k ≡ true
        → get_setting k settings
          ≡ coalesce
              (last_setting k choices)
              (get_setting k (get_pending_thread_settings "a" waiting)))
unfolding sql
update_pending-settings_example =
    update_pending-settings 2 "a" choices waiting
      (pending_session 1 "a" "p2p" "ou_1" "/w" "ask", refl, refl) refl refl
