-- ===== src/Feishu/Store/Sessions.antt =====
-- The session and surface methods of `FeishuStore`: which native Codex thread a Feishu chat is
-- bound to, its approval mode, the settings of a thread that is not yet created, and the surface
-- that the chat has selected.
pub mod Threads
pub mod Modes
mod Examples
use codex_feishu_remoter.Prelude.{
  ℕ, String, Bool, true, false, not, ◌&&◌, ◌||◌, ◌==◌, Option, none, some, List, [], ◌∷◌, ◌++◌,
  if◌then◌else◌, is_value, or_else, lookup, has, where_update, where_delete, where_select, rowcount,
  eqb, first, Outcome, ok, raised,
}
use codex_feishu_remoter.Feishu.Model.{
  FeishuSession, SessionState, pending_initial, bound, is_pending_initial, session_keyed, ErrorCode,
  feishu_session_already_exists, feishu_approval_mode_invalid, feishu_no_active_session,
  feishu_thread_already_bound, feishu_surface_invalid, feishu_no_pending_session,
  feishu_pending_settings_invalid,
}
use codex_feishu_remoter.Feishu.Store.{FeishuStore, SurfaceState, surface_keyed}

unfoldable pub get_session : String → FeishuStore → Option FeishuSession
get_session chat_id s = lookup chat_id s.sessions

abbrev pub pending_session : ℕ → String → String → String → String → String → FeishuSession
pending_session now chat_id chat_type owner_open_id pending_cwd approval_mode = record {
  chat_id = chat_id;
  chat_type = chat_type;
  owner_open_id = owner_open_id;
  state = pending_initial;
  thread_id = none;
  pending_cwd = some pending_cwd;
  pending_settings_json = none;
  approval_mode = approval_mode;
  created_at = now;
  updated_at = now;
}

-- The column `approval_mode` is `'ask'` by default.
unfoldable pub create_pending_session :
    ℕ → String → String → String → String → FeishuStore → Outcome ErrorCode (Unit {0}) × FeishuStore
create_pending_session now chat_id chat_type owner_open_id pending_cwd s =
    if has chat_id s.sessions then (raised feishu_session_already_exists, s) else (
      ok tt,
      record s {
        sessions =
            s.sessions
            ++ pending_session now chat_id chat_type owner_open_id pending_cwd "ask" ∷ [];
      },
    )

-- `str(row['approval_mode'] or 'ask')`
abbrev pub mode_or_ask : FeishuSession → String
mode_or_ask r = if r.approval_mode == "" then "ask" else r.approval_mode

abbrev pub mode_of : Option FeishuSession → Option String
mode_of none = none
mode_of (some r) = some (mode_or_ask r)

unfoldable pub switch_to_pending_session :
    ℕ → String → String → String → String → FeishuStore → FeishuStore
switch_to_pending_session now chat_id chat_type owner_open_id pending_cwd s =
    let approval_mode : String = or_else (mode_of (lookup chat_id s.sessions)) "ask" in
    record s {
      sessions =
          where_delete (λ (r : FeishuSession). r.chat_id == chat_id) s.sessions
          ++ pending_session now chat_id chat_type owner_open_id pending_cwd approval_mode ∷ [];
    }

unfoldable pub get_approval_mode : String → FeishuStore → Option String
get_approval_mode chat_id s = mode_of (lookup chat_id s.sessions)

abbrev pub with_mode : ℕ → String → FeishuSession → FeishuSession
with_mode now mode r = record r { approval_mode = mode; updated_at = now }

-- The update is committed before its row count is tested.
unfoldable pub set_approval_mode :
    ℕ → String → String → FeishuStore → Outcome ErrorCode String × FeishuStore
set_approval_mode now chat_id mode s =
    let here : FeishuSession → Bool = λ r. r.chat_id == chat_id in
    let s' : FeishuStore = record s {
      sessions = where_update here (with_mode now mode) s.sessions;
    } in
    if mode == "ask" || mode == "auto" || mode == "full"
    then (if eqb (rowcount here s.sessions) 1
        then (ok mode, s')
        else (raised feishu_no_active_session, s'))
    else (raised feishu_approval_mode_invalid, s)

-- A dictionary of settings. `d[k] = v`, and the `dict.update` of the keys of another.
pub put_setting :
    String → Option String → List (String × Option String) → List (String × Option String)
put_setting k v [] = (k, v) ∷ []
put_setting k v ((j, w) ∷ d) =
    let rest = put_setting k v d in if j == k then (k, v) ∷ d else (j, w) ∷ rest

pub get_setting : String → List (String × Option String) → Option (Option String)
get_setting k [] = none
get_setting k ((j, w) ∷ d) = if j == k then some w else get_setting k d

pub update_settings :
    List (String × Option String) → List (String × Option String) → List (String × Option String)
update_settings [] d = d
update_settings ((k, v) ∷ changes) d = update_settings changes (put_setting k v d)

abbrev pub is_allowed : String → Bool
is_allowed k = k == "model" || k == "reasoning_effort" || k == "service_tier"

abbrev pub all_allowed : List (String × Option String) → Bool
all_allowed [] = true
all_allowed ((k, v) ∷ changes) = is_allowed k && all_allowed changes

abbrev pub is_empty : List (String × Option String) → Bool
is_empty [] = true
is_empty _ = false

abbrev only_allowed : List (String × Option String) → List (String × Option String)
only_allowed [] = []
only_allowed ((k, v) ∷ d) =
    let rest = only_allowed d in if is_allowed k then (k, v) ∷ rest else rest

abbrev pending_settings_of : Option FeishuSession → List (String × Option String)
pending_settings_of none = []
pending_settings_of (some r) =
    if is_pending_initial r.state then only_allowed (or_else r.pending_settings_json []) else []

unfoldable pub get_pending_thread_settings : String → FeishuStore → List (String × Option String)
get_pending_thread_settings chat_id s = pending_settings_of (lookup chat_id s.sessions)

abbrev pub with_settings : ℕ → List (String × Option String) → FeishuSession → FeishuSession
with_settings now settings r = record r { pending_settings_json = some settings; updated_at = now }

abbrev change_settings :
    ℕ
    → String
    → List (String × Option String)
    → FeishuStore
    → Option FeishuSession
    → Outcome ErrorCode (List (String × Option String)) × FeishuStore
change_settings now chat_id changes s none = (raised feishu_no_pending_session, s)
change_settings now chat_id changes s (some row) =
    let settings : List (String × Option String) =
      update_settings changes (or_else row.pending_settings_json []) in
    let s' : FeishuStore = record s {
      sessions =
          where_update (λ (r : FeishuSession). r.chat_id == chat_id) (with_settings now settings)
            s.sessions;
    } in
    if is_pending_initial row.state
    then (ok (get_pending_thread_settings chat_id s'), s')
    else (raised feishu_no_pending_session, s)

unfoldable pub update_pending_thread_settings :
    ℕ
    → String
    → List (String × Option String)
    → FeishuStore
    → Outcome ErrorCode (List (String × Option String)) × FeishuStore
unfolding get_pending_thread_settings update_settings put_setting
update_pending_thread_settings now chat_id changes s =
    if is_empty changes || not (all_allowed changes)
    then (raised feishu_pending_settings_invalid, s)
    else change_settings now chat_id changes s (lookup chat_id s.sessions)

abbrev pub bound_to : ℕ → String → FeishuSession → FeishuSession
bound_to now thread_id r = record r {
  state = bound;
  thread_id = some thread_id;
  pending_cwd = none;
  pending_settings_json = none;
  updated_at = now;
}

-- the chats other than `chat_id` that are bound to the thread
abbrev pub bound_elsewhere : String → String → FeishuSession → Bool
bound_elsewhere chat_id thread_id r = is_value r.thread_id thread_id && not (r.chat_id == chat_id)

abbrev pub bind_unless :
    ℕ
    → String
    → String
    → FeishuStore
    → Option FeishuSession
    → Outcome ErrorCode (Unit {0}) × FeishuStore
bind_unless now chat_id thread_id s (some other) = (raised feishu_thread_already_bound, s)
bind_unless now chat_id thread_id s none = (
  ok tt,
  record s {
    sessions =
        where_update (λ (r : FeishuSession). r.chat_id == chat_id) (bound_to now thread_id)
          s.sessions;
  },
)

unfoldable pub bind_session :
    ℕ → String → String → FeishuStore → Outcome ErrorCode (Unit {0}) × FeishuStore
bind_session now chat_id thread_id s =
    bind_unless now chat_id thread_id s
      (first (where_select (bound_elsewhere chat_id thread_id) s.sessions))

unfoldable pub unbind_session : String → FeishuStore → FeishuStore
unbind_session chat_id s = record s {
  sessions = where_delete (λ (r : FeishuSession). r.chat_id == chat_id) s.sessions;
}

abbrev selectable : String → Bool
selectable surface = surface == "chat" || surface == "code"

abbrev pub surface_of : Option SurfaceState → Option String
surface_of none = none
surface_of (some r) = if selectable r.selected_surface then some r.selected_surface else none

unfoldable pub get_selected_surface_or_none : String → FeishuStore → Option String
get_selected_surface_or_none chat_id s = surface_of (lookup chat_id s.surfaces)

unfoldable pub get_selected_surface : String → FeishuStore → String
unfolding get_selected_surface_or_none
get_selected_surface chat_id s = or_else (get_selected_surface_or_none chat_id s) "code"

abbrev pub selected : ℕ → String → SurfaceState → SurfaceState
selected now surface r = record r { selected_surface = surface; updated_at = now }

unfoldable pub set_selected_surface :
    ℕ → String → String → FeishuStore → Outcome ErrorCode (Unit {0}) × FeishuStore
set_selected_surface now chat_id surface s =
    if selectable surface
    then (
      ok tt,
      record s {
        surfaces =
            if has chat_id s.surfaces
            then where_update (λ (r : SurfaceState). r.chat_id == chat_id) (selected now surface)
                s.surfaces
            else s.surfaces
              ++ record { chat_id = chat_id; selected_surface = surface; updated_at = now } ∷ [];
      },
    )
    else (raised feishu_surface_invalid, s)
