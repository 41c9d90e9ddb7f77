-- ===== src/Storage.antt =====
-- src/cfr/storage/db.py: `BindingStore`, the table of the native threads that CFR knows and the
-- table that keeps a rollout event from being shown twice.
pub mod Events
pub mod Busy
pub mod Turns
mod Examples
use codex_feishu_remoter.Prelude.{
  ℕ, String, ◌+◌, ◌-◌, Bool, true, false, not, ◌&&◌, ◌||◌, ◌==◌, Option, none, some, List, [], ◌∷◌,
  ◌++◌, map, if◌then◌else◌, ltb, leb, eqb, is_null, is_some, or_else, text_leb, Keyed, lookup, has,
  where_update, where_delete, where_select, rowcount, upsert, order_by, first, max,
}
use codex_feishu_remoter.Prelude.Caps.{key_in, keep_first}

-- codex_bindings, with the columns that `_record` reads
pub record BindingRow : Type 0 where
  pub thread_id : String
  pub thread_name : Option String
  pub cwd : String
  pub rollout_path : String
  pub last_rollout_byte_offset : ℕ
  pub last_seen_turn_id : Option String
  pub desktop_sync_state : String
  pub active_turn_id : Option String
  pub writer_state : Option String
  pub observed_model : Option String
  pub observed_reasoning_effort : Option String
  pub observed_service_tier : Option String
  pub observed_settings_at : Option ℕ
  pub created_at : ℕ
  pub updated_at : ℕ

instance abbrev pub binding_keyed : Keyed BindingRow
binding_keyed = record { key = λ r. r.thread_id }

-- what `_record` makes of a row
pub record BindingRecord : Type 0 where
  pub thread_id : String
  pub thread_name : Option String
  pub cwd : String
  pub rollout_path : Option String
  pub last_rollout_byte_offset : ℕ
  pub last_seen_turn_id : Option String
  pub desktop_sync_state : String
  pub active_turn_id : Option String
  pub writer_state : String
  pub observed_model : Option String
  pub observed_reasoning_effort : Option String
  pub observed_service_tier : Option String
  pub observed_settings_at : Option ℕ
  pub created_at : ℕ
  pub updated_at : ℕ

-- `text or default`, for a text that may be null
abbrev pub text_or : Option String → String → String
text_or none default = default
text_or (some text) default = if text == "" then default else text

-- `_record`
abbrev pub record_of : BindingRow → BindingRecord
record_of r = record {
  thread_id = r.thread_id;
  thread_name = r.thread_name;
  cwd = r.cwd;
  rollout_path = if r.rollout_path == "" then none else some r.rollout_path;
  last_rollout_byte_offset = r.last_rollout_byte_offset;
  last_seen_turn_id = r.last_seen_turn_id;
  desktop_sync_state = text_or (some r.desktop_sync_state) "up_to_date";
  active_turn_id = r.active_turn_id;
  writer_state = text_or r.writer_state "idle";
  observed_model = r.observed_model;
  observed_reasoning_effort = r.observed_reasoning_effort;
  observed_service_tier = r.observed_service_tier;
  observed_settings_at = r.observed_settings_at;
  created_at = r.created_at;
  updated_at = r.updated_at;
}

-- event_dedupe
pub record EventRow : Type 0 where
  pub event_key : String
  pub created_at : ℕ

instance abbrev pub event_keyed : Keyed EventRow
event_keyed = record { key = λ r. r.event_key }

pub record BindingStore : Type 0 where
  pub bindings : List BindingRow
  pub events : List EventRow

-- what `upsert_binding` reads of its argument
pub record ThreadRef : Type 0 where
  pub thread_id : String
  pub name : Option String
  pub cwd : String
  pub rollout_path : Option String

abbrev pub new_binding : ℕ → ThreadRef → BindingRow
new_binding now ref = record {
  thread_id = ref.thread_id;
  thread_name = ref.name;
  cwd = ref.cwd;
  rollout_path = or_else ref.rollout_path "";
  last_rollout_byte_offset = 0;
  last_seen_turn_id = none;
  desktop_sync_state = "up_to_date";
  active_turn_id = none;
  writer_state = some "idle";
  observed_model = none;
  observed_reasoning_effort = none;
  observed_service_tier = none;
  observed_settings_at = none;
  created_at = now;
  updated_at = now;
}

-- `do update set`: an empty rollout path leaves the one that is there.
abbrev pub rebound : BindingRow → BindingRow → BindingRow
rebound new r = record r {
  thread_name = new.thread_name;
  cwd = new.cwd;
  rollout_path = if new.rollout_path == "" then r.rollout_path else new.rollout_path;
  updated_at = new.updated_at;
}

unfoldable pub upsert_binding : ℕ → ThreadRef → BindingStore → BindingStore
upsert_binding now ref s = record s {
  bindings = upsert (rebound (new_binding now ref)) (new_binding now ref) s.bindings;
}

abbrev pub found_binding : Option BindingRow → Option BindingRecord
found_binding none = none
found_binding (some r) = some (record_of r)

unfoldable pub get_binding : String → BindingStore → Option BindingRecord
get_binding thread_id s = found_binding (lookup thread_id s.bindings)

-- `limit`: `none` is no limit.
unfoldable pub list_bindings : Option ℕ → BindingStore → List BindingRecord
list_bindings limit s =
    map record_of
      (keep_first limit (order_by (λ (a b : BindingRow). leb b.updated_at a.updated_at) s.bindings))

unfoldable pub list_rollout_paths : BindingStore → List String
list_rollout_paths s =
    map (λ (r : BindingRow). r.rollout_path)
      (where_select (λ r. not (r.rollout_path == "")) s.bindings)

-- `active_turn_id is not null or coalesce(writer_state, 'idle') != 'idle'`
abbrev pub is_busy : BindingRow → Bool
is_busy r = is_some r.active_turn_id || not (or_else r.writer_state "idle" == "idle")

unfoldable pub has_busy_bindings : BindingStore → Bool
has_busy_bindings s = is_some (first (where_select is_busy s.bindings))

-- `update codex_bindings set … where thread_id=?`
abbrev pub update_thread : String → (BindingRow → BindingRow) → BindingStore → BindingStore
update_thread thread_id f s = record s {
  bindings = where_update (λ (r : BindingRow). r.thread_id == thread_id) f s.bindings;
}

unfoldable pub update_rollout_offset : ℕ → String → ℕ → BindingStore → BindingStore
update_rollout_offset now thread_id value s =
    update_thread thread_id (λ r. record r { last_rollout_byte_offset = value; updated_at = now }) s

unfoldable pub update_last_seen_turn : ℕ → String → String → BindingStore → BindingStore
update_last_seen_turn now thread_id turn_id s =
    update_thread thread_id (λ r. record r { last_seen_turn_id = some turn_id; updated_at = now }) s

unfoldable pub update_desktop_sync_state : ℕ → String → String → BindingStore → BindingStore
update_desktop_sync_state now thread_id state s =
    update_thread thread_id (λ r. record r { desktop_sync_state = state; updated_at = now }) s

-- the keys of `settings` that are there, each with its value or `None`
pub record ObservedSettings : Type 0 where
  pub model : Option (Option String)
  pub effort : Option (Option String)
  pub service_tier : Option (Option String)

abbrev pub observed : ℕ → ObservedSettings → BindingRow → BindingRow
observed at settings r = record r {
  observed_model = or_else settings.model r.observed_model;
  observed_reasoning_effort = or_else settings.effort r.observed_reasoning_effort;
  observed_service_tier = or_else settings.service_tier r.observed_service_tier;
  observed_settings_at = some at;
}

-- `at` is `observed_at`, or the time where that is `None`.
unfoldable pub update_observed_settings :
    ℕ → String → ObservedSettings → BindingStore → BindingStore
update_observed_settings at thread_id settings s =
    if is_null settings.model && (is_null settings.effort && is_null settings.service_tier)
    then s
    else update_thread thread_id (observed at settings) s

unfoldable pub update_rollout_path : ℕ → String → String → BindingStore → BindingStore
update_rollout_path now thread_id path s =
    update_thread thread_id (λ r. record r { rollout_path = path; updated_at = now }) s

abbrev pub turn_started : ℕ → String → String → BindingRow → BindingRow
turn_started now turn_id state r = record r {
  active_turn_id = some turn_id;
  writer_state = some state;
  last_seen_turn_id = some turn_id;
  updated_at = now;
}

unfoldable pub set_active_turn : ℕ → String → String → String → BindingStore → BindingStore
set_active_turn now thread_id turn_id state s =
    update_thread thread_id (turn_started now turn_id state) s

abbrev pub turn_cleared : ℕ → String → BindingRow → BindingRow
turn_cleared now state r = record r {
  active_turn_id = none;
  writer_state = some state;
  updated_at = now;
}

unfoldable pub clear_active_turn : ℕ → String → String → BindingStore → BindingStore
clear_active_turn now thread_id state s = update_thread thread_id (turn_cleared now state) s

abbrev pub with_writer : ℕ → String → BindingRow → BindingRow
with_writer now state r = record r { writer_state = some state; updated_at = now }

unfoldable pub set_writer_state : ℕ → String → String → BindingStore → BindingStore
set_writer_state now thread_id state s = update_thread thread_id (with_writer now state) s

-- An insert of a key that is there raises, and the event was seen.
unfoldable pub seen_event : ℕ → String → BindingStore → Bool × BindingStore
seen_event now key s = if has key s.events then (true, s) else (
  false,
  record s { events = s.events ++ record { event_key = key; created_at = now } ∷ [] },
)

-- `order by created_at,event_key`
abbrev pub event_order : EventRow → EventRow → Bool
event_order a b =
    ltb a.created_at b.created_at
    || (eqb a.created_at b.created_at && text_leb a.event_key b.event_key)

pub record PrunedEvents : Type 0 where
  pub before : ℕ
  pub after : ℕ
  pub deleted : ℕ

abbrev pub every_event : EventRow → Bool
every_event r = true

abbrev pub oldest : ℕ → List EventRow → List EventRow
oldest excess events = keep_first (some excess) (order_by event_order events)

-- The ages are numbers; `max(0, …)` of a negative one is 0. A cutoff before the start of the clock
-- is 0, and no time is before either.
unfoldable pub prune_event_dedupe : ℕ → ℕ → ℕ → BindingStore → PrunedEvents × BindingStore
prune_event_dedupe max_rows max_age_seconds now s =
    let recent : List EventRow =
      where_delete (λ (r : EventRow). ltb r.created_at (now - max_age_seconds)) s.events in
    let excess : ℕ = rowcount every_event recent - max 1 max_rows in
    let kept : List EventRow =
      if eqb excess 0
      then recent
      else where_delete (λ (r : EventRow). key_in r.event_key (oldest excess recent)) recent in
    let before : ℕ = rowcount every_event s.events in
    let after : ℕ = rowcount every_event kept in
    (
      record { before = before; after = after; deleted = before - after },
      record s { events = kept },
    )
