-- ===== src/Feishu/Daemon/Schedule.antt =====
-- src/cfr/feishu/daemon.py: `enqueue` and the loop of `_worker`, as steps of the threads that share
-- the daemon. A step is what happens under `_queue_lock`, or one call of the store. The queue holds
-- chats; the sets are lists without repetition.
pub mod Counts
pub mod Exclusive
pub mod Lost
mod Examples
use codex_feishu_remoter.Prelude.{
  ℕ, suc, String, ◌+◌, ◌-◌, ◌≡◌, Bool, true, false, not, ◌&&◌, ◌||◌, ◌==◌, Option, none, some, List,
  [], ◌∷◌, ◌++◌, if◌then◌else◌, ltb, eqb, is_null, lookup, upsert, where_delete, where_select,
  Keyed,
}
use codex_feishu_remoter.Feishu.Model.{InboxRecord}
use codex_feishu_remoter.Feishu.Store.{FeishuStore}
use codex_feishu_remoter.Feishu.Store.Inbox.{get_inbox, next_queued_message_id}
use codex_feishu_remoter.Core.Telemetry.{keep_last}

-- an entry of `_chat_pending_counts`
pub record PendingCount : Type 0 where
  pub chat_id : String
  pub count : ℕ

instance abbrev pub pending_count_keyed : Keyed PendingCount
pending_count_keyed = record { key = λ r. r.chat_id }

-- Where a worker stands that has a chat: before `next_queued_message_id`, in `process_one`, before
-- the test of the `finally` block, and behind it with `queued_in_database`.
pub data Phase : Type 0 where
  taken worked : Phase
  processing : String → Phase
  checked : Bool → Phase

pub record Job : Type 0 where
  pub chat_id : String
  pub phase : Phase

-- `idle` counts the workers that wait for a chat; `failures` are the chats of `_worker_failures`.
pub record Scheduler (W : Type 0) : Type 0 where
  pub queue : List String
  pub pending_counts : List PendingCount
  pub scheduled_chats : List String
  pub active_chats : List String
  pub jobs : List Job
  pub idle : ℕ
  pub stopped : Bool
  pub failures : List String
  pub store : FeishuStore
  pub world : W

abbrev pub member : String → List String → Bool
member c [] = false
member c (d ∷ ds) = d == c || member c ds

-- `set.add` and `set.discard`
abbrev pub add : String → List String → List String
add c cs = if member c cs then cs else cs ++ c ∷ []

abbrev pub discard : String → List String → List String
discard c cs = where_delete (λ d. d == c) cs

abbrev count_of : Option PendingCount → ℕ → ℕ
count_of none default = default
count_of (some r) default = r.count

abbrev set_count : String → ℕ → List PendingCount → List PendingCount
set_count c n counts =
    upsert (λ (r : PendingCount). record r { count = n }) (record { chat_id = c; count = n }) counts

abbrev pop_count : String → List PendingCount → List PendingCount
pop_count c counts = where_delete (λ (r : PendingCount). r.chat_id == c) counts

-- The steps of a worker name the jobs before and after its own.
abbrev pub at : List Job → String → Phase → List Job → List Job
at before c phase after = before ++ record { chat_id = c; phase = phase } ∷ after

abbrev pub decrement : String → List PendingCount → List PendingCount
decrement c counts =
    let remaining = count_of (lookup c counts) 1 - 1 in
    if eqb remaining 0 then pop_count c counts else set_count c remaining counts

-- at most 20 failures are kept
abbrev pub max_failures : ℕ
max_failures = 20

module _ {W : Type 0} where
  -- the block of `enqueue` under the lock
  abbrev pub schedule : String → Scheduler W → Scheduler W
  schedule c d =
      let counted : Scheduler W = record d {
        pending_counts = set_count c (count_of (lookup c d.pending_counts) 0 + 1) d.pending_counts;
      } in
      if member c d.scheduled_chats then counted else record counted {
        scheduled_chats = d.scheduled_chats ++ c ∷ [];
        queue = d.queue ++ c ∷ [];
      }

  abbrev pub enqueue_row : Option InboxRecord → Scheduler W → Bool × Scheduler W
  enqueue_row none d = (false, d)
  enqueue_row (some r) d = (true, schedule r.chat_id d)

  abbrev pub enqueue_chat : String → Option String → Scheduler W → Bool × Scheduler W
  enqueue_chat message_id none d = enqueue_row (get_inbox message_id d.store) d
  enqueue_chat message_id (some c) d =
      if c == "" then enqueue_row (get_inbox message_id d.store) d else (true, schedule c d)

  unfoldable pub enqueue : String → Option String → Scheduler W → Bool × Scheduler W
  enqueue message_id chat_id d = if d.stopped then (false, d) else enqueue_chat message_id chat_id d

  -- A worker takes the token of a chat; a token of an active chat is dropped.
  abbrev pub take_from : List String → Scheduler W → Scheduler W
  take_from [] d = d
  take_from (c ∷ queue) d =
      if member c d.active_chats then record d { queue = queue } else record d {
        queue = queue;
        active_chats = d.active_chats ++ c ∷ [];
        jobs = d.jobs ++ record { chat_id = c; phase = taken } ∷ [];
        idle = d.idle - 1;
      }

  unfoldable pub take_chat : Scheduler W → Scheduler W
  take_chat d = take_from d.queue d

  abbrev pub pick_message : List Job → String → List Job → Option String → Scheduler W → Scheduler W
  pick_message before c after none d = record d { jobs = at before c worked after }
  pick_message before c after (some message_id) d = record d {
    jobs = at before c (processing message_id) after;
    pending_counts = decrement c d.pending_counts;
  }

  unfoldable pub pick : List Job → String → List Job → Scheduler W → Scheduler W
  pick before c after d = pick_message before c after (next_queued_message_id c d.store) d

  -- An exception is recorded, and the worker goes on.
  unfoldable pub fail : List Job → String → List Job → Scheduler W → Scheduler W
  fail before c after d = record d {
    jobs = at before c worked after;
    failures = keep_last max_failures (d.failures ++ c ∷ []);
  }

  -- `readable` is false where the database raises: then the chat counts as queued.
  unfoldable pub check : List Job → String → List Job → Bool → Scheduler W → Scheduler W
  check before c after readable d = record d {
    jobs =
        at before c (checked (not readable || not (is_null (next_queued_message_id c d.store))))
          after;
  }

  unfoldable pub finish : List Job → String → List Job → Bool → Scheduler W → Scheduler W
  finish before c after true d = record d {
    jobs = before ++ after;
    idle = d.idle + 1;
    active_chats = discard c d.active_chats;
    queue = d.queue ++ c ∷ [];
  }
  finish before c after false d = record d {
    jobs = before ++ after;
    idle = d.idle + 1;
    active_chats = discard c d.active_chats;
    pending_counts = pop_count c d.pending_counts;
    scheduled_chats = discard c d.scheduled_chats;
  }

-- where an exception is caught
abbrev pub raises : Phase → Bool
raises taken = true
raises (processing message_id) = true
raises worked = false
raises (checked queued) = false

-- The steps of the gateway, which stores a message and then enqueues it, of the workers, whose
-- `process_one` is any change of the store and the world, and of all others.
pub data Step {W : Type 0} : Scheduler W → Scheduler W → Type 0 where
  enqueues :
      (message_id : String) (chat_id : Option String) (d : Scheduler W)
      → Step d (enqueue message_id chat_id d).1
  takes : (d : Scheduler W) (n : ℕ) → d.idle ≡ suc n → Step d (take_chat d)
  picks :
      (before : List Job) (c : String) (after : List Job) (d : Scheduler W)
      → d.jobs ≡ at before c taken after
      → Step d (pick before c after d)
  processes :
      (before : List Job) (c message_id : String) (after : List Job) (d : Scheduler W)
      (s : FeishuStore) (w : W)
      → d.jobs ≡ at before c (processing message_id) after
      → Step d (record d { jobs = at before c worked after; store = s; world = w })
  fails :
      (before : List Job) (c : String) (phase : Phase) (after : List Job) (d : Scheduler W)
      → raises phase ≡ true
      → d.jobs ≡ at before c phase after
      → Step d (fail before c after d)
  checks :
      (before : List Job) (c : String) (after : List Job) (readable : Bool) (d : Scheduler W)
      → d.jobs ≡ at before c worked after
      → Step d (check before c after readable d)
  finishes :
      (before : List Job) (c : String) (after : List Job) (queued : Bool) (d : Scheduler W)
      → d.jobs ≡ at before c (checked queued) after
      → Step d (finish before c after queued d)
  changes : (d : Scheduler W) (s : FeishuStore) (w : W) → Step d (record d { store = s; world = w })
  stops : (d : Scheduler W) → Step d (record d { stopped = true })

pub data Steps {W : Type 0} : Scheduler W → Scheduler W → Type 0 where
  stay : (d : Scheduler W) → Steps d d
  then_step : {a b c : Scheduler W} → Steps a b → Step b c → Steps a c

-- the daemon as it is made
abbrev pub initial : {W : Type 0} → ℕ → FeishuStore → W → Scheduler W
initial workers s w = record {
  queue = [];
  pending_counts = [];
  scheduled_chats = [];
  active_chats = [];
  jobs = [];
  idle = workers;
  stopped = false;
  failures = [];
  store = s;
  world = w;
}

abbrev depth_of : List PendingCount → ℕ
depth_of [] = 0
depth_of (r ∷ rs) = r.count + depth_of rs

abbrev size : {A : Type 0} → List A → ℕ
size [] = 0
size (a ∷ rest) = suc (size rest)

-- the counts of `runtime_snapshot`
pub record Snapshot : Type 0 where
  pub queue_depth : ℕ
  pub queued_chats : ℕ
  pub active_chats : ℕ

unfoldable pub runtime_snapshot : {W : Type 0} → Scheduler W → Snapshot
runtime_snapshot d = record {
  queue_depth = depth_of d.pending_counts;
  queued_chats = size (where_delete (λ c. member c d.active_chats) d.scheduled_chats);
  active_chats = size d.active_chats;
}
