-- ===== src/Feishu/Daemon/Schedule/Lost.antt =====
-- A message that comes between the test of a worker's `finally` block and the lock that follows it.
use codex_feishu_remoter.Prelude.{
  String, ◌≡◌, refl, ap, ◌∙◌, inl, inr, true, false, ◌==◌, eq_refl, none, some, List, [], ◌∷◌,
  arith, Bool-cases,
}
use codex_feishu_remoter.Feishu.Store.{FeishuStore}
use codex_feishu_remoter.Feishu.Store.Inbox.{next_queued_message_id}
use codex_feishu_remoter.Feishu.Daemon.Schedule.{
  Scheduler, Job, worked, checked, member, discard, enqueue, check, finish, at, Steps, stay,
  then_step, enqueues, checks, finishes, changes,
}
use codex_feishu_remoter.Feishu.Daemon.Schedule.Counts.{
  tokens, workers_on, workers_on-at, tokens-discard, not_member,
}
use codex_feishu_remoter.Feishu.Daemon.Schedule.Exclusive.{IsExclusive, Steps-IsExclusive}

-- A chat with a queued message that no token, worker or set knows of.
pub record IsLost {W : Type 0} (c : String) (d : Scheduler W) : Type 0 where
  pub message_id : String
  pub queued : next_queued_message_id c d.store ≡ some message_id
  pub no_token : tokens c d.queue ≡ 0
  pub no_worker : workers_on c d.jobs ≡ 0
  pub unscheduled : member c d.scheduled_chats ≡ false

tokens-none : (c : String) (cs : List String) → tokens c cs ≡ 0 → member c cs ≡ false
unfolding tokens
tokens-none c [] h = refl
tokens-none c (x ∷ cs) h = ground (arith, tokens-none c cs)

module _ {W : Type 0} where
  -- what `enqueue` does for a chat that is scheduled
  enqueue-jobs :
      (message_id c : String) (d : Scheduler W)
      → d.stopped ≡ false
      → (c == "") ≡ false
      → member c d.scheduled_chats ≡ true
      → ((enqueue message_id (some c) d).1.jobs ≡ d.jobs)
        × ((enqueue message_id (some c) d).1.store ≡ d.store)
  unfolding enqueue
  enqueue-jobs message_id c d running named here = ground (arith, running, named, here)

  enqueue-accepts :
      (message_id c : String) (d : Scheduler W)
      → d.stopped ≡ false
      → (c == "") ≡ false
      → (enqueue message_id (some c) d).0 ≡ true
  unfolding enqueue
  enqueue-accepts message_id c d running named = ground (arith, running, named)

  checked_empty :
      (before : List Job) (c : String) (after : List Job) (d : Scheduler W)
      → next_queued_message_id c d.store ≡ none
      → (check before c after true d).jobs ≡ at before c (checked false) after
  unfolding check
  checked_empty before c after d empty = rw empty refl

  -- In a daemon that is not stopped and where `IsExclusive` holds, as in all that are reached: a worker
  -- reads that its chat, which has a name, has no queued message; then the store comes to have one and
  -- `enqueue` answers `True` for it; and then the worker takes the lock and finishes. These are steps of
  -- the daemon, and after them the message is queued in the database and the chat has no token and no
  -- worker and is not scheduled.
  pub finish-IsLost :
      (before : List Job) (c : String) (after : List Job) (d : Scheduler W) (s : FeishuStore)
      (w : W) (message_id : String)
      → IsExclusive d
      → d.jobs ≡ at before c worked after
      → d.stopped ≡ false
      → (c == "") ≡ false
      → next_queued_message_id c d.store ≡ none
      → next_queued_message_id c s ≡ some message_id
      → let came =
          enqueue message_id
            (some c)
            (record (check before c after true d) { store = s; world = w }) in
        (came.0 ≡ true)
        × (Steps d (finish before c after false came.1)
            × IsLost c (finish before c after false came.1))
  unfolding finish check
  finish-IsLost before c after d s w message_id h e running named empty arrived =
      let d1 : Scheduler W = check before c after true d in
      let d2 : Scheduler W = record d1 { store = s; world = w } in
      let d3 : Scheduler W = (enqueue message_id (some c) d2).1 in
      let to_d2 : Steps d d2 =
        then_step (then_step (stay d) (checks before c after true d e)) (changes d1 s w) in
      let to_d3 : Steps d d3 = then_step to_d2 (enqueues message_id (some c) d2) in
      let h2 = Steps-IsExclusive d d2 to_d2 h in
      let h3 = Steps-IsExclusive d d3 to_d3 h in
      let one = workers_on-at c c (checked false) before after in
      let jobs2 : d2.jobs ≡ at before c (checked false) after =
        checked_empty before c after d empty in
      let here : member c d2.scheduled_chats ≡ true =
        elim (Bool-cases (member c d2.scheduled_chats)) [
          | inl m ↦ m
          | inr m ↦ absurd (
              ground (
                arith,
                h2.scheduled c,
                not_member c d2.scheduled_chats m,
                one,
                ap (workers_on c) jobs2,
                eq_refl c,
              ))
        ] in
      let kept = enqueue-jobs message_id c d2 running named here in
      let jobs3 : d3.jobs ≡ at before c (checked false) after = kept.0 ∙ jobs2 in
      let count3 = ap (workers_on c) jobs3 in
      (
        enqueue-accepts message_id c d2 running named,
        (
          then_step to_d3 (finishes before c after false d3 jobs3),
          record {
            message_id = message_id;
            queued = ap (λ x. next_queued_message_id c x) kept.1 ∙ arrived;
            no_token = ground (arith, h3.scheduled c, h3.once c, count3, one, eq_refl c);
            no_worker = ground (arith, h3.scheduled c, h3.once c, count3, one, eq_refl c);
            unscheduled =
                tokens-none c (discard c d3.scheduled_chats)
                  (ground (arith, tokens-discard c c d3.scheduled_chats, eq_refl c));
          },
        ),
      )
