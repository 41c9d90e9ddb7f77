-- ===== src/Codex/Binding/Released.antt =====
-- `send_message` gives back both leases, whatever fails on the way.
use codex_feishu_remoter.Prelude.{
  ℕ, String, ◌≡◌, ◌⊎◌, refl, sym, ap, subst, ◌∙◌, inl, inr, Bool, true, false, ◌&&◌, ◌==◌, eq_refl,
  Option, none, some, List, arith, if◌then◌else◌, Bool-cases, lookup, Unique, Unique-upsert,
  lookup-where_delete, lookup-where_delete_self, Outcome, ok, raised,
}
use codex_feishu_remoter.Core.Telemetry.{TurnTelemetry}
use codex_feishu_remoter.Codex.RuntimeLease
use codex_feishu_remoter.Codex.RuntimeLease.{
  LeaseRow, generation_keyed, Database, CfrThreadRuntimeLease, LeaseError, lease_keyed, is_mine,
  is_held, new_row, handle_of, replacing, next_generation, granted, attempts,
}
use codex_feishu_remoter.Codex.RuntimeLease.Ops.{lookup-granted}
use codex_feishu_remoter.Codex.WriterLease
use codex_feishu_remoter.Codex.WriterLease.{
  LeaseState, cfr_active, external_active, WriterState, WriterLeaseManager, WriterError,
  writer_keyed, is_external, state_for,
}
use codex_feishu_remoter.Storage.{BindingRecord, get_binding, set_writer_state}
use codex_feishu_remoter.Codex.Turns.Run.{Fault, Arrival}
use codex_feishu_remoter.Codex.Turns.Run.Loop.{Call, Ended, run_turn}
use codex_feishu_remoter.Codex.Binding.{
  Adapter, Resume, resumed, rpc_error, broken, Chances, Sent, unless_fault, is_cfr,
  resume_bound_thread, project_turn, saved, after_turn, run_the_turn, after_resume, send_body,
  release_runtime, clean_up, with_writer_lease, with_heartbeat, with_lease, with_binding,
  send_message,
}

-- Neither lease of the thread is newly held.
pub record IsReleased (thread_id : String) (before after : Adapter) : Type 0 where
  pub writer : (is_cfr (state_for thread_id after.leases) ≡ false) ⊎ (after.leases ≡ before.leases)
  pub runtime : (lookup thread_id after.database.leases ≡ none) ⊎ (after.database ≡ before.database)

-- The table holds the row of the handle.
pub record Holds (thread_id : String) (lease : CfrThreadRuntimeLease) (db : Database) : Type 0 where
  pub row : LeaseRow
  pub found : lookup thread_id db.leases ≡ some row
  pub mine : is_mine lease row ≡ true
  pub unique : Unique db.leases

abbrev pub Acquired :
    String → Database → Outcome LeaseError CfrThreadRuntimeLease × Database → Type 0
Acquired thread_id before (raised e, db) = db ≡ before
Acquired thread_id before (ok lease, db) = Holds thread_id lease db

pub acquire-Acquired :
    (c : Chances) (thread_id : String) (db : Database)
    → Unique db.leases
    → Acquired thread_id db
        (RuntimeLease.acquire c.manager c.alive c.lease_busy c.now c.lease_id thread_id db)
unfolding RuntimeLease.acquire
acquire-Acquired c thread_id db u = either c.lease_busy _ _ refl (
    either (is_held c.alive c.now (lookup thread_id db.leases)) _
      (granted c.manager c.now c.lease_id thread_id db) refl held)
  where
    either :
        (b : Bool) (x y : Outcome LeaseError CfrThreadRuntimeLease × Database)
        → Acquired thread_id db x
        → Acquired thread_id db y
        → Acquired thread_id db (if b then x else y)
    either true x y p q = p
    either false x y p q = q

    held : Acquired thread_id db (granted c.manager c.now c.lease_id thread_id db)
    held =
        let generation : ℕ = next_generation (lookup thread_id db.generations) in
        let new : LeaseRow = new_row c.manager c.now c.lease_id thread_id generation in
        let put = lookup-granted new db.leases thread_id in
        record {
          row = new;
          found = put ∙ rw (eq_refl thread_id) refl;
          mine =
              ground (arith, eq_refl thread_id, eq_refl c.lease_id, eq_refl c.manager.instance_id);
          unique = Unique-upsert (replacing new) (λ r. refl) new db.leases u;
        }

pub release_gone :
    (c : Chances) (thread_id : String) (lease : CfrThreadRuntimeLease) (db : Database)
    → (c.release_fails.0 && (c.release_fails.1.0 && c.release_fails.1.1)) ≡ false
    → Holds thread_id lease db
    → lookup thread_id (release_runtime c lease db).1.leases ≡ none
unfolding RuntimeLease.release
release_gone c thread_id lease db works h =
    let gone = lookup-where_delete (is_mine lease) thread_id db.leases h.unique in
    ground (arith, gone, works, h.found, h.mine)

-- The body leaves the durable leases alone.
abbrev pub Same : {R : Type 0} → Database → Sent R → Type 0
Same db (o, a) = a.database ≡ db

pub if_Same :
    {R : Type 0} (db : Database) (b : Bool) (x y : Sent R)
    → Same db x
    → Same db y
    → Same db (if b then x else y)
if_Same db true x y p q = p
if_Same db false x y p q = q

pub unless_fault-Same :
    {R : Type 0} (db : Database) (f : Option Fault) (next : Adapter → Sent R) (a : Adapter)
    → a.database ≡ db
    → Same db (next a)
    → Same db (unless_fault f next a)
unless_fault-Same db none next a p q = q
unless_fault-Same db (some e) next a p q = p

after_turn-Same :
    (c : Chances) (thread_id : String) (a : Adapter) (out : Ended)
    → Same a.database (after_turn c thread_id a out)
after_turn-Same c thread_id a (raised e, (registry, r)) = refl
after_turn-Same c thread_id a (ok turn, (registry, r)) = if_Same a.database c.lost_after _ _ refl (
    unless_fault-Same a.database c.saved_fault (saved c thread_id turn)
      (record a { registry = registry }) refl refl)

run_the_turn-Same :
    (c : Chances) (call : Call) (t : TurnTelemetry) (arrivals : List Arrival) (a : Adapter)
    → Same a.database (run_the_turn c call t arrivals a)
run_the_turn-Same c call t arrivals a = if_Same a.database c.lost_before _ _ refl (
    after_turn-Same c call.thread_id
      (record a { store = project_turn c call.thread_id call.response a.store })
      (run_turn call t arrivals a.registry))

after_resume-Same :
    (c : Chances) (call : Call) (t : TurnTelemetry) (arrivals : List Arrival) (a : Adapter)
    (r : Resume)
    → Same a.database (after_resume c call t arrivals a r)
after_resume-Same c call t arrivals a (broken e) = refl
after_resume-Same c call t arrivals a (rpc_error archived false e) = refl
after_resume-Same c call t arrivals a (rpc_error archived true e) = refl
after_resume-Same c call t arrivals a (resumed ref settings) =
    if_Same a.database (ref.thread_id == call.thread_id) _ _
      (unless_fault-Same a.database c.observe_fault _ a refl
        (run_the_turn-Same c call t arrivals _))
      refl

send_body-Same :
    (c : Chances) (call : Call) (t : TurnTelemetry) (arrivals : List Arrival) (a : Adapter)
    → Same a.database (send_body c call t arrivals a)
unfolding send_body
send_body-Same c call t arrivals a =
    elim c.writer_projection_fails
      as (λ b. Same a.database (
        unless_fault c.client_fault (λ x. after_resume c call t arrivals x (resume_bound_thread c))
          (if b then a else record a {
            store = set_writer_state c.now call.thread_id "cfr_active" a.store;
          }))) [
            | true ↦
                unless_fault-Same a.database c.client_fault _ a refl
                  (after_resume-Same c call t arrivals a (resume_bound_thread c))
            | false ↦
                unless_fault-Same a.database c.client_fault _ _ refl
                  (after_resume-Same c call t arrivals _ (resume_bound_thread c))
          ]

writer_free :
    (thread_id : String) (leases : WriterLeaseManager)
    → is_cfr (
        state_for thread_id (
          if is_cfr (state_for thread_id leases)
          then WriterLease.release thread_id leases
          else leases))
      ≡ false
unfolding WriterLease.release state_for
writer_free thread_id leases = elim (Bool-cases (is_cfr (state_for thread_id leases))) [
  | inl ours ↦
      let gone = lookup-where_delete_self thread_id leases in
      ap
        (λ b.
          is_cfr (state_for thread_id (if b then WriterLease.release thread_id leases else leases)))
        ours
      ∙ ap (λ x. is_cfr (WriterLease.state_or_idle x)) gone
  | inr other ↦
      ap
        (λ b.
          is_cfr (state_for thread_id (if b then WriterLease.release thread_id leases else leases)))
        other
      ∙ other
]

-- `Works` says that one of the three attempts to release a lease reaches the database.
abbrev pub Works : Chances → Type 0
Works c = (c.release_fails.0 && (c.release_fails.1.0 && c.release_fails.1.1)) ≡ false

pub clean_up-IsReleased :
    {R : Type 0} (c : Chances) (thread_id : String) (lease : CfrThreadRuntimeLease)
    (before : Adapter) (out : Sent R)
    → Works c
    → Holds thread_id lease out.1.database
    → IsReleased thread_id before (clean_up c thread_id lease out).1
unfolding clean_up
clean_up-IsReleased c thread_id lease before (o, a) works h = record {
  writer = inl (writer_free thread_id a.leases);
  runtime = inl (release_gone c thread_id lease a.database works h);
}

body-IsReleased :
    (c : Chances) (call : Call) (t : TurnTelemetry) (arrivals : List Arrival)
    (lease : CfrThreadRuntimeLease) (before a : Adapter)
    → Works c
    → Holds call.thread_id lease a.database
    → IsReleased call.thread_id before
        (clean_up c call.thread_id lease (send_body c call t arrivals a)).1
body-IsReleased c call t arrivals lease before a works h =
    clean_up-IsReleased c call.thread_id lease before (send_body c call t arrivals a) works
      (subst (Holds call.thread_id lease) (sym (send_body-Same c call t arrivals a)) h)

writer-IsReleased :
    (c : Chances) (call : Call) (t : TurnTelemetry) (arrivals : List Arrival)
    (lease : CfrThreadRuntimeLease) (before a : Adapter)
    (o : Outcome WriterError (Unit {0}) × WriterLeaseManager)
    → Works c
    → Holds call.thread_id lease a.database
    → a.leases ≡ before.leases
    → IsReleased call.thread_id before (with_writer_lease c call t arrivals lease a o).1
writer-IsReleased c call t arrivals lease before a (raised e, leases) works h same = record {
  writer = inr same;
  runtime = inl (release_gone c call.thread_id lease a.database works h);
}
writer-IsReleased c call t arrivals lease before a (ok u, leases) works h same =
    body-IsReleased c call t arrivals lease before (record a { leases = leases }) works h

heartbeat-IsReleased :
    (c : Chances) (call : Call) (t : TurnTelemetry) (arrivals : List Arrival)
    (lease : CfrThreadRuntimeLease) (before a : Adapter) (f : Option Fault)
    → Works c
    → Holds call.thread_id lease a.database
    → a.leases ≡ before.leases
    → IsReleased call.thread_id before (with_heartbeat c call t arrivals lease f a).1
heartbeat-IsReleased c call t arrivals lease before a (some e) works h same = record {
  writer = inr same;
  runtime = inl (release_gone c call.thread_id lease a.database works h);
}
heartbeat-IsReleased c call t arrivals lease before a none works h same =
    elim (is_external (state_for call.thread_id a.leases))
      as (λ b.
        IsReleased call.thread_id before
          (if b
            then clean_up c call.thread_id lease (send_body c call t arrivals a)
            else with_writer_lease c call t arrivals lease a
                (WriterLease.acquire call.thread_id a.leases)).1) [
                  | true ↦ body-IsReleased c call t arrivals lease before a works h
                  | false ↦
                      writer-IsReleased c call t arrivals lease before a
                        (WriterLease.acquire call.thread_id a.leases) works h same
                ]

lease-IsReleased :
    (c : Chances) (call : Call) (t : TurnTelemetry) (arrivals : List Arrival) (a : Adapter)
    (o : Outcome LeaseError CfrThreadRuntimeLease × Database)
    → Works c
    → Acquired call.thread_id a.database o
    → IsReleased call.thread_id a (with_lease c call t arrivals a o).1
lease-IsReleased c call t arrivals a (raised e, db) works h = record {
  writer = inr refl;
  runtime = inr h;
}
lease-IsReleased c call t arrivals a (ok lease, db) works h =
    heartbeat-IsReleased c call t arrivals lease a (record a { database = db }) c.heartbeat_fault
      works h refl

binding-IsReleased :
    (c : Chances) (call : Call) (t : TurnTelemetry) (arrivals : List Arrival) (a : Adapter)
    (b : Option BindingRecord)
    → Works c
    → Unique a.database.leases
    → IsReleased call.thread_id a (with_binding c call t arrivals a b).1
binding-IsReleased c call t arrivals a none works u = record {
  writer = inr refl;
  runtime = inr refl;
}
binding-IsReleased c call t arrivals a (some b) works u =
    lease-IsReleased c call t arrivals a _ works (acquire-Acquired c call.thread_id a.database u)

-- However a call of `send_message` ends, and whatever fails in it, the thread has no durable lease
-- after it or the durable leases are as before, and this process is not writing to the thread or the
-- writer leases are as before, if one of the three attempts to release the durable lease can write.
pub send_message-IsReleased :
    (c : Chances) (call : Call) (t : TurnTelemetry) (arrivals : List Arrival) (a : Adapter)
    → Works c
    → Unique a.database.leases
    → IsReleased call.thread_id a (send_message c call t arrivals a).1
unfolding send_message
send_message-IsReleased c call t arrivals a works u =
    binding-IsReleased c call t arrivals a (get_binding call.thread_id a.store) works u
