-- ===== src/Storage/Turns.antt =====
-- The turn of a thread, from its start to its end, and the binding under an upsert.
use codex_feishu_remoter.Prelude.{
  ℕ, ◌≡◌, ◌≢◌, refl, ap, ◌∙◌, inl, inr, String, Bool, true, false, ◌==◌, eq_iff, eq_refl, none,
  some, arith, if◌then◌else◌, or_else, Option-cases, lookup, lookup-key, lookup-where_update,
  lookup-upsert,
}
use codex_feishu_remoter.Storage.{
  BindingStore, BindingRow, binding_keyed, ThreadRef, new_binding, rebound, upsert_binding, is_busy,
  update_thread, turn_started, set_active_turn, turn_cleared, clear_active_turn,
}

-- what an update of one thread does to the others, and to it
update-get :
    (thread : String) (f : BindingRow → BindingRow) (s : BindingStore) (r : BindingRow)
    → ((q : BindingRow) → (f q).thread_id ≡ q.thread_id)
    → lookup thread s.bindings ≡ some r
    → (lookup thread (update_thread thread f s).bindings ≡ some (f r))
      × ((other : String)
          → other ≢ thread
          → lookup other (update_thread thread f s).bindings ≡ lookup other s.bindings)
update-get thread f s r keeps found =
    let here : BindingRow → Bool = λ q. q.thread_id == thread in
    (
      ground (
        arith,
        found,
        lookup-where_update here f keeps thread s.bindings,
        eq_iff r.thread_id thread,
        lookup-key thread s.bindings r found,
      ),
      (λ other n. elim (Option-cases (lookup other s.bindings)) [
        | inl absent ↦ ground (arith, absent, lookup-where_update here f keeps other s.bindings)
        | inr (q, there) ↦ ground (
          arith,
          there,
          lookup-where_update here f keeps other s.bindings,
          eq_iff q.thread_id thread,
          lookup-key other s.bindings q there,
        )
      ]),
    )

-- A turn that is started on a thread makes it busy and is the last turn that it saw; ended with the
-- state `idle`, the thread is not busy and still shows it as the last. No other thread changes.
pub set-clear_active_turn :
    (start finish : ℕ) (thread turn state : String) (s : BindingStore) (r : BindingRow)
    → lookup thread s.bindings ≡ some r
    → (lookup thread (set_active_turn start thread turn state s).bindings
        ≡ some (turn_started start turn state r))
      × (is_busy (turn_started start turn state r) ≡ true)
      × (lookup thread
            (clear_active_turn finish thread "idle"
              (set_active_turn start thread turn state s)).bindings
          ≡ some (turn_cleared finish "idle" (turn_started start turn state r)))
      × (is_busy (turn_cleared finish "idle" (turn_started start turn state r)) ≡ false)
      × ((turn_cleared finish "idle" (turn_started start turn state r)).last_seen_turn_id
          ≡ some turn)
      × ((other : String)
          → other ≢ thread
          → lookup other
              (clear_active_turn finish thread "idle"
                (set_active_turn start thread turn state s)).bindings
            ≡ lookup other s.bindings)
unfolding set_active_turn clear_active_turn
set-clear_active_turn start finish thread turn state s r found =
    let begun = update-get thread (turn_started start turn state) s r (λ q. refl) found in
    let s' = update_thread thread (turn_started start turn state) s in
    let ended =
      update-get thread (turn_cleared finish "idle") s' (turn_started start turn state r)
        (λ q. refl) begun.0 in
    (begun.0, refl, ended.0, refl, refl, (λ other n. ended.1 other n ∙ begun.1 other n))

-- what an upsert of a known thread keeps of its row
pub record IsRebound (now : ℕ) (ref : ThreadRef) (r r' : BindingRow) : Type 0 where
  pub turn : r'.active_turn_id ≡ r.active_turn_id
  pub writer : r'.writer_state ≡ r.writer_state
  pub offset : r'.last_rollout_byte_offset ≡ r.last_rollout_byte_offset
  pub last_seen : r'.last_seen_turn_id ≡ r.last_seen_turn_id
  pub created : r'.created_at ≡ r.created_at
  pub moved : (path : String) → ref.rollout_path ≡ some path → path ≢ "" → r'.rollout_path ≡ path
  pub stays : ref.rollout_path ≡ none → r'.rollout_path ≡ r.rollout_path
  pub placed : (r'.cwd ≡ ref.cwd) × (r'.thread_name ≡ ref.name)

-- `upsert_binding` of a known thread gives its row the new name and directory and, if one is given,
-- the new rollout path; the active turn, the writer, the rollout offset and the last turn stay, and
-- so do the rows of the other threads.
pub upsert_binding-IsRebound :
    (now : ℕ) (ref : ThreadRef) (s : BindingStore) (r : BindingRow)
    → lookup ref.thread_id s.bindings ≡ some r
    → ((r' : BindingRow) × (lookup ref.thread_id (upsert_binding now ref s).bindings ≡ some r')
        × IsRebound now ref r r')
      × ((other : String)
          → other ≢ ref.thread_id
          → lookup other (upsert_binding now ref s).bindings ≡ lookup other s.bindings)
unfolding upsert_binding
upsert_binding-IsRebound now ref s r found =
    let new = new_binding now ref in
    let after = λ (k : String). lookup-upsert (rebound new) (λ q. refl) new k s.bindings in
    (
      (
        rebound new r,
        (after ref.thread_id ∙ rw (eq_refl ref.thread_id, found) refl),
        record {
          turn = refl;
          writer = refl;
          offset = refl;
          last_seen = refl;
          created = refl;
          moved = λ path e n. ground (arith, e, eq_iff path "");
          stays = λ e. ap (λ p. if or_else p "" == "" then r.rollout_path else or_else p "") e;
          placed = (refl, refl);
        },
      ),
      (λ other n. ground (arith, after other, eq_iff ref.thread_id other)),
    )
