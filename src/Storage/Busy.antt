-- ===== src/Storage/Busy.antt =====
-- Which threads a restart of the desktop would disturb.
use codex_feishu_remoter.Prelude.{
  lookup, ◌≡◌, ◌≢◌, ◌↔◌, refl, ap, subst, eq_iff, Option, none, inl, inr, String, true, false, some,
  arith, Option-cases, Unique, where_select, first, All, All-map, All-lookup, All_at_lookup,
  All-where_select, All_first, none_selected,
}
use codex_feishu_remoter.Storage.{
  BindingStore, BindingRow, BindingRecord, record_of, found_binding, binding_keyed, get_binding,
  is_busy, has_busy_bindings,
}

-- no turn, and the writer state that says so
abbrev pub IsIdle : BindingRecord → Type 0
IsIdle r = (r.active_turn_id ≡ none) × (r.writer_state ≡ "idle")

row-IsIdle : (r : BindingRow) → r.writer_state ≢ some "" → is_busy r ≡ false → IsIdle (record_of r)
row-IsIdle r filled h = elim (Option-cases r.writer_state) [
  | inl absent ↦ ground (arith, absent, h)
  | inr (state, there) ↦ ground (arith, there, h, filled, eq_iff state "idle", eq_iff state "")
]

not_busy_of : (r : BindingRow) → r.writer_state ≢ some "" → IsIdle (record_of r) → is_busy r ≡ false
not_busy_of r filled h = elim (Option-cases r.writer_state) [
  | inl absent ↦ rw (h.0, absent) refl
  | inr (state, there) ↦
      ground (arith, there, h.0, h.1, filled, eq_iff state "idle", eq_iff state "")
]

abbrev IdleOr : Option BindingRecord → Type 0
IdleOr none = Unit
IdleOr (some r) = IsIdle r

abbrev BusyAndNot : BindingRow → Type 0
BusyAndNot r = (is_busy r ≡ true) × (is_busy r ≡ false)

none_busy :
    (s : BindingStore) → has_busy_bindings s ≡ false → All (λ r. is_busy r ≡ false) s.bindings
unfolding has_busy_bindings
none_busy s h = elim (Option-cases (first (where_select is_busy s.bindings))) [
  | inl absent ↦ none_selected is_busy s.bindings absent
  | inr (r, found) ↦ ground (arith, found)
]

lookup-IsIdle :
    (s : BindingStore)
    → All (λ r. r.writer_state ≢ some "") s.bindings
    → has_busy_bindings s ≡ false
    → (thread_id : String) (r : BindingRecord) (row : Option BindingRow)
    → lookup thread_id s.bindings ≡ row
    → found_binding row ≡ some r
    → IsIdle r
lookup-IsIdle s filled h thread_id r none at e = cc e
lookup-IsIdle s filled h thread_id r (some row) at e = subst IdleOr e (
    row-IsIdle row
      (All_at_lookup (λ p. p.writer_state ≢ some "") thread_id s.bindings row at filled)
      (All_at_lookup (λ q. is_busy q ≡ false) thread_id s.bindings row at (none_busy s h)))

-- In a store where no row has an empty text as its writer state (of which `get_binding` makes `idle`),
-- `has_busy_bindings` is false exactly if each thread that `get_binding` finds has no active turn, and
-- `idle` as its writer state.
pub has_busy_bindings_iff :
    (s : BindingStore)
    → Unique s.bindings
    → All (λ r. r.writer_state ≢ some "") s.bindings
    → (has_busy_bindings s ≡ false)
      ↔ ((thread_id : String) (r : BindingRecord) → get_binding thread_id s ≡ some r → IsIdle r)
unfolding has_busy_bindings get_binding
has_busy_bindings_iff s u filled = (
  (λ h thread_id r found.
      lookup-IsIdle s filled h thread_id r (lookup thread_id s.bindings) refl found),
  (λ idle. elim (Option-cases (first (where_select is_busy s.bindings))) [
    | inl absent ↦ rw absent refl
    | inr (r, found) ↦
        let both : (is_busy r ≡ true) × (is_busy r ≡ false) = All_first BusyAndNot _ r found (
          All-where_select BusyAndNot is_busy s.bindings (
            All-map _ _
              (λ q there passes. (
                passes,
                not_busy_of q
                    (All_at_lookup (λ p. p.writer_state ≢ some "") q.thread_id s.bindings q there
                      filled)
                    (idle q.thread_id (record_of q) (ap found_binding there)),
              ))
              s.bindings (All-lookup s.bindings u))) in
        cc (both.0, both.1)
  ]),
)
