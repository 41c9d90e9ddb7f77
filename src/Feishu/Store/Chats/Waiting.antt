-- ===== src/Feishu/Store/Chats/Waiting.antt =====
-- Which turns wait for an approval.
use codex_feishu_remoter.Prelude.{
  ◌≡◌, refl, inl, inr, String, Bool, true, false, ◌&&◌, ◌||◌, ◌==◌, eq_iff, Option, none, some,
  List, [], ◌∷◌, arith, Bool-cases, is_value,
}
use codex_feishu_remoter.Feishu.Store.{FeishuStore, Approval, is_pending}
use codex_feishu_remoter.Feishu.Store.Chats.{
  has_turn, add_turn, turns_of, list_pending_approval_turns,
}

-- some pending approval is of the thread and the turn
abbrev pub waits : String → String → List Approval → Bool
waits thread_id turn_id [] = false
waits thread_id turn_id (a ∷ approvals) =
    (is_pending a.state && (a.thread_id == thread_id && is_value a.turn_id turn_id))
    || waits thread_id turn_id approvals

-- no pair stands twice
abbrev pub EachOnce : List (String × String) → Type 0
EachOnce [] = Unit
EachOnce ((t, u) ∷ turns) = (has_turn t u turns ≡ false) × EachOnce turns

add_turn-has :
    (pending : Bool) (thread_id : String) (turn_id : Option String) (turns : List (String × String))
    (t u : String)
    → has_turn t u (add_turn pending thread_id turn_id turns)
      ≡ ((pending && (thread_id == t && is_value turn_id u)) || has_turn t u turns)
add_turn-has false thread_id none turns t u = refl
add_turn-has false thread_id (some turn_id) turns t u = refl
add_turn-has true thread_id none turns t u = ground arith
add_turn-has true thread_id (some turn_id) turns t u =
    elim (Bool-cases (has_turn thread_id turn_id turns)) [
      | inl there ↦ ground (arith, there, eq_iff thread_id t, eq_iff turn_id u)
      | inr absent ↦ ground (arith, absent)
    ]

add_turn-EachOnce :
    (pending : Bool) (thread_id : String) (turn_id : Option String) (turns : List (String × String))
    → EachOnce turns
    → EachOnce (add_turn pending thread_id turn_id turns)
add_turn-EachOnce false thread_id none turns h = h
add_turn-EachOnce false thread_id (some turn_id) turns h = h
add_turn-EachOnce true thread_id none turns h = h
add_turn-EachOnce true thread_id (some turn_id) turns h =
    elim (Bool-cases (has_turn thread_id turn_id turns)) [
      | inl there ↦ rw there h
      | inr absent ↦ rw absent (absent, h)
    ]

turns_of-has :
    (approvals : List Approval) (t u : String)
    → has_turn t u (turns_of approvals) ≡ waits t u approvals
turns_of-has [] t u = refl
turns_of-has (a ∷ approvals) t u =
    rw
      (
        add_turn-has (is_pending a.state) a.thread_id a.turn_id (turns_of approvals) t u,
        turns_of-has approvals t u,
      )
      refl

turns_of-EachOnce : (approvals : List Approval) → EachOnce (turns_of approvals)
turns_of-EachOnce [] = tt
turns_of-EachOnce (a ∷ approvals) =
    add_turn-EachOnce (is_pending a.state) a.thread_id a.turn_id (turns_of approvals)
      (turns_of-EachOnce approvals)

-- `list_pending_approval_turns` holds the pair of a thread and a turn exactly if an approval of
-- them is pending, and each pair once, however many approvals the turn waits for.
pub list_pending-EachOnce :
    (s : FeishuStore)
    → ((t u : String) → has_turn t u (list_pending_approval_turns s) ≡ waits t u s.approvals)
      × EachOnce (list_pending_approval_turns s)
unfolding list_pending_approval_turns
list_pending-EachOnce s = (turns_of-has s.approvals, turns_of-EachOnce s.approvals)
