-- ===== src/Codex/RuntimeLease/Examples.antt =====
-- Two CFR processes on one thread, and the theorems at them.
use codex_feishu_remoter.Prelude.{
  sql, ℕ, ◌<◌, ◌≡◌, refl, Bool, true, false, Option, none, some, List, [], ◌∷◌, lookup, run, total,
  upsert,
}
use codex_feishu_remoter.Codex.RuntimeLease.{
  lease_keyed, generation_keyed, Database, CfrThreadRuntimeLease, Manager, Kill,
  process_lookup_error, pid_is_alive, new_row, handle_of, granted, acquire, heartbeat,
}
use codex_feishu_remoter.Codex.RuntimeLease.Ops.{
  LeaseOp, acquiring, beating, releasing, apply, IsConsistent, apply-IsConsistent,
}
use codex_feishu_remoter.Codex.RuntimeLease.Fencing.{IsFenced, takeover-fences}
use codex_feishu_remoter.Codex.RuntimeLease.Exclusion.{grants_in, held_exclusively}

abbrev fresh : Database
fresh = record { leases = []; generations = [] }

abbrev left : Manager
left = record { instance_id = "left"; owner_pid = 10; ttl = 60 }

abbrev right : Manager
right = record { instance_id = "right"; owner_pid = 20; ttl = 60 }

-- No process but one's own is left.
abbrev kill : ℕ → Kill
kill pid = process_lookup_error

abbrev alive : Option ℕ → Bool
alive = pid_is_alive 10 kill

fresh-IsConsistent : IsConsistent fresh
unfolding lookup
fresh-IsConsistent = record { keys = tt; generation_keys = tt; agree = λ thread r h. cc }

abbrev first_handle : CfrThreadRuntimeLease
first_handle = handle_of left 0 "a" "t" 1

abbrev second_handle : CfrThreadRuntimeLease
second_handle = handle_of right 100 "b" "t" 2

abbrev leased : Database
leased = (granted left 0 "a" "t" fresh).1

abbrev between : List LeaseOp
between = beating left 10 none first_handle ∷ []

-- The first lease has run out at 70, and the second manager takes the thread at 100.
abbrev taken : Database
taken = (acquire right alive false 100 "b" "t" (run apply between leased)).1

takeover-fences_example :
    (1 < 2)
    × IsFenced first_handle (run apply (releasing false false false first_handle ∷ []) taken)
unfolding sql upsert run apply acquire heartbeat pid_is_alive
takeover-fences_example =
    takeover-fences left right alive alive false false 0 100 "a" "b" "t" fresh leased taken
      first_handle second_handle first_handle between
      (releasing false false false first_handle ∷ []) fresh-IsConsistent refl refl refl refl

leased-IsConsistent : IsConsistent leased
unfolding sql upsert apply acquire
leased-IsConsistent =
    apply-IsConsistent (acquiring left alive false 0 "a" "t") fresh fresh-IsConsistent

abbrev rivals : List LeaseOp
rivals =
    acquiring right alive false 59 "b" "t"
    ∷ acquiring right alive false 59 "c" "other"
    ∷ releasing true false false second_handle
    ∷ []

held_exclusively_example :
    (lookup "t" (run apply rivals leased).leases ≡ some (new_row left 0 "a" "t" 1))
    × (total apply (grants_in "t") rivals leased ≡ 0)
unfolding sql upsert
held_exclusively_example =
    held_exclusively (new_row left 0 "a" "t" 1) rivals leased leased-IsConsistent refl (
      (λ _. (refl, unfold pid_is_alive in refl)),
      ((λ _. (refl, unfold pid_is_alive in refl)), (refl, tt)),
    )
