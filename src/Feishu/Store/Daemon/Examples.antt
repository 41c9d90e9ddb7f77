-- ===== src/Feishu/Store/Daemon/Examples.antt =====
-- Two daemons of one app, and the theorem at them.
use codex_feishu_remoter.Prelude.{
  sql, upsert, ℕ, ◌≡◌, refl, true, some, List, [], ◌∷◌, run, ok, raised,
}
use codex_feishu_remoter.Feishu.Model.{ErrorCode}
use codex_feishu_remoter.Feishu.Store.{FeishuStore, daemon_lease_keyed, empty}
use codex_feishu_remoter.Feishu.Store.Daemon.{
  daemon_row, acquire_daemon_lease, heartbeat_daemon_lease, release_daemon_lease,
  inspect_daemon_lease,
}
use codex_feishu_remoter.Feishu.Store.Daemon.Exclusive.{
  DaemonOp, acquiring, releasing, apply, daemon_exclusive,
}

abbrev leased : FeishuStore
leased = record empty { daemon_leases = daemon_row 0 30 "app" "left" 10 ∷ [] }

leased-is_acquired : acquire_daemon_lease 0 30 "app" "left" 10 empty ≡ (ok tt, leased)
unfolding sql upsert acquire_daemon_lease
leased-is_acquired = refl

abbrev rivals : List DaemonOp
rivals =
    acquiring 5 30 "app" "right" 20
    ∷ releasing "app" "right"
    ∷ acquiring 6 30 "other" "right" 20
    ∷ []

daemon_exclusive_example :
    (inspect_daemon_lease "app" (run apply rivals leased) ≡ some (daemon_row 0 30 "app" "left" 10))
    × (acquire_daemon_lease 29 30 "app" "right" 20 (run apply rivals leased)
        ≡ (raised ErrorCode.feishu_daemon_already_running, run apply rivals leased))
    × ((later after : ℕ)
        → (heartbeat_daemon_lease later after 30 "app" "left" (run apply rivals leased)).0 ≡ true)
    × ((release_daemon_lease "app" "left" (run apply rivals leased)).0 ≡ true)
unfolding sql
daemon_exclusive_example =
    daemon_exclusive (daemon_row 0 30 "app" "left" 10) rivals leased 29 30 "right" 20
      ((refl, tt), refl) ((λ _. (refl, refl)), (refl, ((λ _. (refl, refl)), tt))) refl refl
