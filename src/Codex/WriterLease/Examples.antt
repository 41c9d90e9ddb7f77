-- ===== src/Codex/WriterLease/Examples.antt =====
-- A run of the writer state, and the theorems at it.
use codex_feishu_remoter.Prelude.{sql, ◌+◌, ◌≤◌, ◌≡◌, refl, not, List, [], ◌∷◌, run, total, upsert}
use codex_feishu_remoter.Codex.WriterLease.{
  is_idle, state_for, acquire, mark_external, release, busy_threads,
}
use codex_feishu_remoter.Codex.WriterLease.Traces.{
  WriterOp, acquiring, marking, releasing, apply, acquisitions_in, releases_in,
  acquisitions-le-releases, contains, run-busy_threads,
}

abbrev calls : List WriterOp
calls =
    acquiring "t" ∷ acquiring "t" ∷ acquiring "u" ∷ releasing "t" ∷ acquiring "t" ∷ marking "u" ∷ []

acquired_twice : total apply (acquisitions_in "t") calls [] ≡ 2
unfolding sql upsert total apply acquire mark_external release
acquired_twice = refl

acquisitions-le-releases_example :
    total apply (acquisitions_in "t") calls [] ≤ 1 + total apply (releases_in "t") calls []
acquisitions-le-releases_example = acquisitions-le-releases "t" calls

run-busy_threads_example :
    contains "u" (busy_threads (run apply calls []))
    ≡ not (is_idle (state_for "u" (run apply calls [])))
run-busy_threads_example = run-busy_threads "u" calls
