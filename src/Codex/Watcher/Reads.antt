-- ===== src/Codex/Watcher/Reads.antt =====
-- What a poll hands on, and how far it moves, in terms of the bytes it has read.
use codex_feishu_remoter.Prelude.{
  ℕ, ◌+◌, ◌≡◌, ◌⊎◌, Bool, true, false, Option, Outcome, ok, raised, List, [], ◌∷◌, ◌++◌,
}
use codex_feishu_remoter.Core.Telemetry.{count}
use codex_feishu_remoter.Codex.Watcher.{RolloutWatcher, has_newline}
use codex_feishu_remoter.Codex.Watcher.Lines.{joined, events_of}
use codex_feishu_remoter.Codex.Watcher.Loop.{all_ended, Loop}

module _ {F E : Type 0} (event : List ℕ → Outcome F (Option E)) where
  -- Bytes are passed over only of a line that was too long.
  abbrev pub PassesOver : List ℕ → Bool → Bool → Type 0
  PassesOver passed before after = (passed ≡ []) ⊎ ((before ≡ true) ⊎ (after ≡ true))

  -- What a poll that read `bytes` makes of them: bytes that it passes over, then whole lines, then a rest
  -- that it leaves for the next poll.
  pub record IsRead (bytes : List ℕ) (w : RolloutWatcher) (events : List E) (w' : RolloutWatcher)
      : Type 0 where
    pub passed : List ℕ
    pub lines : List (List ℕ)
    pub rest : List ℕ
    pub whole : passed ++ (joined lines ++ rest) ≡ bytes
    pub ended : all_ended lines ≡ true
    pub gathered : events_of event lines ≡ ok events
    pub moved : w'.byte_offset ≡ w.byte_offset + (count passed + count (joined lines))
    pub left : has_newline rest ≡ false
    pub passes : PassesOver passed w.discarding_oversized_line w'.discarding_oversized_line

  -- What a poll leaves that raises: the lines before the one that raises are not passed.
  pub record IsBroken (bytes : List ℕ) (w : RolloutWatcher) (f : F) (w' : RolloutWatcher)
      : Type 0 where
    pub passed : List ℕ
    pub before : List (List ℕ)
    pub line : List ℕ
    pub rest : List ℕ
    pub events : List E
    pub whole : passed ++ (joined before ++ (line ++ rest)) ≡ bytes
    pub ended : all_ended (before ++ line ∷ []) ≡ true
    pub gathered : events_of event before ≡ ok events
    pub at : event line ≡ raised f
    pub moved : w'.byte_offset ≡ w.byte_offset + count passed
    pub passes : PassesOver passed w.discarding_oversized_line w'.discarding_oversized_line

  abbrev pub IsPolled : List ℕ → RolloutWatcher → Outcome F (List E) × RolloutWatcher → Type 0
  IsPolled bytes w (ok events, w') = IsRead bytes w events w'
  IsPolled bytes w (raised f, w') = IsBroken bytes w f w'
