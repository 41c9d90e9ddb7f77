-- ===== src/Codex/Watcher/Loop.antt =====
-- What the loop over the lines of a poll takes, and where it raises.
use codex_feishu_remoter.Prelude.{
  ℕ, ◌+◌, ◌≡◌, refl, ap, ◌∙◌, Bool, true, false, not, ◌&&◌, Option, none, some, Outcome, ok, raised,
  List, [], ◌∷◌, ◌++◌, arith, if◌then◌else◌,
}
use codex_feishu_remoter.Core.Telemetry.{count}
use codex_feishu_remoter.Codex.Watcher.{has_newline, is_ended, add_event, add_line, consume}
use codex_feishu_remoter.Codex.Watcher.Left.{no_feed_left}
use codex_feishu_remoter.Codex.Watcher.Lines.{joined, gather, events_of}

abbrev pub all_ended : List (List ℕ) → Bool
all_ended [] = true
all_ended (line ∷ lines) = is_ended line && all_ended lines

pub count-append : (xs ys : List ℕ) → count (xs ++ ys) ≡ count xs + count ys
count-append [] ys = omega arith
count-append (x ∷ xs) ys = omega (arith, count-append xs ys)

pub append_assoc : (xs ys zs : List ℕ) → (xs ++ ys) ++ zs ≡ xs ++ (ys ++ zs)
append_assoc [] ys zs = refl
append_assoc (x ∷ xs) ys zs = ap (λ rest. x ∷ rest) (append_assoc xs ys zs)

module _ {F E : Type 0} (event : List ℕ → Outcome F (Option E)) where
  -- The lines that the loop takes, and what it leaves.
  pub record Takes (lines : List (List ℕ)) (events : List E) (consumed : ℕ) : Type 0 where
    pub taken : List (List ℕ)
    pub rest : List ℕ
    pub whole : joined taken ++ rest ≡ joined lines
    pub ended : all_ended taken ≡ true
    pub gathered : events_of event taken ≡ ok events
    pub size : consumed ≡ count (joined taken)
    pub left : has_newline rest ≡ false

  -- The lines that gave their events before the one that raises.
  pub record Breaks (lines : List (List ℕ)) (f : F) : Type 0 where
    pub before : List (List ℕ)
    pub line : List ℕ
    pub rest : List ℕ
    pub events : List E
    pub whole : joined before ++ (line ++ rest) ≡ joined lines
    pub ended : all_ended (before ++ line ∷ []) ≡ true
    pub gathered : events_of event before ≡ ok events
    pub at : event line ≡ raised f

  abbrev pub Loop : List (List ℕ) → Outcome F (List E × ℕ) → Type 0
  Loop lines (ok (events, consumed)) = Takes lines events consumed
  Loop lines (raised f) = Breaks lines f

  gather_ok :
      (e : Option E) (events : List E)
      → ◌≡◌ {A = Outcome F (List E)} (gather (ok e) (ok events)) (ok (add_event event e events))
  gather_ok none events = refl
  gather_ok (some e) events = refl

  add_line-Loop :
      (line : List ℕ) (lines : List (List ℕ)) (read : Outcome F (Option E))
      (out : Outcome F (List E × ℕ))
      → event line ≡ read
      → is_ended line ≡ true
      → Loop lines out
      → Loop (line ∷ lines) (add_line event (count line) read out)
  add_line-Loop line lines (raised f) out at e h = record {
    before = [];
    line = line;
    rest = joined lines;
    events = [];
    whole = refl;
    ended = rw e refl;
    gathered = refl;
    at = at;
  }
  add_line-Loop line lines (ok o) (raised f) at e h = record {
    before = line ∷ h.before;
    line = h.line;
    rest = h.rest;
    events = add_event event o h.events;
    whole =
        append_assoc line (joined h.before) (h.line ++ h.rest)
        ∙ ap (λ bytes. line ++ bytes) h.whole;
    ended = rw e h.ended;
    gathered = rw (at, h.gathered) (gather_ok o h.events);
    at = h.at;
  }
  add_line-Loop line lines (ok o) (ok (events, consumed)) at e h = record {
    taken = line ∷ h.taken;
    rest = h.rest;
    whole = append_assoc line (joined h.taken) h.rest ∙ ap (λ bytes. line ++ bytes) h.whole;
    ended = rw e h.ended;
    gathered = rw (at, h.gathered) (gather_ok o events);
    size = omega (arith, h.size, count-append line (joined h.taken));
    left = h.left;
  }

  is_refuted : (b : Bool) → not b ≡ true → b ≡ false
  is_refuted true h = ground (arith, h)
  is_refuted false h = refl

  Loop-either :
      (lines : List (List ℕ)) (c : Bool) (x y : Outcome F (List E × ℕ))
      → (c ≡ true → Loop lines x)
      → (c ≡ false → Loop lines y)
      → Loop lines (if c then x else y)
  Loop-either lines true x y p q = p refl
  Loop-either lines false x y p q = q refl

  pub consume-Loop :
      (lines : List (List ℕ)) → no_feed_left lines ≡ true → Loop lines (consume event lines)
  unfolding consume
  consume-Loop [] h = record {
    taken = [];
    rest = [];
    whole = refl;
    ended = refl;
    gathered = refl;
    size = refl;
    left = refl;
  }
  consume-Loop (line ∷ lines) h =
      Loop-either (line ∷ lines) (is_ended line) _ _
        (λ e.
          add_line-Loop line lines (event line) (consume event lines) refl e
            (consume-Loop lines (rw e at h)))
        (λ e. record {
          taken = [];
          rest = joined (line ∷ lines);
          whole = refl;
          ended = refl;
          gathered = refl;
          size = refl;
          left = is_refuted _ (rw e at h);
        })
