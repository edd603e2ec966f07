-- ===== src/Machine/Fdt/Plays.antt =====
-- The parts of `fdt_scan_helper`, as runs that make calls of the callbacks.
use boom_stop.Base.{
  ℕ, ◌+◌, ◌*◌, ◌/◌, ◌^◌, ◌<◌, ◌≡◌, refl, sym, ap, subst, fun_ext, ◌∙◌, Bool, true, false, List, [],
  ◌∷◌, ◌++◌, length, arith,
}
use boom_stop.Base.Cmd.{Cmd, Run, ok, panic, pure, and_then, ◌>>=◌, ◌>>◌, Ensures}
use boom_stop.Util.{Mem}
use boom_stop.Util.Text.{strlen}
use boom_stop.Util.Text.Stored.{Stored, strlen-Stored}
use boom_stop.Machine.Fdt.{
  Node, Prop, Scan, Scanned, Callbacks, Rest, new_child, first_node, done_unless, scan_prop,
  scan_child, strlen_here, erase_if, after_prop,
}
use boom_stop.Machine.Fdt.Layout.{
  Event, opened, property, finished, closed, finished_unless, call_of, play,
}

-- The callbacks leave the memory alone, and none asks for a node to be deleted.
pub record Reads {S : Type 0} (cb : Callbacks S) (m : Mem) : Type 0 where
  pub opens :
      (node : List Node) (s : Scan S) → s.mem ≡ m → Ensures (λ _ s'. s'.mem ≡ m) (cb.on_open node s)
  pub props : (p : Prop) (s : Scan S) → s.mem ≡ m → Ensures (λ _ s'. s'.mem ≡ m) (cb.on_prop p s)
  pub dones :
      (node : List Node) (s : Scan S) → s.mem ≡ m → Ensures (λ _ s'. s'.mem ≡ m) (cb.on_done node s)
  pub closes :
      (node : List Node) (s : Scan S)
      → s.mem ≡ m
      → Ensures (λ deleted s'. (deleted ≡ false) × (s'.mem ≡ m)) (cb.on_close node s)

pub and_then-cong :
    {S A B : Type 0} {P : A → S → Type 0} (r : Run S A) (f g : A → Cmd S B)
    → Ensures P r
    → ((a : A) (s : S) → P a s → f a s ≡ g a s)
    → and_then r f ≡ and_then r g
and_then-cong (ok a s) f g p same = same a s p
and_then-cong panic f g p same = refl

pub and_then-and_then :
    {S A B C : Type 0} (r : Run S A) (f : A → Cmd S B) (g : B → Cmd S C)
    → and_then (and_then r f) g ≡ and_then r (λ a s. and_then (f a s) g)
and_then-and_then (ok a s) f g = refl
and_then-and_then panic f g = refl

pub and_then-unit : {S : Type 0} (r : Run S (Unit {0})) → and_then r (λ _. pure tt) ≡ r
and_then-unit (ok u s) = refl
and_then-unit panic = refl

module _ {S : Type 0} (cb : Callbacks S) (m : Mem) (reads : Reads cb m) where
  -- A run from the memory `m` is the calls, and gives that result.
  abbrev pub Plays : Cmd (Scan S) Scanned → List Event → Scanned → Type 0
  Plays run es r = (s : Scan S) → s.mem ≡ m → run s ≡ and_then (play cb es s) (λ _. pure r)

  closed-Ensures :
      (r : Run (Scan S) Bool)
      → Ensures (λ deleted s'. (deleted ≡ false) × (s'.mem ≡ m)) r
      → Ensures (λ _ s'. s'.mem ≡ m) (and_then r (λ _. pure tt))
  closed-Ensures (ok d s) (e, f) = f
  closed-Ensures panic e = tt

  call_of-Ensures :
      (e : Event) (s : Scan S) → s.mem ≡ m → Ensures (λ _ s'. s'.mem ≡ m) (call_of cb e s)
  call_of-Ensures (opened node) s e = reads.opens node s e
  call_of-Ensures (property p) s e = reads.props p s e
  call_of-Ensures (finished node) s e = reads.dones node s e
  call_of-Ensures (closed node) s e = closed-Ensures (cb.on_close node s) (reads.closes node s e)

  then-Ensures :
      (es : List Event) (r : Run (Scan S) (Unit {0}))
      → Ensures (λ _ s'. s'.mem ≡ m) r
      → ((s : Scan S) → s.mem ≡ m → Ensures (λ _ s'. s'.mem ≡ m) (play cb es s))
      → Ensures (λ _ s'. s'.mem ≡ m) (and_then r (λ _. play cb es))
  then-Ensures es (ok u s) e rest = rest s e
  then-Ensures es panic e rest = tt

  play-Ensures :
      (es : List Event) (s : Scan S) → s.mem ≡ m → Ensures (λ _ s'. s'.mem ≡ m) (play cb es s)
  play-Ensures [] s e = e
  play-Ensures (x ∷ es) s e =
      then-Ensures es (call_of cb x s) (call_of-Ensures x s e) (play-Ensures es)

  -- A call first, and then the calls of the rest.
  Plays-∷ :
      (x : Event) (es : List Event) (run : Cmd (Scan S) Scanned) (r : Scanned)
      → Plays run es r
      → Plays (λ s. and_then (call_of cb x s) (λ _. run)) (x ∷ es) r
  Plays-∷ x es run r rest s e =
      and_then-cong (call_of cb x s) (λ _. run) (λ _ s1. and_then (play cb es s1) (λ _. pure r))
        (call_of-Ensures x s e) (λ _ s1 f. rest s1 f)
      ∙ sym (and_then-and_then (call_of cb x s) (λ _. play cb es) (λ _. pure r))

  play-++ :
      (es es2 : List Event) (s : Scan S)
      → play cb (es ++ es2) s ≡ and_then (play cb es s) (λ _. play cb es2)
  play-++ [] es2 s = refl
  play-++ (x ∷ es) es2 s =
      ap (and_then (call_of cb x s)) (fun_ext λ _. fun_ext λ s1. play-++ es es2 s1)
      ∙ sym (and_then-and_then (call_of cb x s) (λ _. play cb es) (λ _. play cb es2))

  -- A run that begins with one that makes calls.
  Plays-++ :
      (first : Cmd (Scan S) Scanned) (es es2 : List Event) (r r2 : Scanned)
      (next : Scanned → Cmd (Scan S) Scanned)
      → Plays first es r
      → Plays (next r) es2 r2
      → Plays (λ s. and_then (first s) next) (es ++ es2) r2
  Plays-++ first es es2 r r2 next p q s e =
      rw (p s e, play-++ es es2 s)
        (and_then-and_then (play cb es s) (λ _. pure r) next
          ∙ and_then-cong (play cb es s) (λ _. next r)
              (λ _ s1. and_then (play cb es2 s1) (λ _. pure r2)) (play-Ensures es s e)
              (λ _ s1 f. q s1 f)
          ∙ sym (and_then-and_then (play cb es s) (λ _. play cb es2) (λ _. pure r2)))

  done_unless-Plays :
      (last : Bool) (node : List Node) (es : List Event) (run : Cmd (Scan S) Scanned) (r : Scanned)
      → Plays run es r
      → Plays
          (λ s. and_then (done_unless last cb node s) (λ _. run))
          (finished_unless last node ++ es)
          r
  unfolding done_unless
  done_unless-Plays true node es run r p = p
  done_unless-Plays false [] es run r p = p
  done_unless-Plays false (node ∷ parents) es run r p =
      Plays-∷ (finished (node ∷ parents)) es run r p

  strlen_here_lem :
      (xs : List ℕ) (a : ℕ) (s : Scan S)
      → Stored m a xs
      → a + length xs < 2 ^ 64
      → s.mem ≡ m
      → strlen_here a s ≡ ok (length xs) s
  strlen_here_lem xs a s stored small e =
      let q : strlen (2 ^ 64) a s.mem ≡ ok (length xs) s.mem =
        subst (λ x. strlen (2 ^ 64) a x ≡ ok (length xs) x) (sym e)
          (strlen-Stored m xs (2 ^ 64) a (omega arith) small stored) in
      rw (q, strlen_here) refl

  module _ (rest : Rest S) where
    pub scan_prop-Plays :
        (lex : ℕ) (next : Node) (p : Prop) (es : List Event) (r : Scanned)
        → Plays (rest (after_prop lex p.len) p.node next false) es r
        → Plays (scan_prop rest cb lex next false p) (property p ∷ es) r
    unfolding scan_prop
    scan_prop-Plays lex next p es r later =
        Plays-∷ (property p) es (rest (after_prop lex p.len) p.node next false) r later

    -- What follows the scan of a child.
    abbrev close_step : (lex : ℕ) (node : List Node) → Scanned → Cmd (Scan S) Scanned
    close_step lex node inner = do
      deleted ← cb.on_close inner.node
      erase_if deleted lex inner.lex
      rest inner.lex node (first_node inner.node) true

    close_step-Plays :
        (lex : ℕ) (node : List Node) (es2 : List Event) (r1 r2 : Scanned)
        → Plays (rest r1.lex node (first_node r1.node) true) es2 r2
        → Plays (close_step lex node r1) (closed r1.node ∷ es2) r2
    close_step-Plays lex node es2 r1 r2 later s e =
        and_then-cong (cb.on_close r1.node s) _ (λ _. rest r1.lex node (first_node r1.node) true)
          (reads.closes r1.node s e) (λ deleted s1 f. rw (f.0) refl)
        ∙ sym (
            and_then-and_then (cb.on_close r1.node s) (λ _. pure tt)
              (λ _. rest r1.lex node (first_node r1.node) true))
        ∙ Plays-∷ (closed r1.node) es2 (rest r1.lex node (first_node r1.node) true) r2 later s e

    pub scan_child-Plays :
        (xs : List ℕ) (lex : ℕ) (node : List Node) (next : Node) (last : Bool)
        (es1 es2 : List Event) (r1 r2 : Scanned)
        → Stored m (lex + 4) xs
        → lex + 4 + length xs < 2 ^ 64
        → Plays
            (rest
              (lex + 8 + length xs / 4 * 4)
              (record next { name = lex + 4 } ∷ node)
              new_child
              false)
            es1
            r1
        → Plays (rest r1.lex node (first_node r1.node) true) es2 r2
        → Plays
            (scan_child rest cb lex node next last)
            (finished_unless last node
              ++ (opened (record next { name = lex + 4 } ∷ node) ∷ (es1 ++ (closed r1.node ∷ es2))))
            r2
    unfolding scan_child
    scan_child-Plays xs lex node next last es1 es2 r1 r2 stored small inner later =
        done_unless-Plays last node _ _ r2 (
          Plays-∷ (opened (record next { name = lex + 4 } ∷ node)) (es1 ++ (closed r1.node ∷ es2)) _
            r2
            λ s e.
              let name : strlen_here (lex + 4) s ≡ ok (length xs) s =
                strlen_here_lem xs (lex + 4) s stored small e in
              rw name (
                Plays-++
                  (rest (lex + 8 + length xs / 4 * 4) (record next { name = lex + 4 } ∷ node)
                    new_child false)
                  es1 (closed r1.node ∷ es2) r1 r2 (close_step lex node) inner
                  (close_step-Plays lex node es2 r1 r2 later) s e))
