-- ===== src/Machine/Htif/Served.antt =====
-- A host that serves the two words, and the waits for it in machine/htif.c.
use boom_stop.Base.{
  ℕ, zero, suc, ◌+◌, ◌≤◌, ◌<◌, ◌≡◌, ◌≢◌, refl, sym, ◌∙◌, ap, Bool, true, false, ◌&&◌, ◌||◌, ◌==◌,
  if◌then◌else◌, List, [], ◌∷◌, ◌++◌, ◌⊎◌, inl, inr, Bool-cases, arith, subst,
}
use mathlib.Core.List.{append-nil}
use boom_stop.Base.Cmd.{◌>>◌, Returns, returns, Returns-and_then, Returns-mono}
use boom_stop.Machine.Htif.{Htif, check_fromhost, wait_tohost, fromhost_dev, fromhost_cmd}

-- A word that asks for something, and what is on its way.
abbrev pub pending : (tohost : ℕ) → List ℕ
pending tohost = if tohost == 0 then [] else tohost ∷ []

-- A word from the console, or none.
abbrev pub from_console : (fromhost : ℕ) → Bool
from_console fh =
    fh == 0 || (fromhost_dev fh == 1 && (fromhost_cmd fh == 0 || fromhost_cmd fh == 1))

module _ {H : Type 0} (host : Htif H → Htif H) (taken : H → List ℕ) (rank : Htif H → ℕ)
    (patience : ℕ) where
  -- The host takes a word that is there before it has been left alone with it for too long, and keeps
  -- the words in the order in which it took them; it answers from the console only, and changes neither the
  -- lock nor the memory of the hart.
  pub record Serves : Type 0 where
    pub takes :
        (h : Htif H)
        → (((host h).tohost ≡ h.tohost) × (taken ((host h).host) ≡ taken h.host))
          ⊎ (((host h).tohost ≡ 0) × (taken ((host h).host) ≡ taken h.host ++ pending h.tohost))
    pub progress : (h : Htif H) → h.tohost ≢ 0 → ((host h).tohost ≡ 0) ⊎ (rank (host h) < rank h)
    pub patient : (h : Htif H) → rank h ≤ patience
    pub reads :
        (h : Htif H) (buf : ℕ) → rank (record h { fromhost = 0; console_buf = buf }) ≤ rank h
    pub answers :
        (h : Htif H) → from_console h.fromhost ≡ true → from_console ((host h).fromhost) ≡ true
    pub apart : (h : Htif H) → (host h).locked ≡ h.locked

  -- The words that the host has been given, taken or not.
  abbrev pub sent : Htif H → List ℕ
  sent h = taken h.host ++ pending h.tohost

  -- What a look at `fromhost` leaves.
  pub record Looked (h g : Htif H) : Type 0 where
    pub same_words : (g.tohost ≡ h.tohost) × (g.host ≡ h.host)
    pub same_lock : g.locked ≡ h.locked
    pub emptied : from_console g.fromhost ≡ true
    pub nearer : rank g ≤ rank h

  pub check_fromhost-Looked :
      (h : Htif H)
      → Serves
      → from_console h.fromhost ≡ true
      → Returns (λ _ g. Looked h g) (check_fromhost h)
  unfolding check_fromhost
  check_fromhost-Looked h serves valid = elim (Bool-cases (h.fromhost == 0)) [
    | inl e ↦
        rw (e, check_fromhost)
          (returns (record {
            same_words = (refl, refl);
            same_lock = refl;
            emptied = valid;
            nearer = omega arith;
          }))
    | inr n ↦
        let dev : (fromhost_dev h.fromhost == 1) ≡ true = ground arith in
        elim (Bool-cases (fromhost_cmd h.fromhost == 0)) [
          | inl c ↦
              rw (n, dev, c, check_fromhost)
                (returns (record {
                  same_words = (refl, refl);
                  same_lock = refl;
                  emptied = refl;
                  nearer = serves.reads h _;
                }))
          | inr c ↦
              let d : (fromhost_cmd h.fromhost == 1) ≡ true = ground arith in
              rw (n, dev, c, d, check_fromhost)
                (returns (record {
                  same_words = (refl, refl);
                  same_lock = refl;
                  emptied = refl;
                  nearer = serves.reads h h.console_buf;
                }))
        ]
  ]

  -- What a wait leaves.
  pub record Waited (h g : Htif H) : Type 0 where
    pub free : g.tohost ≡ 0
    pub same_sent : sent g ≡ sent h
    pub same_lock : g.locked ≡ h.locked
    pub valid : from_console g.fromhost ≡ true

  pub host-sent : (h : Htif H) → Serves → sent (host h) ≡ sent h
  host-sent h serves = elim (serves.takes h) [
    | inl same ↦ rw (same.0, same.1) refl
    | inr done ↦ rw (done.0, done.1) (append-nil (taken h.host ++ pending h.tohost))
  ]

  Looked-sent : (h g : Htif H) → Looked h g → sent g ≡ sent h
  Looked-sent h g look = rw (look.same_words.0, look.same_words.1) refl

  wait_free :
      (fuel rounds : ℕ) (h : Htif H)
      → h.tohost ≡ 0
      → from_console h.fromhost ≡ true
      → 1 ≤ rounds
      → Returns (λ _ g. Waited h g) (wait_tohost host fuel rounds h)
  unfolding wait_tohost
  wait_free fuel zero h e valid enough = absurd (omega arith)
  wait_free fuel (suc rounds) h e valid enough =
      rw (ap (λ t. t == 0) e)
        (returns (record { free = e; same_sent = refl; same_lock = refl; valid = valid }))

  later_Waited : (h g k : Htif H) → sent g ≡ sent h → g.locked ≡ h.locked → Waited g k → Waited h k
  later_Waited h g k sent_eq lock_eq w = record {
    free = w.free;
    same_sent = w.same_sent ∙ sent_eq;
    same_lock = w.same_lock ∙ lock_eq;
    valid = w.valid;
  }

  wait_tohost_more :
      (fuel rounds : ℕ) (h : Htif H)
      → (h.tohost == 0) ≡ false
      → wait_tohost host fuel (suc rounds) h
        ≡ (check_fromhost >> λ g. wait_tohost host fuel rounds (host g)) h
  unfolding wait_tohost
  wait_tohost_more fuel rounds h n = rw n refl

  pub wait_tohost-Waited :
      (fuel rounds : ℕ) (h : Htif H)
      → Serves
      → from_console h.fromhost ≡ true
      → rank h + 2 ≤ rounds
      → Returns (λ _ g. Waited h g) (wait_tohost host fuel rounds h)
  wait_tohost-Waited fuel zero h serves valid enough = absurd (omega arith)
  wait_tohost-Waited fuel (suc rounds) h serves valid enough = elim (Bool-cases (h.tohost == 0)) [
    | inl e ↦ wait_free fuel (suc rounds) h (ground arith) valid (omega arith)
    | inr n ↦ subst (Returns (λ _ g. Waited h g)) (sym (wait_tohost_more fuel rounds h n)) (
        Returns-and_then (check_fromhost-Looked h serves valid) λ _ g look.
          let same = host-sent g serves ∙ Looked-sent h g look in
          let lock = serves.apart g ∙ look.same_lock in
          let there : g.tohost ≢ 0 = λ z. absurd (ground (arith, look.same_words.0, z, n)) in
          let answers = serves.answers g look.emptied in
          Returns-mono
            (elim (serves.progress g there) [
              | inl free ↦ wait_free fuel rounds (host g) free answers (omega arith)
              | inr nearer ↦
                  wait_tohost-Waited fuel rounds (host g) serves answers
                    (omega (arith, nearer, look.nearer, enough))
            ])
            λ _ k w. later_Waited h (host g) k same lock w)
  ]
