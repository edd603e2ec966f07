-- ===== src/Machine/Htif/Sent.antt =====
-- The characters that machine/htif.c gives to the host.
use mathlib.Core.List.{append-nil, append_assoc}
use boom_stop.Base.{
  ℕ, ◌+◌, ◌*◌, ◌^◌, ◌≤◌, ◌≡◌, refl, sym, ◌∙◌, ap, true, false, ◌==◌, List, [], ◌∷◌, ◌++◌, map, inl,
  inr, Bool-cases, arith, bit_or, u64,
}
use boom_stop.Base.Cmd.{◌>>◌, Cmd, pure, Returns, returns, Returns-and_then, Returns-mono}
use boom_stop.Machine.Trap.{bit}
use boom_stop.Machine.Trap.Redirect.{bit-bit_or, bit_zero}
use boom_stop.Machine.Htif.{
  Htif, tohost_cmd, set_tohost, htif_console_putchar, lock_htif, unlock_htif,
}
use boom_stop.Machine.Htif.Served.{
  Serves, Waited, wait_tohost-Waited, host-sent, sent, pending, from_console,
}

-- A character for the console.
abbrev pub put_cmd : (ch : ℕ) → ℕ
put_cmd ch = tohost_cmd 1 1 ch

-- It is a word that asks for something.
put_cmd_there : (ch : ℕ) → (put_cmd ch == 0) ≡ false
put_cmd_there ch = elim (Bool-cases (put_cmd ch == 0)) [
  | inl e ↦
      let high : bit 56 (put_cmd ch) ≡ true =
        bit-bit_or 56 (bit_or (u64 (1 * 2 ^ 56)) (u64 (1 * 2 ^ 48))) ch in
      let z : put_cmd ch ≡ 0 = ground arith in cc (sym high ∙ ap (bit 56) z ∙ bit_zero 56)
  | inr n ↦ n
]

-- A string, one character after the other; the host may act before each.
unfoldable pub put_all :
    {H : Type 0} (host : Htif H → Htif H) (fuel : ℕ) → List ℕ → Cmd (Htif H) (Unit {0})
put_all host fuel [] = pure tt
put_all host fuel (ch ∷ rest) =
    (λ h. htif_console_putchar host fuel ch (host h)) >> put_all host fuel rest

module _ {H : Type 0} (host : Htif H → Htif H) (taken : H → List ℕ) (rank : Htif H → ℕ)
    (patience : ℕ) where
  -- The lock is free, and the host has answered from the console only.
  pub record Quiet (h : Htif H) : Type 0 where
    pub unlocked : h.locked ≡ false
    pub valid : from_console h.fromhost ≡ true

  abbrev pub Gave : (words : List ℕ) (h g : Htif H) → Type 0
  Gave words h g =
      (sent host taken rank patience g ≡ sent host taken rank patience h ++ words) × Quiet g

  -- What was sent before a wait has all been taken after it.
  all_taken :
      (h k : Htif H)
      → Waited host taken rank patience h k
      → taken k.host ≡ sent host taken rank patience h
  all_taken h k w =
      sym (append-nil (taken k.host))
      ∙ (let p : pending k.tohost ≡ [] = rw (w.free) refl in ap (λ l. taken k.host ++ l) (sym p))
      ∙ w.same_sent

  set_tohost-Gave :
      (fuel ch : ℕ) (h : Htif H)
      → Serves host taken rank patience
      → patience + 2 ≤ fuel
      → from_console h.fromhost ≡ true
      → Returns
          (λ _ g.
            (sent host taken rank patience g ≡ sent host taken rank patience h ++ (put_cmd ch ∷ []))
            × (from_console g.fromhost ≡ true))
          (set_tohost host fuel 1 1 ch h)
  unfolding set_tohost
  set_tohost-Gave fuel ch h serves enough valid =
      Returns-and_then
        (wait_tohost-Waited host taken rank patience fuel fuel h serves valid
          (omega (arith, serves.patient h, enough)))
        λ _ k w.
          returns
            ((rw (put_cmd_there ch) (ap (λ l. l ++ (put_cmd ch ∷ [])) (all_taken h k w))), w.valid)

  htif_console_putchar-Gave :
      (fuel ch : ℕ) (h : Htif H)
      → Serves host taken rank patience
      → patience + 2 ≤ fuel
      → Quiet h
      → Returns (λ _ g. Gave (put_cmd ch ∷ []) h g) (htif_console_putchar host fuel ch h)
  unfolding htif_console_putchar lock_htif unlock_htif
  htif_console_putchar-Gave fuel ch h serves enough quiet = rw (quiet.unlocked) (
      Returns-and_then
        (set_tohost-Gave fuel ch (record h { locked = true }) serves enough quiet.valid)
        λ _ g gave. returns (gave.0, record { unlocked = refl; valid = gave.1 }))

  -- With a host that takes each word within its patience, and answers from the console only, and
  -- the lock free, every call of htif_console_putchar for the characters of a string returns, and
  -- the host has been given exactly those characters, once each and in their order, whatever it
  -- does between the calls.
  pub put_all-Gave :
      (fuel : ℕ) (chars : List ℕ) (h : Htif H)
      → Serves host taken rank patience
      → patience + 2 ≤ fuel
      → Quiet h
      → Returns (λ _ g. Gave (map put_cmd chars) h g) (put_all host fuel chars h)
  unfolding put_all
  put_all-Gave fuel [] h serves enough quiet =
      returns (sym (append-nil (sent host taken rank patience h)), quiet)
  put_all-Gave fuel (ch ∷ rest) h serves enough quiet =
      let before : Quiet (host h) = record {
        unlocked = serves.apart h ∙ quiet.unlocked;
        valid = serves.answers h quiet.valid;
      } in
      Returns-and_then (htif_console_putchar-Gave fuel ch (host h) serves enough before) λ _ g one.
        Returns-mono (put_all-Gave fuel rest g serves enough (one.1)) λ _ k all. (
          all.0
              ∙ ap (λ l. l ++ map put_cmd rest)
                  (one.0
                    ∙ ap (λ l. l ++ (put_cmd ch ∷ []))
                        (host-sent host taken rank patience h serves))
              ∙ append_assoc (sent host taken rank patience h) (put_cmd ch ∷ []) (map put_cmd rest),
          all.1,
        )
