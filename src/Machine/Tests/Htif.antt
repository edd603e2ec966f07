-- ===== src/Machine/Tests/Htif.antt =====
-- The theorem on the console, at a host that takes each word at once and types an `x` meanwhile.
use boom_stop.Base.{
  ℕ, ◌+◌, ◌^◌, refl, false, ◌==◌, if◌then◌else◌, List, [], ◌∷◌, ◌++◌, inl, inr, Bool-cases, arith,
}
use boom_stop.Base.Cmd.{Returns}
use boom_stop.Machine.Htif.{Htif, tohost_cmd}
use boom_stop.Machine.Htif.Served.{Serves}
use boom_stop.Machine.Htif.Sent.{Gave, put_all, put_all-Gave}

abbrev terminal : Htif (List ℕ) → Htif (List ℕ)
terminal h =
    if h.tohost == 0
    then record h { fromhost = 2 ^ 56 + 120 }
    else record h { tohost = 0; fromhost = 2 ^ 56 + 120; host = h.host ++ (h.tohost ∷ []) }

abbrev log : List ℕ → List ℕ
log words = words

abbrev never_waits : Htif (List ℕ) → ℕ
never_waits h = 0

terminal-Serves : Serves terminal log never_waits 0
terminal-Serves = record {
  takes = λ h. elim (Bool-cases (h.tohost == 0)) [
    | inl e ↦ rw e (inl (refl, refl))
    | inr n ↦ rw n (inr (refl, refl))
  ];
  progress = λ h there. elim (Bool-cases (h.tohost == 0)) [
    | inl e ↦ inl (ground arith)
    | inr n ↦ rw n (inl refl)
  ];
  patient = λ h. omega arith;
  reads = λ h buf. omega arith;
  answers = λ h valid. elim (Bool-cases (h.tohost == 0)) [ inl e ↦ rw e refl | inr n ↦ rw n refl ];
  apart = λ h. elim (Bool-cases (h.tohost == 0)) [ inl e ↦ rw e refl | inr n ↦ rw n refl ];
}

abbrev idle : Htif (List ℕ)
idle = record { tohost = 0; fromhost = 0; console_buf = 0; locked = false; host = [] }

-- "ok"
put_all-Gave_example :
    Returns
      (λ _ g. Gave terminal log never_waits 0 (tohost_cmd 1 1 111 ∷ tohost_cmd 1 1 107 ∷ []) idle g)
      (put_all terminal 2 (111 ∷ 107 ∷ []) idle)
put_all-Gave_example =
    put_all-Gave terminal log never_waits 0 2 (111 ∷ 107 ∷ []) idle terminal-Serves (omega arith)
      (record { unlocked = refl; valid = refl })
