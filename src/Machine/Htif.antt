-- ===== src/Machine/Htif.antt =====
-- machine/htif.c on 64-bit registers: the console and system calls by way of two words that the host
-- reads and writes. The host is a parameter: what it does between two rounds of a wait, with a
-- state of its own. An assertion that fails is a panic, a lock that is held is never given back,
-- and a wait that has not ended after `fuel` rounds never does. `query_htif` is not here.
pub mod Served
pub mod Sent
use boom_stop.Base.{
  ℕ, zero, suc, ◌+◌, ◌*◌, ◌/◌, ◌%◌, ◌^◌, Bool, true, false, not, ◌&&◌, bit_or, u64, sub64, is_neg,
  neg, ◌==◌, if◌then◌else◌,
}
use boom_stop.Base.Cmd.{Cmd, ok, panic, pure, halt, kassert, modify, ◌>>=◌, ◌>>◌}

-- `console_buf` is an `int`.
pub record Htif (H : Type 0) : Type 0 where
  pub tohost : ℕ
  pub fromhost : ℕ
  pub console_buf : ℕ
  pub locked : Bool
  pub host : H

abbrev pub tohost_cmd : (dev cmd payload : ℕ) → ℕ
tohost_cmd dev cmd payload = bit_or (bit_or (u64 (dev * 2 ^ 56)) (u64 (cmd * 2 ^ 48))) payload

abbrev pub fromhost_dev : ℕ → ℕ
fromhost_dev fh = fh / 2 ^ 56

abbrev pub fromhost_cmd : ℕ → ℕ
fromhost_cmd fh = u64 (fh * 2 ^ 8) / 2 ^ 56

abbrev pub fromhost_data : ℕ → ℕ
fromhost_data fh = u64 (fh * 2 ^ 16) / 2 ^ 16

module _ {H : Type 0} where
  abbrev pub set_buf : (buf : ℕ) → Htif H → Htif H
  set_buf buf h = record h { console_buf = buf }

  unfoldable pub lock_htif : Cmd (Htif H) (Unit {0})
  lock_htif h = if h.locked then panic else ok tt (record h { locked = true })

  unfoldable pub unlock_htif : Cmd (Htif H) (Unit {0})
  unlock_htif h = ok tt (record h { locked = false })

  -- The switch on FROMHOST_CMD.
  abbrev pub console_message : (cmd payload : ℕ) → Cmd (Htif H) (Unit {0})
  console_message cmd payload =
      if cmd == 0
      then modify (set_buf (1 + payload % 2 ^ 8))
      else if cmd == 1
      then pure tt
      else halt

  unfoldable pub check_fromhost : Cmd (Htif H) (Unit {0})
  check_fromhost h =
      let fh = h.fromhost in
      (if fh == 0 then pure tt else do
        modify (λ g. record g { fromhost = 0 })
        kassert (fromhost_dev fh == 1)
        console_message (fromhost_cmd fh) (fromhost_data fh))
        h

module _ {H : Type 0} (host : Htif H → Htif H) (fuel : ℕ) where
  -- while (tohost) __check_fromhost();
  unfoldable pub wait_tohost : (rounds : ℕ) → Cmd (Htif H) (Unit {0})
  wait_tohost zero h = panic
  wait_tohost (suc rounds) h =
      (if h.tohost == 0 then pure tt else (check_fromhost >> λ g. wait_tohost rounds (host g))) h

  unfoldable pub set_tohost : (dev cmd payload : ℕ) → Cmd (Htif H) (Unit {0})
  set_tohost dev cmd payload = do
    wait_tohost fuel
    modify (λ h. record h { tohost = tohost_cmd dev cmd payload })

  unfoldable pub htif_console_getchar : Cmd (Htif H) ℕ
  htif_console_getchar = do
    lock_htif
    check_fromhost
    ch ← λ h. ok h.console_buf h
    if is_neg ch then pure tt else do modify (set_buf (neg 1)); set_tohost 1 0 0
    unlock_htif
    pure (sub64 ch 1)

  -- while (1) ...
  unfoldable pub wait_fromhost : (rounds dev cmd : ℕ) → Cmd (Htif H) (Unit {0})
  wait_fromhost zero dev cmd h = panic
  wait_fromhost (suc rounds) dev cmd h =
      let fh = h.fromhost in
      let again : Cmd (Htif H) (Unit {0}) = λ g. wait_fromhost rounds dev cmd (host g) in
      (if fh == 0
          then again
          else if fromhost_dev fh == dev && fromhost_cmd fh == cmd
          then modify (λ g. record g { fromhost = 0 })
          else (check_fromhost >> again))
        h

  unfoldable pub do_tohost_fromhost : (dev cmd payload : ℕ) → Cmd (Htif H) (Unit {0})
  do_tohost_fromhost dev cmd payload = do
    lock_htif
    set_tohost dev cmd payload
    wait_fromhost fuel dev cmd
    unlock_htif

  unfoldable pub htif_syscall : (arg : ℕ) → Cmd (Htif H) (Unit {0})
  htif_syscall arg = do_tohost_fromhost 0 0 arg

  unfoldable pub htif_console_putchar : (ch : ℕ) → Cmd (Htif H) (Unit {0})
  htif_console_putchar ch = do lock_htif; set_tohost 1 1 ch; unlock_htif
