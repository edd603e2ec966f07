-- ===== src/Pk/Syscall/Clock.antt =====
-- The system calls of syscall.c that read the cycle counter or answer with a constant. `cycle` is
-- what `rdcycle` reads; the frequency of the clock is taken to be 1 GHz.
use boom_stop.Base.{ℕ, ◌+◌, ◌/◌, ◌%◌, ◌==◌, if◌then◌else◌, neg}
use boom_stop.Base.Cmd.{Cmd, pure, ◌>>◌}
use boom_stop.Pk.Frontend.{Host, enosys}
use boom_stop.Pk.Mmap.State.{Kernel}
use boom_stop.Pk.Access.{put_long}

abbrev pub clock_freq : ℕ
clock_freq = 1000000000

unfoldable pub sys_time : Host → (cycle loc : ℕ) → Cmd Kernel ℕ
sys_time host cycle loc =
    let t = cycle / clock_freq in if loc == 0 then pure t else do put_long host loc t; pure t

unfoldable pub sys_times : Host → (cycle loc : ℕ) → Cmd Kernel ℕ
sys_times host cycle loc = do
  put_long host loc (cycle / (clock_freq / 1000000))
  put_long host (loc + 8) 0
  put_long host (loc + 16) 0
  put_long host (loc + 24) 0
  pure 0

-- Seconds, and the rest in units of which `per_second` make a second.
unfoldable pub put_time : Host → (per_second cycle loc : ℕ) → Cmd Kernel ℕ
put_time host per_second cycle loc = do
  put_long host loc (cycle / clock_freq)
  put_long host (loc + 8) (cycle % clock_freq / (clock_freq / per_second))
  pure 0

unfoldable pub sys_gettimeofday : Host → (cycle loc : ℕ) → Cmd Kernel ℕ
sys_gettimeofday host = put_time host 1000000

unfoldable pub sys_clock_gettime : Host → (cycle clk_id loc : ℕ) → Cmd Kernel ℕ
sys_clock_gettime host cycle clk_id loc = put_time host 1000000000 cycle loc

unfoldable pub sys_rt_sigaction : Host → (sig act oact sssz : ℕ) → Cmd Kernel ℕ
sys_rt_sigaction host sig act oact sssz =
    if oact == 0
    then pure 0
    else do put_long host oact 0; put_long host (oact + 8) 0; put_long host (oact + 16) 0; pure 0

unfoldable pub sys_stub_success : Cmd Kernel ℕ
sys_stub_success = pure 0

unfoldable pub sys_stub_nosys : Cmd Kernel ℕ
sys_stub_nosys = pure (neg enosys)
