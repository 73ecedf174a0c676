-- ===== src/Timer.antt =====
-- The timer driver, src/timer/timer.cpp. The registers of the generic timer are written in
-- `sysregs`, the newest first; the frequency register is an argument.
use kehinde_kernel.Prelude.{ℕ, ◌+◌, ◌/◌, List, ◌∷◌}
use kehinde_kernel.Bits.{u64}
use kehinde_kernel.Prelude.Codes.{codes}
use kehinde_kernel.Run.{Run, ◌>>=◌}
use kehinde_kernel.Board.{Board}
use kehinde_kernel.Uart.{Bus, uart_puts, uart_put_uint}

pub data SysReg : Type 0 where
  cntp_tval_el0 : SysReg
  cntp_ctl_el0 : SysReg

pub record Timer : Type 0 where
  pub time : ℕ
  pub freq : ℕ
  pub sysregs : List (SysReg × ℕ)

-- `timer_init`, of the value of `CNTFRQ_EL0`.
unfoldable pub timer_init : ℕ → Timer → Timer
timer_init cntfrq t = record {
  time = t.time;
  freq = cntfrq;
  sysregs = (cntp_ctl_el0, 1) ∷ (cntp_tval_el0, cntfrq / 10) ∷ t.sysregs;
}

-- `increment_time`.
unfoldable pub increment_time : Timer → Timer
increment_time t = record t { time = u64 (t.time + 1) }

-- `get_time`.
unfoldable pub get_time : Timer → ℕ
get_time t = t.time

-- `get_freq`.
unfoldable pub get_freq : Timer → ℕ
get_freq t = t.freq

-- `print_time`.
unfoldable pub print_time : Board → Timer → Bus → Run Bus
print_time board t bus =
    uart_puts board (codes "\rUptime: ") bus >>= λ bus'. uart_put_uint board (get_time t) bus'

-- `shell_print_time`.
unfoldable pub shell_print_time : Board → Timer → Bus → Run Bus
shell_print_time board t bus = do
  bus' ← uart_puts board (codes "\rUptime: ") bus
  bus'' ← uart_put_uint board (get_time t) bus'
  uart_puts board (codes "\r\n") bus''
