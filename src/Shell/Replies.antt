-- ===== src/Shell/Replies.antt =====
-- The commands of src/shell/shell.cpp that only print.
use kehinde_kernel.Prelude.{ℕ, List, [], ◌∷◌}
use kehinde_kernel.Prelude.Codes.{codes}
use kehinde_kernel.Run.{Run}
use kehinde_kernel.Run.Ends.{Ends, returns, Ends->>=, Ends-weaker}
use kehinde_kernel.Board.{Board}
use kehinde_kernel.Uart.{Bus}
use kehinde_kernel.Uart.Output.{Sends, uart_puts-Sends}
use kehinde_kernel.Uart.Text.{uart_put_uint-Sends}
use kehinde_kernel.Timer.{shell_print_time, get_time}
use kehinde_kernel.Shell.{Shell}
use kehinde_kernel.Shell.Commands.{print_banner, say_all, cmd_help, cmd_clear, cmd_pwd, cmd_timer}
use kehinde_kernel.Shell.Valid.{Lasts, Keeps, bus-Lasts, say-Keeps}

-- A call of the console that gives no result.
abbrev Calls : Type 0 → Type 0 → Run Bus → Type 0
Calls Oom M = Ends Oom M (λ (_ : Bus). Unit {0})

Sends-Calls :
    {Oom M : Type 0} (board : Board) (bus : Bus) {r : Run Bus} → Sends board bus r → Calls Oom M r
Sends-Calls board bus h = Ends-weaker (λ x. absurd x) (λ x. absurd x) (λ _ _. tt) h

module _ {S : Type 0} {n : ℕ} {Oom M : Type 0} (board : Board) where
  say_all-Keeps :
      (texts : List (List ℕ)) (sh : Shell S) → Lasts n sh → Keeps n Oom M (say_all board texts sh)
  unfolding say_all
  say_all-Keeps [] sh v = returns v
  say_all-Keeps (text ∷ rest) sh v =
      Ends->>= _ (say-Keeps board text sh v) (λ sh' v'. say_all-Keeps rest sh' v')

  pub cmd_help-Keeps : (sh : Shell S) → Lasts n sh → Keeps n Oom M (cmd_help board sh)
  unfolding cmd_help
  cmd_help-Keeps sh v = say_all-Keeps _ sh v

  pub cmd_clear-Keeps : (sh : Shell S) → Lasts n sh → Keeps n Oom M (cmd_clear board sh)
  unfolding cmd_clear
  cmd_clear-Keeps sh v = say-Keeps board _ sh v

  pub cmd_pwd-Keeps : (sh : Shell S) → Lasts n sh → Keeps n Oom M (cmd_pwd board sh)
  unfolding cmd_pwd
  cmd_pwd-Keeps sh v = Ends->>= _ (say-Keeps board _ sh v) (λ sh' v'. say-Keeps board _ sh' v')

  pub print_banner-Keeps : (sh : Shell S) → Lasts n sh → Keeps n Oom M (print_banner board sh)
  unfolding print_banner
  print_banner-Keeps sh v = Ends->>= _ (say-Keeps board _ sh v) (λ sh1 v1.
      Ends->>= _ (say-Keeps board _ sh1 v1)
        (λ sh2 v2. Ends->>= _ (say-Keeps board _ sh2 v2) (λ sh3 v3. say-Keeps board _ sh3 v3)))

  pub cmd_timer-Keeps : (sh : Shell S) → Lasts n sh → Keeps n Oom M (cmd_timer board sh)
  unfolding cmd_timer shell_print_time get_time
  cmd_timer-Keeps sh v =
      Ends->>= _
        (Ends->>= _ (Sends-Calls board sh.bus (uart_puts-Sends board (codes "\rUptime: ") sh.bus))
          (λ bus1 _.
            Ends->>= _
              (Sends-Calls board bus1 (uart_put_uint-Sends board sh.timer.time bus1 v.valid.clock))
              (λ bus2 _. Sends-Calls board bus2 (uart_puts-Sends board (codes "\r\n") bus2))))
        (λ bus' _. say-Keeps board _ (record sh { bus = bus' }) (bus-Lasts sh bus' v))
