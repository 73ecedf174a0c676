-- ===== src/Interrupts.antt =====
-- Exceptions and interrupt requests, src/interrupts/interrupts_pi3.cpp and
-- src/interrupts/interrupts_pi5.cpp.
pub mod Pi3
pub mod Pi5
pub mod Serving
pub mod Counting
use kehinde_kernel.Prelude.{
  ℕ, ◌+◌, ◌*◌, ◌/◌, ◌^◌, Bool, true, false, ◌==◌, if◌then◌else◌, List, [], ◌∷◌,
}
use kehinde_kernel.Bits.{bit_and, bit_or, bit}
use kehinde_kernel.Prelude.Codes.{codes}
use kehinde_kernel.Run.{Run, ok, ◌>>=◌}
use kehinde_kernel.Board.{Board, gicd_base, gicc_base}
use kehinde_kernel.Uart.{Bus, mmio_write, mmio_read, write_all, uart_puts, uart_put_hex}
use kehinde_kernel.Timer.{Timer, SysReg, cntp_tval_el0, increment_time, get_freq}

-- What a handler comes to: it goes back to the interrupted code, or loops for ever.
pub data Outcome : Type 0 where
  returns : Bus → Outcome
  hangs : Bus → Outcome

-- A piece of a message.
pub data Piece : Type 0 where
  text : List ℕ → Piece
  hex : ℕ → Piece

unfoldable pub print : Board → List Piece → Bus → Run Bus
print board [] bus = ok bus
print board (text s ∷ rest) bus = uart_puts board s bus >>= λ bus'. print board rest bus'
print board (hex n ∷ rest) bus = uart_put_hex board n bus >>= λ bus'. print board rest bus'

-- The end of the report that all fatal cases share.
abbrev registers : ℕ → ℕ → List Piece → List Piece
registers far dfsc rest =
    text (codes "FAR_EL1: ") ∷ hex far ∷ text (codes "\nDFSC: ") ∷ hex dfsc ∷ rest

-- `handle_synchronous_interrupts`, of `ESR_EL1` and `FAR_EL1`; both files have the same code.
-- `ELR_EL1` is read and not used.
unfoldable pub handle_synchronous_interrupts : Board → ℕ → ℕ → Bus → Run Outcome
handle_synchronous_interrupts board esr far bus =
    let ec = bit_and (esr / 2 ^ 26) 0x3F in
    let iss = bit_and esr 0x1FF_FFFF in
    let dfsc = bit_and iss 0x3F in
    let halt : List Piece → Run Outcome =
      λ report. print board report bus >>= λ bus'. ok (hangs bus') in
    if ec == 0x20
    then halt (text (codes "Instruction Abort from a lower EL.") ∷ registers far dfsc [])
    else if ec == 0x21
    then halt (
        text (codes "Instruction Abort from the same EL.\n")
        ∷ text (codes "There is likely no VA to PA mapping, or you did it wrong.\n")
        ∷ registers far dfsc (hex far ∷ []))
    else if ec == 0x24
    then halt (text (codes "Data Abort from a lower EL \n") ∷ registers far dfsc (hex far ∷ []))
    else if ec == 0x25
    then halt (
        text (codes "Data Abort from the same EL \n")
        ∷ text (codes "Kernel did a load/store to an unmapped or wrong-perm VA.\n")
        ∷ registers far dfsc [])
    else if ec == 0x0E
    then halt (text (codes "Illegal execution state \n") ∷ registers far dfsc [])
    else if ec == 0x15
    then (print board (text (codes "SVC from AArch64: System call. \n") ∷ []) bus >>= λ bus'.
        ok (returns bus'))
    else ok (returns bus)

-- The reload of `CNTP_TVAL_EL0` and the tick.
unfoldable pub tick : Timer → Timer
tick t = increment_time (record t { sysregs = (cntp_tval_el0, get_freq t / 10) ∷ t.sysregs })
