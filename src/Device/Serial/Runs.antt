-- ===== src/Device/Serial/Runs.antt =====
-- A UART that needs two reads of its status for each byte that it sends.
use pimento.Base.{
  ℕ, ◌+◌, ◌-◌, ◌<◌, ◌≡◌, ◌⊎◌, panic, refl, arith, List, [], ◌∷◌, ◌++◌, some, ok, ◌==◌,
  if◌then◌else◌, leb,
}
use pimento.Base.Bits.{bit_and}
use pimento.Memory.Reserve.{reserves, unused}
use pimento.Device.Registers.{Registers}
use pimento.Device.Serial.{aux_mu_lsr, read, write, read_all, read_byte}
use pimento.Device.Serial.Transfer.{Uart, Sent, Drained, Granted, Refused, is_empty, transfer_lem}

-- How often the status is still to be read.
data Wait : Type 0 where
  ready once twice : Wait

abbrev reads : Wait → ℕ
reads ready = 0
reads once = 1
reads twice = 2

abbrev less : Wait → Wait
less twice = once
less _ = ready

record Line : Type 0 where
  received : List ℕ
  sent : List ℕ
  busy : Wait

abbrev status_of : List ℕ → Wait → ℕ
status_of received busy =
    (if is_empty received then 0 else 1) + (if leb 1 (reads busy) then 0 else 32)

abbrev status : Line → ℕ
status w = status_of w.received w.busy

abbrev taken : List ℕ → Line → ℕ × Line
taken [] w = (0, w)
taken (byte ∷ bytes) w = (byte, record w { received = bytes })

abbrev registers : Registers Line
registers = record {
  read = λ address w.
      if address == aux_mu_lsr
      then (status w, record w { busy = less w.busy })
      else taken w.received w;
  write = λ address value w. record w { sent = w.sent ++ value ∷ []; busy = twice };
}

rx : (r : List ℕ) (b : Wait) → (bit_and (status_of r b) 1 == 0) ≡ is_empty r
rx [] ready = refl
rx [] once = refl
rx [] twice = refl
rx (x ∷ r) ready = refl
rx (x ∷ r) once = refl
rx (x ∷ r) twice = refl

tx : (r : List ℕ) (b : Wait) → (bit_and (status_of r b) 32 == 0) ≡ leb 1 (reads b)
tx [] ready = refl
tx [] once = refl
tx [] twice = refl
tx (x ∷ r) ready = refl
tx (x ∷ r) once = refl
tx (x ∷ r) twice = refl

reads_lt : (b : Wait) → reads b < 3
reads_lt ready = omega arith
reads_lt once = omega arith
reads_lt twice = omega arith

reads-less : (b : Wait) → reads (less b) ≡ reads b - 1
reads-less ready = refl
reads-less once = refl
reads-less twice = refl

taken_sent : (r : List ℕ) (w : Line) → (taken r w).1.sent ≡ w.sent
taken_sent [] w = refl
taken_sent (x ∷ r) w = refl

abbrev uart : Uart registers
uart = record {
  received = λ w. w.received;
  sent = λ w. w.sent;
  busy = λ w. reads w.busy;
  limit = 3;
  busy_lt = λ w. reads_lt w.busy;
  rx_ready = λ w. rx w.received w.busy;
  tx_empty = λ w. tx w.received w.busy;
  status_received = λ w. refl;
  status_sent = λ w. refl;
  status_busy = λ w. reads-less w.busy;
  take_byte = λ w byte bytes e. rw e refl;
  take_rest = λ w byte bytes e. rw e refl;
  take_sent = λ w. taken_sent w.received w;
  put_sent = λ w byte e. refl;
  put_received = λ w byte. refl;
}

abbrev line : Line
line = record { received = 5 ∷ 6 ∷ 7 ∷ []; sent = 1 ∷ []; busy = twice }

-- No buffer is larger than the heap.
too_large : read registers unused 4 0x40_0001 line ≡ some (panic, line)
unfolding read reserves
too_large = refl

-- Three bytes come for two that were asked for.
too_many :
    read registers unused 4 2 line
    ≡ some (ok (5 ∷ 6 ∷ 7 ∷ []), record { received = []; sent = 1 ∷ []; busy = ready })
unfolding read read_all read_byte reserves
too_many = refl

transfer_lem_example :
    ((w' : Line) × (write registers 4 (8 ∷ 9 ∷ []) line ≡ some (ok 2, w'))
      × Sent registers uart line (8 ∷ 9 ∷ []) w')
    × (((w' : Line) × (read registers unused 4 2 line ≡ some (ok (5 ∷ 6 ∷ 7 ∷ []), w'))
          × Drained registers uart line w'
          × Granted registers uart unused 2 (5 ∷ 6 ∷ 7 ∷ []))
        ⊎ ((w' : Line) × (read registers unused 4 2 line ≡ some (panic, w'))
            × Refused registers uart unused 2 (5 ∷ 6 ∷ 7 ∷ [])))
transfer_lem_example =
    transfer_lem registers uart unused 4 (8 ∷ 9 ∷ []) 2 line (omega arith) (omega arith)
