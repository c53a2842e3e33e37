-- ===== src/Device/Serial.antt =====
-- kernel/src/device/driver/bcm2837_serial.rs: the serial port. A loop that waits for the hardware
-- is on fuel, and has no result when that runs out.

pub mod Transfer
mod Runs
use pimento.Base.{
  ℕ, zero, suc, ◌*◌, ◌^◌, Option, none, some, List, [], ◌∷◌, length, Result, ok, err, panic, ltb,
  ◌||◌, ◌==◌, if◌then◌else◌,
}
use pimento.Base.Bits.{bit_and, bit_or}
use pimento.Memory.Reserve.{HeapRoom, reserves}
use pimento.Device.Registers.{Registers}
use pimento.Device.InterruptController.{bit_not32}

abbrev pub gpfsel1 : ℕ
gpfsel1 = 0xFFFF_0000_3F20_0004

abbrev pub gppud : ℕ
gppud = 0xFFFF_0000_3F20_0094

abbrev pub gppudclk0 : ℕ
gppudclk0 = 0xFFFF_0000_3F20_0098

abbrev pub aux_enables : ℕ
aux_enables = 0xFFFF_0000_3F21_5004

abbrev pub aux_mu_io : ℕ
aux_mu_io = 0xFFFF_0000_3F21_5040

abbrev pub aux_mu_ier : ℕ
aux_mu_ier = 0xFFFF_0000_3F21_5044

abbrev pub aux_mu_iir : ℕ
aux_mu_iir = 0xFFFF_0000_3F21_5048

abbrev pub aux_mu_lcr : ℕ
aux_mu_lcr = 0xFFFF_0000_3F21_504C

abbrev pub aux_mu_mcr : ℕ
aux_mu_mcr = 0xFFFF_0000_3F21_5050

abbrev pub aux_mu_lsr : ℕ
aux_mu_lsr = 0xFFFF_0000_3F21_5054

abbrev pub aux_mu_cntl : ℕ
aux_mu_cntl = 0xFFFF_0000_3F21_5060

abbrev pub aux_mu_baud : ℕ
aux_mu_baud = 0xFFFF_0000_3F21_5068

abbrev pub gpfsel1_fsel14_mask : ℕ
gpfsel1_fsel14_mask = 0b111 * 2 ^ 12

abbrev pub gpfsel1_fsel14_f5 : ℕ
gpfsel1_fsel14_f5 = 0b010 * 2 ^ 12

abbrev pub gpfsel1_fsel15_mask : ℕ
gpfsel1_fsel15_mask = 0b111 * 2 ^ 15

abbrev pub gpfsel1_fsel15_f5 : ℕ
gpfsel1_fsel15_f5 = 0b010 * 2 ^ 15

abbrev pub gppudclk0_pud14 : ℕ
gppudclk0_pud14 = 2 ^ 14

abbrev pub gppudclk0_pud15 : ℕ
gppudclk0_pud15 = 2 ^ 15

abbrev pub aux_enables_mu : ℕ
aux_enables_mu = 1

abbrev pub aux_mu_iir_tx : ℕ
aux_mu_iir_tx = 1

abbrev pub aux_mu_iir_rx : ℕ
aux_mu_iir_rx = 2

abbrev pub aux_mu_lcr_8bit : ℕ
aux_mu_lcr_8bit = 0b11

abbrev pub aux_mu_lsr_rx_ready : ℕ
aux_mu_lsr_rx_ready = 1

abbrev pub aux_mu_lsr_tx_empty : ℕ
aux_mu_lsr_tx_empty = 2 ^ 5

abbrev pub aux_mu_cntl_rx : ℕ
aux_mu_cntl_rx = 1

abbrev pub aux_mu_cntl_tx : ℕ
aux_mu_cntl_tx = 2

module _ {W : Type 0} (registers : Registers W) where
  abbrev changed : ℕ → (ℕ → ℕ) → W → W
  changed address change w =
      let (value, w') = registers.read address w in registers.write address (change value) w'

  -- The writes of `init`, in order. The waits between them take time and do nothing else.
  abbrev pub init : W → W
  init w =
      let w = changed aux_enables (λ value. bit_or value aux_enables_mu) w in
      let w = registers.write aux_mu_ier 0 w in
      let w = registers.write aux_mu_cntl 0 w in
      let w = registers.write aux_mu_lcr aux_mu_lcr_8bit w in
      let w = registers.write aux_mu_mcr 0 w in
      let w = registers.write aux_mu_baud 270 w in
      let w =
        changed gpfsel1
          (λ value.
            bit_or (bit_and value (bit_not32 (bit_or gpfsel1_fsel14_mask gpfsel1_fsel15_mask)))
              (bit_or gpfsel1_fsel14_f5 gpfsel1_fsel15_f5))
          w in
      let w = registers.write gppud 0 w in
      let w = registers.write gppudclk0 (bit_or gppudclk0_pud14 gppudclk0_pud15) w in
      let w = registers.write gppudclk0 0 w in
      let w = registers.write aux_mu_cntl (bit_or aux_mu_cntl_rx aux_mu_cntl_tx) w in
      registers.write aux_mu_iir (bit_or aux_mu_iir_rx aux_mu_iir_tx) w

  -- The wait for the transmitter, and the byte.
  unfoldable pub write_byte : ℕ → ℕ → W → Option W
  write_byte zero byte w = none
  write_byte (suc fuel) byte w =
      let (status, w') = registers.read aux_mu_lsr w in
      let again = write_byte fuel byte w' in
      if bit_and status aux_mu_lsr_tx_empty == 0
      then again
      else some (registers.write aux_mu_io byte w')

  abbrev pub received : ℕ × W → Option ℕ × W
  received (byte, w) = (some byte, w)

  unfoldable pub read_byte : W → Option ℕ × W
  read_byte w =
      let (status, w') = registers.read aux_mu_lsr w in
      if bit_and status aux_mu_lsr_rx_ready == 0
      then (none, w')
      else received (registers.read aux_mu_io w')

  abbrev pub prepend : ℕ → Option (Result (List ℕ) × W) → Option (Result (List ℕ) × W)
  prepend byte none = none
  prepend byte (some (ok bytes, w)) = some (ok (byte ∷ bytes), w)
  prepend byte (some (r, w)) = some (r, w)

  -- The loop, with `have` bytes in the buffer: a `push` past the `count` that it was made for needs
  -- more room.
  unfoldable pub read_all :
      HeapRoom → (count have fuel : ℕ) → Option ℕ × W → Option (Result (List ℕ) × W)
  unfolding read_byte
  read_all heap count have fuel (none, w) = some (ok [], w)
  read_all heap count have zero (some byte, w) = none
  read_all heap count have (suc fuel) (some byte, w) =
      let rest = read_all heap count (suc have) fuel (read_byte w) in
      if ltb have count || reserves heap (suc have) then prepend byte rest else some (panic, w)

  unfoldable pub read : HeapRoom → (fuel count : ℕ) → W → Option (Result (List ℕ) × W)
  unfolding read_all read_byte
  read heap fuel count w =
      if reserves heap count then read_all heap count 0 fuel (read_byte w) else some (panic, w)

  unfoldable pub write_all : ℕ → List ℕ → W → Option W
  unfolding write_byte
  write_all fuel [] w = some w
  write_all fuel (byte ∷ buf) w = elim (write_byte fuel byte w) [
    | none ↦ none
    | some w' ↦ write_all fuel buf w'
  ]

  unfoldable pub write : ℕ → List ℕ → W → Option (Result ℕ × W)
  unfolding write_all
  write fuel buf w = elim (write_all fuel buf w) [
    | none ↦ none
    | some w' ↦ some (ok (length buf), w')
  ]
