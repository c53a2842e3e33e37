-- ===== src/Device/Serial/Transfer.antt =====
-- What the serial driver sends and receives, over a mini UART that behaves as its manual says.
use pimento.Base.{
  ℕ, zero, suc, ◌-◌, ◌≤◌, ◌<◌, ◌≡◌, refl, sym, ap, ◌∙◌, inl, inr, ◌+◌, ◌⊎◌, panic, ltb, ◌||◌, suc,
  ==→≡, arith, Bool, true, false, some, List, [], ◌∷◌, ◌++◌, length, ok, ◌==◌, Bool-cases, leb,
  not_ltb,
}
use pimento.Base.Bits.{bit_and}
use pimento.Memory.Reserve.{HeapRoom, reserves}
use pimento.Device.Registers.{Registers}
use pimento.Device.Serial.{
  aux_mu_lsr, aux_mu_io, aux_mu_lsr_tx_empty, aux_mu_lsr_rx_ready, write_byte, read_byte, read_all,
  read, write_all, write,
}

abbrev pub is_empty : List ℕ → Bool
is_empty [] = true
is_empty (x ∷ xs) = false

-- The two queues of a UART, and how often its status is read until the transmitter is empty. A byte
-- is put in while the transmitter is empty, and no byte arrives by itself.
pub record Uart {W : Type 0} (registers : Registers W) : Type 0 where
  pub received : W → List ℕ
  pub sent : W → List ℕ
  pub busy : W → ℕ
  pub limit : ℕ
  pub busy_lt : (w : W) → busy w < limit
  pub rx_ready :
      (w : W)
      → (bit_and (registers.read aux_mu_lsr w).0 aux_mu_lsr_rx_ready == 0) ≡ is_empty (received w)
  pub tx_empty :
      (w : W) → (bit_and (registers.read aux_mu_lsr w).0 aux_mu_lsr_tx_empty == 0) ≡ leb 1 (busy w)
  pub status_received : (w : W) → received (registers.read aux_mu_lsr w).1 ≡ received w
  pub status_sent : (w : W) → sent (registers.read aux_mu_lsr w).1 ≡ sent w
  pub status_busy : (w : W) → busy (registers.read aux_mu_lsr w).1 ≡ busy w - 1
  pub take_byte :
      (w : W) (byte : ℕ) (bytes : List ℕ)
      → received w ≡ byte ∷ bytes
      → (registers.read aux_mu_io w).0 ≡ byte
  pub take_rest :
      (w : W) (byte : ℕ) (bytes : List ℕ)
      → received w ≡ byte ∷ bytes
      → received (registers.read aux_mu_io w).1 ≡ bytes
  pub take_sent : (w : W) → sent (registers.read aux_mu_io w).1 ≡ sent w
  pub put_sent :
      (w : W) (byte : ℕ)
      → busy w ≡ 0
      → sent (registers.write aux_mu_io byte w) ≡ sent w ++ byte ∷ []
  pub put_received : (w : W) (byte : ℕ) → received (registers.write aux_mu_io byte w) ≡ received w

or-false : (a b : Bool) → a || b ≡ false → (a ≡ false) × (b ≡ false)
or-false true b e = cc
or-false false b e = (refl, e)

or-right : (a b : Bool) → a || b ≡ true → a ≡ false → b ≡ true
or-right true b e left = cc
or-right false b e left = e

past_count : (have count : ℕ) → count ≤ have → ltb have count ≡ false
past_count have count past = ground (arith, past)

above_suc : (n have : ℕ) → have < n → (n == suc have) ≡ false → suc have < n
above_suc n have past later = ground (arith, past, later)

append_assoc : (xs ys zs : List ℕ) → (xs ++ ys) ++ zs ≡ xs ++ (ys ++ zs)
append_assoc [] ys zs = refl
append_assoc (x ∷ xs) ys zs = ap (λ t. x ∷ t) (append_assoc xs ys zs)

append_empty : (xs : List ℕ) → xs ++ [] ≡ xs
append_empty [] = refl
append_empty (x ∷ xs) = ap (λ t. x ∷ t) (append_empty xs)

module _ {W : Type 0} (registers : Registers W) (uart : Uart registers) where
  -- The driver has sent `bytes`, and received nothing.
  abbrev pub Sent : W → List ℕ → W → Type 0
  Sent w bytes w' = (uart.sent w' ≡ uart.sent w ++ bytes) × (uart.received w' ≡ uart.received w)

  write_byte_lem :
      (fuel byte : ℕ) (w : W)
      → uart.busy w < fuel
      → (w' : W) × (write_byte registers fuel byte w ≡ some w') × Sent w (byte ∷ []) w'
  unfolding write_byte
  write_byte_lem zero byte w enough = absurd (omega arith)
  write_byte_lem (suc fuel) byte w enough = elim (Bool-cases (leb 1 (uart.busy w))) [
    | inl waiting ↦
        let (w', e, (sent, received)) =
          write_byte_lem fuel byte (registers.read aux_mu_lsr w).1
            (ground (arith, uart.status_busy w, waiting)) in
        (
          w',
          rw (write_byte, uart.tx_empty w, waiting) e,
          (sent ∙ ap (λ t. t ++ byte ∷ []) (uart.status_sent w), received ∙ uart.status_received w),
        )
    | inr ready ↦ (
      registers.write aux_mu_io byte (registers.read aux_mu_lsr w).1,
      rw (write_byte, uart.tx_empty w, ready) refl,
      (
        uart.put_sent (registers.read aux_mu_lsr w).1 byte
              (ground (arith, uart.status_busy w, ready))
            ∙ ap (λ t. t ++ byte ∷ []) (uart.status_sent w),
        uart.put_received (registers.read aux_mu_lsr w).1 byte ∙ uart.status_received w,
      ),
    )
  ]

  write_all_lem :
      (fuel : ℕ) (buf : List ℕ) (w : W)
      → uart.limit ≤ fuel
      → (w' : W) × (write_all registers fuel buf w ≡ some w') × Sent w buf w'
  unfolding write_all
  write_all_lem fuel [] w enough = (w, refl, (sym (append_empty (uart.sent w)), refl))
  write_all_lem fuel (byte ∷ buf) w enough =
      let (w1, e, (sent, received)) = write_byte_lem fuel byte w (omega (arith, uart.busy_lt w)) in
      let (w2, e', (sent', received')) = write_all_lem fuel buf w1 enough in
      (
        w2,
        rw (write_all, e) e',
        (
          sent' ∙ ap (λ t. t ++ buf) sent ∙ append_assoc (uart.sent w) (byte ∷ []) buf,
          received' ∙ received,
        ),
      )

  -- The driver has received all there was, and sent nothing.
  abbrev pub Drained : W → W → Type 0
  Drained w w' = (uart.received w' ≡ []) × (uart.sent w' ≡ uart.sent w)

  read_byte-some :
      (w : W) (byte : ℕ) (bytes : List ℕ)
      → uart.received w ≡ byte ∷ bytes
      → read_byte registers w
        ≡ (some byte, (registers.read aux_mu_io (registers.read aux_mu_lsr w).1).1)
  unfolding read_byte
  read_byte-some w byte bytes e =
      let w1 : W = (registers.read aux_mu_lsr w).1 in
      rw (read_byte, uart.rx_ready w, e)
        (ap (λ b. (some b, (registers.read aux_mu_io w1).1))
          (uart.take_byte w1 byte bytes (uart.status_received w ∙ e)))

  -- The heap has room for the buffer, and for each byte that does not fit it; or it has not, for
  -- one of them.
  abbrev pub Granted : HeapRoom → ℕ → List ℕ → Type 0
  Granted heap count bytes =
      (reserves heap count ≡ true)
      × ((n : ℕ) → count < n → n ≤ length bytes → reserves heap n ≡ true)

  abbrev pub Refused : HeapRoom → ℕ → List ℕ → Type 0
  Refused heap count bytes =
      (n : ℕ) × ((n ≡ count) ⊎ ((count < n) × (n ≤ length bytes))) × (reserves heap n ≡ false)

  read_all_lem :
      (heap : HeapRoom) (count have fuel : ℕ) (bytes : List ℕ) (w : W)
      → uart.received w ≡ bytes
      → length bytes ≤ fuel
      → ((w' : W) × (read_all registers heap count have fuel (read_byte registers w)
            ≡ some (ok bytes, w'))
          × Drained w w'
          × ((n : ℕ) → count < n → have < n → n ≤ have + length bytes → reserves heap n ≡ true))
        ⊎ ((w' : W) × (read_all registers heap count have fuel (read_byte registers w)
              ≡ some (panic, w'))
            × ((n : ℕ) × (count < n) × (n ≤ have + length bytes) × (reserves heap n ≡ false)))
  unfolding read_all read_byte
  read_all_lem heap count have fuel [] w e enough = inl (
    (registers.read aux_mu_lsr w).1,
    rw (uart.rx_ready w, e, read_all) refl,
    (uart.status_received w ∙ e, uart.status_sent w),
    λ n above past to. absurd (omega arith),
  )
  read_all_lem heap count have zero (byte ∷ bytes) w e enough = absurd (omega arith)
  read_all_lem heap count have (suc fuel) (byte ∷ bytes) w e enough =
      elim (Bool-cases (ltb have count || reserves heap (suc have))) [
        | inr full ↦ inr (
          w2,
          rw (read_byte-some w byte bytes e, read_all, full) refl,
          let (past, refused) = or-false (ltb have count) (reserves heap (suc have)) full in
              (suc have, omega (arith, not_ltb have count past), omega arith, refused),
        )
        | inl room ↦
            elim (read_all_lem heap count (suc have) fuel bytes w2
              (uart.take_rest w1 byte bytes there) (omega arith)) [
                | inr (w', rest, (n, above, to, refused)) ↦ inr (
                  w',
                  rw (read_byte-some w byte bytes e, read_all, room, rest) refl,
                  (n, above, omega (arith, to), refused),
                )
                | inl (w', rest, (empty, sent), free) ↦ inl (
                  w',
                  rw (read_byte-some w byte bytes e, read_all, room, rest) refl,
                  (empty, sent ∙ uart.take_sent w1 ∙ uart.status_sent w),
                  λ n above past to. elim (Bool-cases (n == suc have)) [
                    | inl this ↦
                        let same = ==→≡ n (suc have) this in
                        ap (reserves heap) same
                        ∙ or-right (ltb have count) (reserves heap (suc have)) room
                            (past_count have count (omega (arith, same, above)))
                    | inr later ↦ free n above (above_suc n have past later) (omega (arith, to))
                  ],
                )
              ]
      ]
    where
      w1 : W
      w1 = (registers.read aux_mu_lsr w).1

      w2 : W
      w2 = (registers.read aux_mu_io w1).1

      there : uart.received w1 ≡ byte ∷ bytes
      there = uart.status_received w ∙ e

  -- With a UART that behaves so, and fuel for its waits and for the bytes that it has received, a
  -- `write` returns the length of the buffer and has sent its bytes in order behind those sent
  -- before. A `read`, whatever number of bytes is asked for, returns all the bytes that were
  -- received, in order, and leaves none, if the heap has room for a buffer of that number, and for
  -- every byte more; otherwise it panics. Neither, when it returns,
  -- does anything to the other queue.
  pub transfer_lem :
      (heap : HeapRoom) (fuel : ℕ) (buf : List ℕ) (count : ℕ) (w : W)
      → uart.limit ≤ fuel
      → length (uart.received w) ≤ fuel
      → ((w' : W) × (write registers fuel buf w ≡ some (ok (length buf), w')) × Sent w buf w')
        × (((w' : W) × (read registers heap fuel count w ≡ some (ok (uart.received w), w'))
              × Drained w w'
              × Granted heap count (uart.received w))
            ⊎ ((w' : W) × (read registers heap fuel count w ≡ some (panic, w'))
                × Refused heap count (uart.received w)))
  unfolding write read
  transfer_lem heap fuel buf count w waits bytes =
      let (w1, e1, sent) = write_all_lem fuel buf w waits in
      (
        (w1, rw (write, e1) refl, sent),
        elim (Bool-cases (reserves heap count)) [
          | inr full ↦ inr (w, rw (read, full) refl, (count, inl refl, full))
          | inl room ↦ elim (read_all_lem heap count 0 fuel (uart.received w) w refl bytes) [
            | inl (w2, e2, drained, free) ↦ inl (
              w2,
              rw (read, room) e2,
              drained,
              (room, λ n above to. free n above (omega (arith, above)) (omega (arith, to))),
            )
            | inr (w2, e2, (n, above, to, refused)) ↦
                inr (w2, rw (read, room) e2, (n, inr (above, omega (arith, to)), refused))
          ]
        ],
      )
