-- ===== src/Uart/Interrupt.antt =====
-- `uart_irq_handler` and `uart_read_buffer` in terms of the queue of received bytes.
use stm32_cli_os.Prelude.{
  ℕ, ◌+◌, ◌%◌, ◌<◌, ◌≤◌, ◌≡◌, ◌≢◌, refl, sym, ap, subst, ◌∙◌, ◌⊎◌, inl, inr, true, false, some, [],
  ◌∷◌, ◌++◌, arith, ◌==◌, ==_iff, ==_ne, Bool-cases, min, add32,
}
use stm32_cli_os.Memory.{Mem}
use stm32_cli_os.Allocator.{null}
use stm32_cli_os.Uart.{
  Uart, has_bit, row, uart_get_index, read_at, read_row, uart_read_buffer, read_loop,
}
use stm32_cli_os.Uart.Irq.{
  irq_errors, irq_at, irq_receive, irq_transmit, rx_push, rx_notify, uart_irq_handler,
}
use stm32_cli_os.Uart.Receive.{
  IsRing, rx_used, rx_queue, Pushed, rx_push-Pushed, bytes, read_loop-Reads,
}

-- The handler touches the receive ring only where a byte arrives.
abbrev pub SameRx : Uart → Uart → Type 0
SameRx u u' =
    (u'.rx_buf ≡ u.rx_buf)
    × (u'.rx_head ≡ u.rx_head)
    × (u'.rx_tail ≡ u.rx_tail)
    × (u'.rx_overflow ≡ u.rx_overflow)

irq_errors-SameRx : (u : Uart) (uart idx isr : ℕ) → SameRx u (irq_errors u uart idx isr)
unfolding irq_errors
irq_errors-SameRx u uart idx isr = elim (Bool-cases (isr % 16 == 0)) [
  | inl e ↦ rw e (refl, refl, refl, refl)
  | inr e ↦ rw e (refl, refl, refl, refl)
]

rx_notify-SameRx : (u : Uart) (idx b : ℕ) → SameRx u (rx_notify u idx b)
rx_notify-SameRx u idx b = elim (Bool-cases (u.rx_callback idx == null)) [
  | inl e ↦ rw e (refl, refl, refl, refl)
  | inr e ↦ rw e (refl, refl, refl, refl)
]

irq_transmit-SameRx : (u : Uart) (uart idx isr : ℕ) → SameRx u (irq_transmit u uart idx isr)
unfolding irq_transmit
irq_transmit-SameRx u uart idx isr = elim (Bool-cases (has_bit isr 7)) [
  | inl e ↦ elim (Bool-cases (u.tx_head idx == u.tx_tail idx)) [
    | inl f ↦ rw (e, f) (refl, refl, refl, refl)
    | inr f ↦ rw (e, f) (refl, refl, refl, refl)
  ]
  | inr e ↦ rw e (refl, refl, refl, refl)
]

SameRx-trans : (u v w : Uart) → SameRx u v → SameRx v w → SameRx u w
SameRx-trans u v w a b = (b.0 ∙ a.0, b.1 ∙ a.1, b.2 ∙ a.2, b.3 ∙ a.3)

-- The queue reads only the ring.
SameRx-queue :
    (u u' : Uart) (idx : ℕ)
    → SameRx u u'
    → (rx_used u' idx ≡ rx_used u idx)
      × (rx_queue u' idx ≡ rx_queue u idx)
      × (u'.rx_overflow idx ≡ u.rx_overflow idx)
SameRx-queue u u' idx s = rw (s.0, s.1, s.2, s.3) (refl, refl, refl)

-- A byte arrives where `RXNE` is set at the second read of `ISR`.
abbrev pub Interrupted : Uart → ℕ → ℕ → ℕ → Uart → Type 0
Interrupted u idx isr₂ rdr u' =
    (has_bit isr₂ 5 ≡ true) × Pushed u idx (rdr % 256) u'
    ⊎ (has_bit isr₂ 5 ≡ false)
      × (rx_queue u' idx ≡ rx_queue u idx)
      × (u'.rx_overflow idx ≡ u.rx_overflow idx)

-- The outcome of a push carries over to states with the same ring.
Pushed-SameRx :
    (u v v' u' : Uart) (idx b : ℕ)
    → SameRx u v
    → Pushed v idx b v'
    → SameRx v' u'
    → Pushed u idx b u'
Pushed-SameRx u v v' u' idx b a p c =
    let q = SameRx-queue u v idx a in
    let q' = SameRx-queue v' u' idx c in
    elim p [
      | inl (room, queue, lost) ↦ inl (
        omega (arith, q.0, room),
        q'.1 ∙ queue ∙ ap (λ l. l ++ (b ∷ [])) (q.1),
        q'.2 ∙ lost ∙ q.2,
      )
      | inr (full, queue, lost) ↦
          inr
            (omega (arith, q.0, full), q'.1 ∙ queue ∙ q.1, q'.2 ∙ lost ∙ ap (λ n. add32 n 1) (q.2))
    ]

module _ (u : Uart) (idx : ℕ) (r : IsRing u idx) where
  receive-Interrupted :
      (v u' : Uart) (isr rdr : ℕ)
      → SameRx u v
      → SameRx (irq_receive v idx isr rdr) u'
      → Interrupted u idx isr rdr u'
  unfolding irq_receive
  receive-Interrupted v u' isr rdr a c = elim (Bool-cases (has_bit isr 5)) [
    | inl byte ↦
        let b : ℕ = rdr % 256 in
        let ring : IsRing v idx = record {
          head_lt = rw (a.1) (r.head_lt);
          tail_lt = rw (a.2) (r.tail_lt);
        } in
        let pushed = rx_push v idx b in
        let c' : SameRx (rx_notify pushed idx b) u' = rw byte at c in
        let rest =
          SameRx-trans pushed (rx_notify pushed idx b) u' (rx_notify-SameRx pushed idx b) c' in
        inl (byte, Pushed-SameRx u v pushed u' idx b a ((rx_push-Pushed v idx b ring).1) rest)
    | inr quiet ↦
        let c' : SameRx v u' = rw quiet at c in
        let q = SameRx-queue u u' idx (SameRx-trans u v u' a c') in inr (quiet, q.1, q.2)
  ]

module _ (u : Uart) (uart idx : ℕ) (found : uart_get_index u uart ≡ some idx)
    (r : IsRing u idx) where
  -- For a registered instance with positions inside its buffer, `uart_irq_handler` appends the low
  -- byte of `RDR` to the receive queue if `RXNE` is set and fewer than 255 bytes wait, only counts
  -- it as overflow if 255 wait, and leaves queue and count as they are if `RXNE` is clear.
  pub irq-Interrupted :
      (isr₁ isr₂ rdr isr₃ : ℕ)
      → Interrupted u idx isr₂ rdr (uart_irq_handler u uart isr₁ isr₂ rdr isr₃)
  unfolding uart_irq_handler
  irq-Interrupted isr₁ isr₂ rdr isr₃ =
      let v = irq_errors u uart idx isr₁ in
      let w = irq_receive v idx isr₂ rdr in
      subst (λ o. Interrupted u idx isr₂ rdr (irq_at u uart isr₁ isr₂ rdr isr₃ o)) (sym found)
        (receive-Interrupted u idx r v (irq_transmit w uart idx isr₃) isr₂ rdr
          (irq_errors-SameRx u uart idx isr₁) (irq_transmit-SameRx w uart idx isr₃))

  -- What `uart_read_buffer` moves to `dst`.
  pub record ReadOut (m : Mem) (dst len : ℕ) (result : ℕ × Mem × Uart) : Type 0 where
    pub count : result.0 ≡ min len (rx_used u idx)
    pub moved : bytes result.1 dst (result.0) ++ rx_queue result.2 idx ≡ rx_queue u idx
    pub outside : (p : ℕ) → (p < dst) ⊎ (dst + len ≤ p) → result.1 p ≡ m p
    pub ring : IsRing result.2 idx

  row-ReadOut : (m : Mem) (dst len : ℕ) → ReadOut m dst len (read_row u idx m dst len)
  unfolding read_row
  row-ReadOut m dst len =
      let l =
        read_loop-Reads (row u.rx_buf idx) (u.rx_head idx) len m dst 0 (u.rx_tail idx) (r.head_lt)
          (r.tail_lt) in
      let same = (==_iff idx idx).1 refl in
      let e : dst + 0 ≡ dst = omega arith in
      let c : (read_loop (row u.rx_buf idx) (u.rx_head idx) len m dst 0 (u.rx_tail idx)).0
          ≡ min len (rx_used u idx) =
        omega (arith, l.count) in
      record {
        count = omega (arith, l.count);
        moved = rw (same, c) (rw e at l.moved);
        outside = λ p o. l.outside p (omega (arith, o));
        ring = record { head_lt = r.head_lt; tail_lt = rw same (l.tail_lt) };
      }

  -- For a registered instance with positions inside its buffer and a destination that is not
  -- `NULL`, `uart_read_buffer` moves the front of the receive queue to memory: the smaller of `len`
  -- and what waits, in order, with no byte outside the destination changed and the rest of the
  -- queue kept.
  pub read-ReadOut :
      (m : Mem) (dst len : ℕ) → dst ≢ null → ReadOut m dst len (uart_read_buffer u uart m dst len)
  unfolding uart_read_buffer
  read-ReadOut m dst len live =
      subst (λ o. ReadOut m dst len (read_at u m dst len o)) (sym found)
        (elim (Bool-cases (len == 0)) [
          | inl nothing ↦
              let z = (==_iff len 0).0 nothing in
              rw (==_ne dst null live, nothing)
                (record { count = omega (arith, z); moved = refl; outside = λ p o. refl; ring = r })
          | inr some_bytes ↦ rw (==_ne dst null live, some_bytes) (row-ReadOut m dst len)
        ])
