-- ===== src/Uart/Send.antt =====
-- `uart_write_buffer` and the transmit ring of an instance as a queue.
use stm32_cli_os.Prelude.{
  ℕ, zero, suc, ◌+◌, ◌-◌, ◌*◌, ◌%◌, ◌<◌, ◌≡◌, ◌≢◌, refl, sym, ap, ap₂, subst, ◌∙◌, ◌⊎◌, inl, inr,
  true, false, some, List, [], ◌∷◌, ◌++◌, append_assoc, append-nil, arith, ◌==◌, ==_iff, ==_ne,
  Bool-cases, put, min, ltb, lt→ltb,
}
use native.Mathlib.Nat.{mod-lt}
use stm32_cli_os.Memory.{Mem}
use stm32_cli_os.Allocator.{null}
use stm32_cli_os.Uart.{
  Uart, ring_used, row, write_loop, uart_get_index, uart_write_buffer, write_at, has_bit, clear_bit,
}
use stm32_cli_os.Uart.Irq.{irq_transmit}
use stm32_cli_os.Uart.Receive.{bytes, row-put}
use stm32_cli_os.Uart.Ring.{
  contents, contents-push, used-lt, head-eq, full_iff, empty_iff, push-used, pop-used,
}

pub record IsTxRing (u : Uart) (idx : ℕ) : Type 0 where
  pub head_lt : u.tx_head idx < 512
  pub tail_lt : u.tx_tail idx < 512

abbrev pub tx_used : Uart → ℕ → ℕ
tx_used u idx = ring_used 512 (u.tx_head idx) (u.tx_tail idx)

-- The bytes that wait for the transmitter, the oldest first.
abbrev pub tx_queue : Uart → ℕ → List ℕ
tx_queue u idx = contents 512 (row u.tx_buf idx) (u.tx_tail idx) (tx_used u idx)

-- What a call enqueues of the `k` bytes at `src + sent`.
pub record Written (u : Uart) (idx : ℕ) (m : Mem) (src k sent : ℕ) (result : ℕ × Uart)
    : Type 0 where
  pub count : result.0 ≡ sent + min k (511 - tx_used u idx)
  pub queue :
      tx_queue result.1 idx ≡ tx_queue u idx ++ bytes m (src + sent) (min k (511 - tx_used u idx))
  pub ring : IsTxRing result.1 idx
  pub inside : result.1.stray ≡ u.stray

-- One round of the loop.
abbrev tx_push : Uart → ℕ → ℕ → Uart
tx_push u idx b = record u {
  tx_buf = put u.tx_buf (256 * idx + u.tx_head idx) b;
  tx_head = put u.tx_head idx ((u.tx_head idx + 1) % 512);
}

module _ (u : Uart) (idx b : ℕ) (r : IsTxRing u idx)
    (room : (u.tx_head idx + 1) % 512 ≢ u.tx_tail idx) where
  push-ring : IsTxRing (tx_push u idx b) idx
  push-ring =
      let next : (u.tx_head idx + 1) % 512 < 512 = mod-lt (u.tx_head idx + 1) (omega arith) in
      record { head_lt = rw ((==_iff idx idx).1 refl) next; tail_lt = r.tail_lt }

  push-tx_used : tx_used (tx_push u idx b) idx ≡ suc (tx_used u idx)
  push-tx_used =
      rw ((==_iff idx idx).1 refl)
        (push-used 512 (u.tx_head idx) (u.tx_tail idx) r.head_lt r.tail_lt room)

  push-queue : tx_queue (tx_push u idx b) idx ≡ tx_queue u idx ++ (b ∷ [])
  push-queue =
      let h : ℕ = u.tx_head idx in
      let t : ℕ = u.tx_tail idx in
      let k : ℕ = tx_used u idx in
      let place = head-eq 512 h t r.head_lt r.tail_lt in
      let queue =
        contents-push 512 (row u.tx_buf idx) k t b (used-lt 512 h t r.head_lt r.tail_lt)
          r.tail_lt in
      ap₂ (λ f n. contents 512 f t n) (row-put u.tx_buf idx h b) push-tx_used
      ∙ subst
          (λ x. contents 512 (put (row u.tx_buf idx) x b) t (suc k) ≡ tx_queue u idx ++ (b ∷ []))
          (sym place) queue

pub write_loop-Written :
    (k : ℕ) (u : Uart) (idx : ℕ) (m : Mem) (src sent : ℕ)
    → idx < 5
    → IsTxRing u idx
    → Written u idx m src k sent (write_loop k u idx m src sent)
unfolding write_loop
write_loop-Written zero u idx m src sent slot r =
    let z : min 0 (511 - tx_used u idx) ≡ 0 = omega arith in
    record {
      count = omega arith;
      queue = rw z (sym (append-nil (tx_queue u idx)));
      ring = r;
      inside = refl;
    }
write_loop-Written (suc k) u idx m src sent slot r =
    let h : ℕ = u.tx_head idx in
    let t : ℕ = u.tx_tail idx in
    let full = full_iff 512 h t r.head_lt r.tail_lt in
    elim (Bool-cases ((h + 1) % 512 == t)) [
      | inl stop ↦
          let last = full.0 ((==_iff _ _).0 stop) in
          let z : min (suc k) (511 - tx_used u idx) ≡ 0 = omega (arith, last) in
          rw stop (record {
            count = omega (arith, z);
            queue = rw z (sym (append-nil (tx_queue u idx)));
            ring = r;
            inside = refl;
          })
      | inr go ↦
          let room : (h + 1) % 512 ≢ t = λ e. absurd (cc (go, (==_iff _ _).1 e)) in
          let b : ℕ = m (src + sent) in
          let u' = tx_push u idx b in
          let more = push-tx_used u idx b r room in
          let w = write_loop-Written k u' idx m src (sent + 1) slot (push-ring u idx b r room) in
          let unfilled : tx_used u idx + 1 ≢ 512 = λ e. room (full.1 e) in
          let space : tx_used u idx < 511 =
            omega (arith, used-lt 512 h t r.head_lt r.tail_lt, unfilled) in
          let z : min (suc k) (511 - tx_used u idx) ≡ suc (min k (511 - tx_used u' idx)) =
            omega (arith, more, space) in
          let e : src + (sent + 1) ≡ src + sent + 1 = omega arith in
          let q = tx_queue u idx in
          let rest = bytes m (src + sent + 1) (min k (511 - tx_used u' idx)) in
          let first : tx_queue u' idx ++ rest ≡ (q ++ (b ∷ [])) ++ rest =
            ap (λ l. l ++ rest) (push-queue u idx b r room) in
          let stored : ltb (256 * idx + h) 1536 ≡ true =
            lt→ltb (256 * idx + h) 1536 (omega (arith, slot, r.head_lt)) in
          rw (go, stored)
            (record {
              count = omega (arith, w.count, z);
              queue = rw z ((rw e at w.queue) ∙ first ∙ append_assoc q (b ∷ []) rest);
              ring = w.ring;
              inside = w.inside;
            })
    ]

module _ (u : Uart) (uart idx : ℕ) (live : uart ≢ null)
    (found : uart_get_index u uart ≡ some idx) where
  -- For an instance that is not `NULL`, is registered in one of the first five slots and has
  -- positions inside the ring, `uart_write_buffer` appends to its transmit queue the first bytes of
  -- the source, as many as fit below 511 and at most `len`, returns their number, and stores no
  -- byte behind the buffers.
  pub write-Written :
      (m : Mem) (src len : ℕ)
      → idx < 5
      → IsTxRing u idx
      → Written u idx m src len 0 (uart_write_buffer u uart m src len)
  unfolding uart_write_buffer
  write-Written m src len slot r =
      let w = write_loop-Written len u idx m src 0 slot r in
      let at : Written u idx m src len 0 (write_at u uart m src len (some idx)) = record {
        count = w.count;
        queue = w.queue;
        ring = record { head_lt = w.ring.head_lt; tail_lt = w.ring.tail_lt };
        inside = w.inside;
      } in
      rw (==_ne uart null live)
        (subst (λ o. Written u idx m src len 0 (write_at u uart m src len o)) (sym found) at)

has_bit-clear_bit : (x : ℕ) → has_bit (clear_bit x 7) 7 ≡ false
has_bit-clear_bit x = ground arith

-- What the interrupt does with the transmit ring when `TXE` is set.
abbrev pub Transmitted : Uart → ℕ → ℕ → Uart → Type 0
Transmitted u uart idx u' =
    ((tx_used u idx ≡ 0) × (tx_queue u' idx ≡ []) × (has_bit (u'.usart uart).cr1 7 ≡ false))
    ⊎ (tx_queue u idx ≡ (u'.usart uart).tdr ∷ tx_queue u' idx)

-- With positions inside the ring and `TXE` set, the transmit part of the interrupt moves the oldest
-- byte of the transmit queue to `TDR`; where the queue is empty it stays empty and the interrupt is
-- turned off.
pub transmit-Transmitted :
    (u : Uart) (uart idx isr : ℕ)
    → IsTxRing u idx
    → has_bit isr 7 ≡ true
    → Transmitted u uart idx (irq_transmit u uart idx isr)
unfolding irq_transmit
transmit-Transmitted u uart idx isr r ready =
    let h : ℕ = u.tx_head idx in
    let t : ℕ = u.tx_tail idx in
    let same = (==_iff idx idx).1 refl in
    let same' = (==_iff uart uart).1 refl in
    elim (Bool-cases (h == t)) [
      | inl empty ↦
          let z = (empty_iff 512 h t r.head_lt r.tail_lt).1 ((==_iff h t).0 empty) in
          rw (ready, empty, same', z) (inl (refl, refl, has_bit-clear_bit (u.usart uart).cr1))
      | inr more ↦
          let ne : h ≢ t = λ e. absurd (cc (more, (==_iff h t).1 e)) in
          let p = pop-used 512 h t r.head_lt r.tail_lt ne in
          rw (ready, more, same, same', p) (inr refl)
    ]
