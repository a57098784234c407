-- ===== src/Uart/Receive.antt =====
-- The receive ring of an instance as a queue: what the interrupt puts in and what
-- `uart_read_buffer` takes out.
use stm32_cli_os.Prelude.{
  ℕ, zero, suc, ◌+◌, ◌*◌, ◌%◌, ◌<◌, ◌≤◌, ◌≡◌, ◌≢◌, refl, sym, ap₂, subst, ◌∙◌, ◌⊎◌, inl, inr, List,
  [], ◌∷◌, ◌++◌, arith, ◌==◌, ==_iff, ==_ne, Bool-cases, put, min, add32,
}
use mathlib.Core.Path.{fun_ext}
use native.Mathlib.Nat.{mod-lt}
use stm32_cli_os.Memory.{Mem, store8}
use stm32_cli_os.Uart.{Uart, ring_used, row, read_loop}
use stm32_cli_os.Uart.Irq.{rx_push}
use stm32_cli_os.Uart.Ring.{
  contents, contents-push, used-lt, head-eq, empty_iff, full_iff, push-used, pop-used,
}

-- Head and tail are positions of the buffer.
pub record IsRing (u : Uart) (idx : ℕ) : Type 0 where
  pub head_lt : u.rx_head idx < 256
  pub tail_lt : u.rx_tail idx < 256

abbrev pub rx_used : Uart → ℕ → ℕ
rx_used u idx = ring_used 256 (u.rx_head idx) (u.rx_tail idx)

-- The bytes that wait, the oldest first.
abbrev pub rx_queue : Uart → ℕ → List ℕ
rx_queue u idx = contents 256 (row u.rx_buf idx) (u.rx_tail idx) (rx_used u idx)

pub row-put :
    (buf : ℕ → ℕ) (idx i b : ℕ) → row (put buf (256 * idx + i) b) idx ≡ put (row buf idx) i b
row-put buf idx i b = fun_ext λ j. ground arith

-- A byte that arrives: last of the queue, or lost and counted where 255 wait.
abbrev pub Pushed : Uart → ℕ → ℕ → Uart → Type 0
Pushed u idx b u' =
    ((rx_used u idx < 255)
      × (rx_queue u' idx ≡ rx_queue u idx ++ (b ∷ []))
      × (u'.rx_overflow idx ≡ u.rx_overflow idx))
    ⊎ ((rx_used u idx ≡ 255)
        × (rx_queue u' idx ≡ rx_queue u idx)
        × (u'.rx_overflow idx ≡ add32 (u.rx_overflow idx) 1))

pub rx_push-Pushed :
    (u : Uart) (idx b : ℕ)
    → IsRing u idx
    → IsRing (rx_push u idx b) idx × Pushed u idx b (rx_push u idx b)
unfolding rx_push
rx_push-Pushed u idx b r =
    let h : ℕ = u.rx_head idx in
    let t : ℕ = u.rx_tail idx in
    let same = (==_iff idx idx).1 refl in
    let full = full_iff 256 h t r.head_lt r.tail_lt in
    elim (Bool-cases ((h + 1) % 256 == t)) [
      | inl stop ↦
          let last = full.0 ((==_iff _ _).0 stop) in
          rw (stop, same)
            (
              record { head_lt = r.head_lt; tail_lt = r.tail_lt },
              inr (omega (arith, last), refl, refl),
            )
      | inr go ↦
          let room : (h + 1) % 256 ≢ t = λ e. absurd (cc (go, (==_iff _ _).1 e)) in
          let next : (h + 1) % 256 < 256 = mod-lt (h + 1) (omega arith) in
          let more = push-used 256 h t r.head_lt r.tail_lt room in
          let short : rx_used u idx < 255 =
            omega (arith, used-lt 256 h t r.head_lt r.tail_lt, full, room) in
          let place = head-eq 256 h t r.head_lt r.tail_lt in
          let queue =
            contents-push 256 (row u.rx_buf idx) (rx_used u idx) t b (omega (arith, short))
              r.tail_lt in
          rw (go, same)
            (
              record { head_lt = rw same next; tail_lt = r.tail_lt },
              inl (
                short,
                rw (row-put u.rx_buf idx h b, more)
                    (subst
                      (λ x.
                        contents 256 (put (row u.rx_buf idx) x b) t (suc (rx_used u idx))
                        ≡ rx_queue u idx ++ (b ∷ []))
                      (sym place) queue),
                refl,
              ),
            )
    ]

-- `k` bytes of memory from `a` on.
abbrev pub bytes : Mem → ℕ → ℕ → List ℕ
bytes m a zero = []
bytes m a (suc k) = m a ∷ bytes m (a + 1) k

pub bytes-same :
    (m m' : Mem) (a k : ℕ) → ((p : ℕ) → a ≤ p → p < a + k → m' p ≡ m p) → bytes m' a k ≡ bytes m a k
bytes-same m m' a zero same = refl
bytes-same m m' a (suc k) same =
    ap₂ (λ x l. x ∷ l) (same a (omega arith) (omega arith))
      (bytes-same m m' (a + 1) k λ p lo hi. same p (omega arith) (omega arith))

-- What the loop does from `copied` on: it moves the front of the ring to memory.
pub record Reads (buf : ℕ → ℕ) (head k : ℕ) (m : Mem) (dst copied tail : ℕ) (result : ℕ × Mem × ℕ)
    : Type 0 where
  pub count : result.0 ≡ copied + min k (ring_used 256 head tail)
  pub moved :
      bytes result.1 (dst + copied) (min k (ring_used 256 head tail))
        ++ contents 256 buf result.2 (ring_used 256 head result.2)
      ≡ contents 256 buf tail (ring_used 256 head tail)
  pub outside : (p : ℕ) → (p < dst + copied) ⊎ (dst + copied + k ≤ p) → result.1 p ≡ m p
  pub tail_lt : result.2 < 256

pub read_loop-Reads :
    (buf : ℕ → ℕ) (head k : ℕ) (m : Mem) (dst copied tail : ℕ)
    → head < 256
    → tail < 256
    → Reads buf head k m dst copied tail (read_loop buf head k m dst copied tail)
unfolding read_loop store8
read_loop-Reads buf head zero m dst copied tail hh ht = record {
  count = omega arith;
  moved = let z : min 0 (ring_used 256 head tail) ≡ 0 = omega arith in rw z refl;
  outside = λ p o. refl;
  tail_lt = ht;
}
read_loop-Reads buf head (suc k) m dst copied tail hh ht = elim (Bool-cases (head == tail)) [
  | inl stop ↦
      let none_left = (empty_iff 256 head tail hh ht).1 ((==_iff head tail).0 stop) in
      rw stop (record {
        count = omega (arith, none_left);
        moved =
            let z : min (suc k) (ring_used 256 head tail) ≡ 0 = omega (arith, none_left) in
            rw z refl;
        outside = λ p o. refl;
        tail_lt = ht;
      })
  | inr go ↦
      let ne : head ≢ tail = λ e. absurd (cc (go, (==_iff head tail).1 e)) in
      let less = pop-used 256 head tail hh ht ne in
      let m' = store8 m (dst + copied) (buf tail) in
      let r =
        read_loop-Reads buf head k m' dst (copied + 1) ((tail + 1) % 256) hh
          (mod-lt (tail + 1) (omega arith)) in
      rw go (record {
        count = omega (arith, r.count, less);
        moved =
            let left : ℕ = ring_used 256 head ((tail + 1) % 256) in
            let z : min (suc k) (suc left) ≡ suc (min k left) = omega arith in
            let here =
              r.outside (dst + copied) (omega arith)
              ∙ rw ((==_iff (dst + copied) (dst + copied)).1 refl) refl in
            let e : dst + (copied + 1) ≡ dst + copied + 1 = omega arith in
            rw (less, z) (ap₂ (λ x l. x ∷ l) here (rw e at r.moved));
        outside = λ p o.
            let ne' : p ≢ dst + copied = omega (arith, o) in
            r.outside p (omega (arith, o)) ∙ rw (==_ne p (dst + copied) ne') refl;
        tail_lt = r.tail_lt;
      })
]
