-- ===== src/Utils/Wait.antt =====
-- The bounded waits of core/utils.c: a register that is read until its masked bits are as expected.
use stm32_cli_os.Prelude.{
  ℕ, zero, suc, ◌+◌, ◌≤◌, ◌≡◌, ◌≢◌, ap, ◌∙◌, inl, inr, Bool, true, false, arith, if◌then◌else◌,
  Bool-cases, ◌==◌, ==_iff, sym,
}

pub data WaitResult : Type 0 where
  wait_ok wait_timeout : WaitResult

-- The loop of `wait_for_flag_set`, `wait_for_flag_clear` and `wait_for_reg_mask_eq`, for the test
-- that ends it: `reads n` is what the `n`-th read of the register gives, `i` the counter.
unfoldable pub wait_until : (ℕ → Bool) → (ℕ → ℕ) → ℕ → ℕ → WaitResult
wait_until done reads zero n = if done (reads n) then wait_ok else wait_timeout
wait_until done reads (suc i) n =
    let rest = wait_until done reads i (n + 1) in if done (reads n) then wait_ok else rest

-- What the result says of the `i + 1` reads from `n` on.
abbrev pub Waited : (ℕ → Bool) → (ℕ → ℕ) → ℕ → ℕ → WaitResult → Type 0
Waited done reads i n wait_ok = (k : ℕ) × (n ≤ k) × (k ≤ n + i) × (done (reads k) ≡ true)
Waited done reads i n wait_timeout = (k : ℕ) → n ≤ k → k ≤ n + i → done (reads k) ≡ false

Waited-suc :
    (done : ℕ → Bool) (reads : ℕ → ℕ) (i n : ℕ) (r : WaitResult)
    → done (reads n) ≡ false
    → Waited done reads i (n + 1) r
    → Waited done reads (suc i) n r
Waited-suc done reads i n wait_ok off (k, lo, hi, on) =
    (k, omega (arith, lo), omega (arith, hi), on)
Waited-suc done reads i n wait_timeout off f = λ k lo hi. elim (Bool-cases (n == k)) [
  | inl here ↦ ap (λ x. done (reads x)) (sym ((==_iff n k).0 here)) ∙ off
  | inr later ↦
      let ne : n ≢ k = λ e. absurd (cc (later, (==_iff n k).1 e)) in
      f k (omega (arith, lo, ne)) (omega (arith, hi))
]

-- A bounded wait reads the register at most one time more than its counter: it succeeds only if one
-- of those reads passes the test, and fails only if none does.
pub wait_until-Waited :
    (i : ℕ) (done : ℕ → Bool) (reads : ℕ → ℕ) (n : ℕ)
    → Waited done reads i n (wait_until done reads i n)
unfolding wait_until
wait_until-Waited zero done reads n = elim (Bool-cases (done (reads n))) [
  | inl on ↦ rw on (n, omega arith, omega arith, on)
  | inr off ↦
      rw off λ k lo hi. let e : k ≡ n = omega (arith, lo, hi) in ap (λ x. done (reads x)) e ∙ off
]
wait_until-Waited (suc i) done reads n = elim (Bool-cases (done (reads n))) [
  | inl on ↦ rw on (n, omega arith, omega arith, on)
  | inr off ↦ rw off (Waited-suc done reads i n _ off (wait_until-Waited i done reads (n + 1)))
]
