-- ===== src/AppCommands/HeapTest/Filled.antt =====
-- What `fill_pattern` of app/app_commands.c writes, and what `verify_pattern` accepts.
use stm32_cli_os.Prelude.{
  ℕ, zero, suc, ◌+◌, ◌%◌, ◌<◌, ◌≤◌, ◌≡◌, ◌≢◌, refl, ap, ◌∙◌, ◌⊎◌, inl, inr, arith, ◌==◌, ==_iff,
  Bool-cases,
}
use stm32_cli_os.Memory.{Mem, store8}
use stm32_cli_os.Allocator.Report.{ok}
use stm32_cli_os.AppCommands.HeapTest.Patterns.{
  fill_loop, fill_pattern, verify_loop, verify_pattern,
}

store8_at : (m : Mem) (a v p : ℕ) → p ≡ a → store8 m a v p ≡ v
unfolding store8
store8_at m a v p e = ground arith

store8_off : (m : Mem) (a v p : ℕ) → (p < a) ⊎ (a < p) → store8 m a v p ≡ m p
unfolding store8
store8_off m a v p e = ground arith

fill_loop-outside :
    (k : ℕ) (m : Mem) (ptr i p : ℕ)
    → (p < ptr + i) ⊎ (ptr + i + k ≤ p)
    → fill_loop k m ptr i p ≡ m p
unfolding fill_loop
fill_loop-outside zero m ptr i p o = refl
fill_loop-outside (suc k) m ptr i p o =
    fill_loop-outside k (store8 m (ptr + i) (i % 256)) ptr (i + 1) p (omega (arith, o))
    ∙ store8_off m (ptr + i) (i % 256) p (omega (arith, o))

fill_loop-inside :
    (k : ℕ) (m : Mem) (ptr i j : ℕ) → i ≤ j → j < i + k → fill_loop k m ptr i (ptr + j) ≡ j % 256
unfolding fill_loop
fill_loop-inside zero m ptr i j lo hi = absurd (omega (arith, lo, hi))
fill_loop-inside (suc k) m ptr i j lo hi = elim (Bool-cases (i == j)) [
  | inl here ↦
      let e = (==_iff i j).0 here in
      fill_loop-outside k (store8 m (ptr + i) (i % 256)) ptr (i + 1) (ptr + j)
        (inl (omega (arith, e)))
      ∙ (store8_at m (ptr + i) (i % 256) (ptr + j) (omega (arith, e)) ∙ ap (λ x. x % 256) e)
  | inr later ↦
      let ne : i ≢ j = λ e. absurd (cc (later, (==_iff i j).1 e)) in
      fill_loop-inside k (store8 m (ptr + i) (i % 256)) ptr (i + 1) j (omega (arith, lo, ne))
        (omega (arith, hi))
]

verify_loop-ok :
    (k : ℕ) (m : Mem) (ptr i : ℕ)
    → ((j : ℕ) → i ≤ j → j < i + k → m (ptr + j) ≡ j % 256)
    → verify_loop k m ptr i ≡ ok
unfolding verify_loop
verify_loop-ok zero m ptr i same = refl
verify_loop-ok (suc k) m ptr i same =
    rw ((==_iff (m (ptr + i)) (i % 256)).1 (same i (omega arith) (omega arith)))
      (verify_loop-ok k m ptr (i + 1) λ j lo hi. same j (omega (arith, lo)) (omega (arith, hi)))

-- The pattern is written to the bytes from `ptr` on, and nowhere else.
module _ (m : Mem) (ptr size : ℕ) where
  pub fill_pattern-outside :
      (p : ℕ) → (p < ptr) ⊎ (ptr + size ≤ p) → fill_pattern m ptr size p ≡ m p
  unfolding fill_pattern
  fill_pattern-outside p o = fill_loop-outside size m ptr 0 p (omega (arith, o))

  pub fill_pattern-inside : (j : ℕ) → j < size → fill_pattern m ptr size (ptr + j) ≡ j % 256
  unfolding fill_pattern
  fill_pattern-inside j lt = fill_loop-inside size m ptr 0 j (omega arith) (omega (arith, lt))

  pub verify_pattern-ok :
      ((j : ℕ) → j < size → m (ptr + j) ≡ j % 256) → verify_pattern m ptr size ≡ ok
  unfolding verify_pattern
  verify_pattern-ok same = verify_loop-ok size m ptr 0 λ j lo hi. same j (omega (arith, hi))
