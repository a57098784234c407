-- ===== src/Uart/Ring.antt =====
-- Ring buffers against queues: `size - 1` bytes at most, in the order in which they came.
use stm32_cli_os.Prelude.{
  ℕ, zero, suc, ◌+◌, ◌-◌, ◌%◌, ◌<◌, ◌≤◌, ◌≡◌, ◌≢◌, refl, sym, ap, ap₂, subst, ◌∙◌, ◌⊎◌, inl, inr,
  ◌↔◌, ltb, ltb→lt, ltb→le, List, [], ◌∷◌, ◌++◌, arith, ◌==◌, ==_iff, ==_ne, Bool-cases, put,
}
use native.Mathlib.Nat.{mod-add-mod, mod-lt, mod-eq_of_lt, mod_self, add-mod_right}
use stm32_cli_os.Uart.{ring_used}

module _ (n : ℕ) where
  -- The `k` bytes from `tail` on, around the buffer.
  abbrev pub contents : (ℕ → ℕ) → ℕ → ℕ → List ℕ
  contents buf tail zero = []
  contents buf tail (suc k) = buf tail ∷ contents buf ((tail + 1) % n) k

  pub wrap-cases : (x : ℕ) → x < n + n → ((x < n) × (x % n ≡ x)) ⊎ ((n ≤ x) × (x % n ≡ x - n))
  wrap-cases x lt = elim (Bool-cases (ltb x n)) [
    | inl less ↦ let h = ltb→lt x n less in inl (h, mod-eq_of_lt h)
    | inr more ↦
        let h = ltb→le x n more in
        let e : x ≡ (x - n) + n = omega (arith, h) in
        inr (h, ap (λ y. y % n) e ∙ add-mod_right (x - n) n ∙ mod-eq_of_lt (omega (arith, lt, h)))
  ]

  pub step-cases :
      (x : ℕ) → x < n → ((x + 1 < n) × ((x + 1) % n ≡ x + 1)) ⊎ ((x + 1 ≡ n) × ((x + 1) % n ≡ 0))
  step-cases x lt = elim (Bool-cases (x + 1 == n)) [
    | inl end ↦ let e = (==_iff (x + 1) n).0 end in inr (e, ap (λ y. y % n) e ∙ mod_self n)
    | inr more ↦
        let ne : x + 1 ≢ n = λ e. absurd (cc (more, (==_iff (x + 1) n).1 e)) in
        let less : x + 1 < n = omega (arith, lt, ne) in inl (less, mod-eq_of_lt less)
  ]

  pub used-cases :
      (head tail : ℕ)
      → head < n
      → tail < n
      → ((tail ≤ head) × (ring_used n head tail ≡ head - tail))
        ⊎ ((head < tail) × (ring_used n head tail ≡ head + n - tail))
  used-cases head tail hh ht = elim (Bool-cases (ltb head tail)) [
    | inl wraps ↦
        let lt = ltb→lt head tail wraps in inr (lt, mod-eq_of_lt (omega (arith, lt, hh, ht)))
    | inr straight ↦
        let le = ltb→le head tail straight in
        let e : head + n - tail ≡ (head - tail) + n = omega (arith, le) in
        inl
          (le, ap (λ y. y % n) e ∙ add-mod_right (head - tail) n ∙ mod-eq_of_lt (omega (arith, hh)))
  ]

  module _ (head tail : ℕ) (hh : head < n) (ht : tail < n) where
    pub used-lt : ring_used n head tail < n
    used-lt = mod-lt (head + n - tail) (omega (arith, hh))

    -- The head is as many steps behind the tail as there are bytes.
    pub head-eq : head ≡ (tail + ring_used n head tail) % n
    head-eq = elim (used-cases head tail hh ht) [
      | inl (le, e) ↦
          let s : tail + ring_used n head tail ≡ head = omega (arith, le, e) in
          sym (ap (λ y. y % n) s ∙ mod-eq_of_lt hh)
      | inr (lt, e) ↦
          let s : tail + ring_used n head tail ≡ head + n = omega (arith, lt, e, ht) in
          sym (ap (λ y. y % n) s ∙ add-mod_right head n ∙ mod-eq_of_lt hh)
    ]

    pub empty_iff : (ring_used n head tail ≡ 0) ↔ (head ≡ tail)
    empty_iff = elim (used-cases head tail hh ht) [
      | inl (le, e) ↦ (λ z. omega (arith, le, e, z), λ z. omega (arith, le, e, z))
      | inr (lt, e) ↦ (λ z. omega (arith, lt, e, z, ht), λ z. omega (arith, lt, e, z))
    ]

    pub full_iff : ((head + 1) % n ≡ tail) ↔ (ring_used n head tail + 1 ≡ n)
    full_iff = (
      λ z. omega (arith, z, step-cases head hh, used-cases head tail hh ht, hh, ht),
      λ z. omega (arith, z, step-cases head hh, used-cases head tail hh ht, hh, ht),
    )

    pub push-used :
        (head + 1) % n ≢ tail → ring_used n ((head + 1) % n) tail ≡ suc (ring_used n head tail)
    push-used room =
        let small : (head + 1) % n < n = mod-lt (head + 1) (omega (arith, hh)) in
        omega (
          arith,
          room,
          step-cases head hh,
          used-cases head tail hh ht,
          used-cases ((head + 1) % n) tail small ht,
          hh,
          ht,
        )

    pub pop-used : head ≢ tail → ring_used n head tail ≡ suc (ring_used n head ((tail + 1) % n))
    pop-used more =
        let small : (tail + 1) % n < n = mod-lt (tail + 1) (omega (arith, hh)) in
        omega (
          arith,
          more,
          step-cases tail ht,
          used-cases head tail hh ht,
          used-cases head ((tail + 1) % n) hh small,
          hh,
          ht,
        )

  -- A byte written behind the others is the last one.
  pub contents-push :
      (buf : ℕ → ℕ) (k tail b : ℕ)
      → k < n
      → tail < n
      → contents (put buf ((tail + k) % n) b) tail (suc k) ≡ contents buf tail k ++ (b ∷ [])
  contents-push buf zero tail b lt ht =
      let e : (tail + 0) % n ≡ tail = ap (λ y. y % n) (omega arith) ∙ mod-eq_of_lt ht in
      rw (e, (==_iff tail tail).1 refl) refl
  contents-push buf (suc k) tail b lt ht =
      let next : ℕ = (tail + 1) % n in
      let small : next < n = mod-lt (tail + 1) (omega (arith, ht)) in
      let e : (next + k) % n ≡ (tail + suc k) % n =
        mod-add-mod (tail + 1) n k ∙ ap (λ y. y % n) (omega arith) in
      let rest = contents-push buf k next b (omega (arith, lt)) small in
      let apart : tail ≢ (tail + suc k) % n =
        λ q. omega (arith, q, wrap-cases (tail + suc k) (omega (arith, lt, ht)), lt) in
      let first : put buf ((tail + suc k) % n) b tail ≡ buf tail = rw (==_ne tail _ apart) refl in
      let others =
        subst (λ h. contents (put buf h b) next (suc k) ≡ contents buf next k ++ (b ∷ [])) e rest in
      ap₂ (λ x l. x ∷ l) first others
