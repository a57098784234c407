-- ===== src/Cli/Words.antt =====
-- The words of a line, for `cli_tokenize` of core/cli.c: without the limit on their number.
use stm32_cli_os.Prelude.{
  ℕ, zero, suc, ◌<◌, ◌≡◌, refl, ap, true, false, List, [], ◌∷◌, length, if◌then◌else◌, Bool-cases,
  inl, inr, arith,
}
use stm32_cli_os.Cli.{Text}
use stm32_cli_os.Cli.Tokens.{is_space}
use stm32_cli_os.Cli.Split.{split, arguments}

-- The tokens of a line, all of them: the one at its front, which may be empty, and those behind.
abbrev in_front : Text → List Text → List Text
in_front [] ts = ts
in_front (c ∷ t) ts = (c ∷ t) ∷ ts

unfoldable pub tokens : Text → Text × List Text
tokens [] = ([], [])
tokens (c ∷ s) = let (t, ts) = tokens s in if is_space c then ([], in_front t ts) else (c ∷ t, ts)

abbrev pub words : Text → List Text
words s = in_front (tokens s).0 (tokens s).1

-- A line of fewer than 16 words has its words as arguments.
split-tokens :
    (s : Text) (n : ℕ)
    → (length (tokens s).1 < n → split s n true ≡ tokens s)
      × (length (words s) < n → (split s n false).1 ≡ words s)
unfolding split tokens
split-tokens [] n = (λ lt. refl, λ lt. refl)
split-tokens (c ∷ s) zero = (λ lt. absurd (omega (arith, lt)), λ lt. absurd (omega (arith, lt)))
split-tokens (c ∷ s) (suc n) = elim (Bool-cases (is_space c)) [
  | inl space ↦ rw space (
    λ lt. ap (λ ts. ([], ts)) ((split-tokens s (suc n)).1 lt),
    λ lt. (split-tokens s (suc n)).1 lt,
  )
  | inr other ↦ rw other (
    λ lt. ap (λ r. (c ∷ r.0, r.1)) ((split-tokens s (suc n)).0 lt),
    λ lt. ap (λ r. (c ∷ r.0) ∷ r.1) ((split-tokens s n).0 (omega (arith, lt))),
  )
]

pub arguments-words : (s : Text) → length (words s) < 16 → arguments s ≡ words s
arguments-words s lt = (split-tokens s 16).1 lt
