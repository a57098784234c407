-- ===== src/Cli/Split.antt =====
-- What `cli_tokenize` of core/cli.c does to a line, seen as a list of characters.
use stm32_cli_os.Prelude.{
  ℕ, zero, suc, ◌+◌, ◌≤◌, ◌<◌, ◌≡◌, ◌≢◌, refl, ◌∙◌, Bool, true, false, List, [], ◌∷◌, length,
  if◌then◌else◌, ==_iff, ==_ne, Bool-cases, inl, inr, put, arith,
}
use stm32_cli_os.Cli.{Text}
use stm32_cli_os.Cli.Tokens.{Buffer, is_space, skip_spaces, string_at}

-- The arguments of a line: the rest of the token one is in, and the tokens behind it, of which there
-- is room for `n`. Without room the token runs to the end of the line.
unfoldable pub split : Text → ℕ → Bool → Text × List Text
split [] n in_token = ([], [])
split (c ∷ s) zero in_token = (c ∷ s, [])
split (c ∷ s) (suc n) in_token =
    let behind = split s (suc n) false in
    let inside = split s (suc n) true in
    let new = split s n true in
    if is_space c
    then ([], behind.1)
    else if in_token
    then (c ∷ inside.0, inside.1)
    else ([], (c ∷ new.0) ∷ new.1)

abbrev pub arguments : Text → List Text
arguments s = (split s 16 false).1

pub length-split : (s : Text) (n : ℕ) (in_token : Bool) → length (split s n in_token).1 ≤ n
unfolding split
length-split [] n in_token = omega arith
length-split (c ∷ s) zero in_token = omega arith
length-split (c ∷ s) (suc n) true = elim (Bool-cases (is_space c)) [
  | inl space ↦ rw space (length-split s (suc n) false)
  | inr other ↦ rw other (length-split s (suc n) true)
]
length-split (c ∷ s) (suc n) false = elim (Bool-cases (is_space c)) [
  | inl space ↦ rw space (length-split s (suc n) false)
  | inr other ↦ rw other (omega (arith, length-split s n true))
]

-- The C string that starts at an index of the buffer.
abbrev pub CString : Buffer → ℕ → Text → Type 0
CString b p [] = b p ≡ 0
CString b p (c ∷ s) = (b p ≡ c) × (0 < c) × CString b (p + 1) s

abbrev pub CStrings : Buffer → List ℕ → List Text → Type 0
CStrings b [] [] = Unit
CStrings b [] (s ∷ ss) = ⊥
CStrings b (p ∷ ps) [] = ⊥
CStrings b (p ∷ ps) (s ∷ ss) = CString b p s × CStrings b ps ss

pub CString-same :
    (s : Text) (b b' : Buffer) (p : ℕ)
    → ((q : ℕ) → p ≤ q → b' q ≡ b q)
    → CString b p s
    → CString b' p s
CString-same [] b b' p same h = same p (omega arith) ∙ h
CString-same (c ∷ s) b b' p same (here, some_char, h) = (
  same p (omega arith) ∙ here,
  some_char,
  CString-same s b b' (p + 1) (λ q le. same q (omega (arith, le))) h,
)

-- Reading the string back.
pub string_at-eq :
    (s : Text) (k : ℕ) (b : Buffer) (p : ℕ) → length s < k → CString b p s → string_at k b p ≡ s
unfolding string_at
string_at-eq [] zero b p lt h = refl
string_at-eq [] (suc k) b p lt h = rw h refl
string_at-eq (c ∷ s) zero b p lt h = absurd (omega (arith, lt))
string_at-eq (c ∷ s) (suc k) b p lt (here, some_char, h) =
    rw
      (here, ==_ne c 0 (omega (arith, some_char)), string_at-eq s k b (p + 1) (omega (arith, lt)) h)
      refl

pub put_ne : (b : Buffer) (i p x : ℕ) → p ≢ i → put b i x p ≡ b p
put_ne b i p x ne = rw (==_ne p i ne) refl

pub put_self : (b : Buffer) (i x : ℕ) → put b i x i ≡ x
put_self b i x = rw ((==_iff i i).1 refl) refl

-- The line behind its leading spaces.
unfoldable pub drop_spaces : Text → Text
drop_spaces [] = []
drop_spaces (c ∷ s) = let rest = drop_spaces s in if is_space c then rest else c ∷ s

-- What is left of a line from `i` on when the spaces are skipped outside a token.
abbrev pub Skipped : Buffer → ℕ → Text → Buffer × ℕ × Bool → Type 0
Skipped b i s r =
    ((p : ℕ) → p < i → r.0 p ≡ b p) × (i ≤ r.1) × CString r.0 r.1 (drop_spaces s) × (r.2 ≡ false)

Skipped-suc :
    (b : Buffer) (i : ℕ) (s : Text) (r : Buffer × ℕ × Bool)
    → Skipped (put b i 0) (i + 1) s r
    → ((p : ℕ) → p < i → r.0 p ≡ b p) × (i ≤ r.1) × CString r.0 r.1 (drop_spaces s) × (r.2 ≡ false)
Skipped-suc b i s r (same, le, h, outside) = (
  λ p lt. same p (omega (arith, lt)) ∙ put_ne b i p 0 (omega (arith, lt)),
  omega (arith, le),
  h,
  outside,
)

pub behind_space :
    (b : Buffer) (i : ℕ) (s : Text) → CString b (i + 1) s → CString (put b i 0) (i + 1) s
behind_space b i s = CString-same s b (put b i 0) (i + 1) λ q le. put_ne b i q 0 (omega (arith, le))

pub skip_spaces-Skipped :
    (s : Text) (k : ℕ) (b : Buffer) (i : ℕ)
    → length s < k
    → CString b i s
    → Skipped b i s (skip_spaces k b i false)
unfolding skip_spaces drop_spaces
skip_spaces-Skipped [] zero b i lt h = absurd (omega (arith, lt))
skip_spaces-Skipped [] (suc k) b i lt h = rw h (λ p less. refl, omega arith, h, refl)
skip_spaces-Skipped (c ∷ s) zero b i lt h = absurd (omega (arith, lt))
skip_spaces-Skipped (c ∷ s) (suc k) b i lt (here, some_char, h) = elim (Bool-cases (is_space c)) [
  | inl space ↦
      rw (here, space)
        (Skipped-suc b i s _
          (skip_spaces-Skipped s k (put b i 0) (i + 1) (omega (arith, lt)) (behind_space b i s h)))
  | inr other ↦ rw (here, other) (λ p less. refl, omega arith, (here, some_char, h), refl)
]
