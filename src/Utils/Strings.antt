-- ===== src/Utils/Strings.antt =====
-- The string routines of core/utils.c. A C string is the list of its characters, without the
-- terminator; a `char` is a number below 256, an `int` its 32-bit word.
use stm32_cli_os.Prelude.{
  ℕ, ◌+◌, ◌-◌, ◌*◌, ◌%◌, ◌<◌, ◌≡◌, ◌≢◌, refl, ap₂, ◌↔◌, Bool, true, false, ◌&&◌, List, [], ◌∷◌, leb,
  ◌==◌, ==_iff, ==_ne, Bool-cases, if◌then◌else◌, u32, sub32, All, inl, inr, arith,
}
use Prim.Native.Char.{code}
use Prim.Native.String.{String}

abbrev pub Text : Type 0
Text = List ℕ

-- The characters of a literal.
abbrev pub codes : String → Text
codes String.[] = []
codes (String.◌∷◌ c s) = code c ∷ codes s

abbrev pub is_digit : ℕ → Bool
is_digit c = leb b'0' c && leb c b'9'

-- The loop of `atoi`. An overflow of `res`, which C leaves undefined, wraps around.
unfoldable pub atoi_loop : Text → ℕ → ℕ
atoi_loop [] res = res
atoi_loop (c ∷ s) res =
    let rest = atoi_loop s ((res * 10 + (c - b'0')) % u32) in if is_digit c then rest else res

unfoldable pub atoi : Text → ℕ
atoi string = atoi_loop string 0

-- `*s1 - *s2` at the first difference, or at the end of both.
unfoldable pub strcmp : Text → Text → ℕ
strcmp [] [] = 0
strcmp [] (y ∷ ys) = sub32 0 y
strcmp (x ∷ xs) [] = x
strcmp (x ∷ xs) (y ∷ ys) = if x == y then strcmp xs ys else sub32 x y

-- The test `strcmp(s1, s2) == 0`.
unfoldable pub str_eq : Text → Text → Bool
str_eq [] [] = true
str_eq [] (y ∷ ys) = false
str_eq (x ∷ xs) [] = false
str_eq (x ∷ xs) (y ∷ ys) = (x == y) && str_eq xs ys

-- A character of a string.
abbrev pub IsChar : ℕ → Type 0
IsChar c = (0 < c) × (c < 256)

differs : (x y : ℕ) → x < 256 → y < 256 → x ≢ y → (sub32 x y == 0) ≡ false
differs x y hx hy ne = ==_ne (sub32 x y) 0 (omega (arith, hx, hy, ne))

-- `str_eq` is the comparison that the callers of `strcmp` make.
pub strcmp-str_eq :
    (xs ys : Text) → All IsChar xs → All IsChar ys → (strcmp xs ys == 0) ≡ str_eq xs ys
unfolding strcmp str_eq
strcmp-str_eq [] [] hx hy = refl
strcmp-str_eq [] (y ∷ ys) hx hy =
    differs 0 y (omega arith) (omega (arith, hy.0)) (omega (arith, hy.0))
strcmp-str_eq (x ∷ xs) [] hx hy = ==_ne x 0 (omega (arith, hx.0))
strcmp-str_eq (x ∷ xs) (y ∷ ys) hx hy = elim (Bool-cases (x == y)) [
  | inl same ↦ rw same (strcmp-str_eq xs ys hx.1 hy.1)
  | inr other ↦
      let ne : x ≢ y = λ e. absurd (cc (other, (==_iff x y).1 e)) in
      rw other (differs x y (omega (arith, hx.0)) (omega (arith, hy.0)) ne)
]

pub str_eq_iff : (xs ys : Text) → (str_eq xs ys ≡ true) ↔ (xs ≡ ys)
unfolding str_eq
str_eq_iff [] [] = (λ e. refl, λ e. refl)
str_eq_iff [] (y ∷ ys) = (λ e. absurd (cc e), λ e. absurd (cc e))
str_eq_iff (x ∷ xs) [] = (λ e. absurd (cc e), λ e. absurd (cc e))
str_eq_iff (x ∷ xs) (y ∷ ys) =
    let rest = str_eq_iff xs ys in
    elim (Bool-cases (x == y)) [
      | inl e ↦ rw e (
        λ t. ap₂ (λ c l. c ∷ l) ((==_iff x y).0 e) (rest.0 t),
        λ p. let tails : xs ≡ ys = cc p in rest.1 tails,
      )
      | inr n ↦ rw n (
        λ f. absurd (cc f),
        λ p. let heads : x ≡ y = cc p in absurd (cc (n, (==_iff x y).1 heads)),
      )
    ]
