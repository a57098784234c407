-- ===== src/Cli/Nul.antt =====
-- Where the buffer of `cli_printf` of core/cli.c holds no NUL, `puts` puts out all of it.
use stm32_cli_os.Prelude.{
  ℕ, zero, suc, ◌+◌, ◌/◌, ◌%◌, ◌^◌, ◌≤◌, ◌<◌, ◌≡◌, refl, inl, inr, Bool, true, false, ◌&&◌, not,
  none, some, List, [], ◌∷◌, All, All-append, length, ◌==◌, ==_ne, ==_iff, ◌≢◌, if◌then◌else◌, ltb,
  ltb→lt, leb, Bool-cases, if_holds, arith, and_parts,
}
use stm32_cli_os.Cli.{Text}
use stm32_cli_os.Cli.Printf.{
  Argument, number, string, has_room, append, digit_char, digit_loop, decimal, print_signed,
  print_hexadecimal, print_string, conversion, printf_loop, va_number, va_string, c_string,
}

abbrev pub NoNul : Text → Type 0
NoNul s = All (λ c. 0 < c) s

pub ==_false : (a b : ℕ) → (a == b) ≡ false → a ≢ b
==_false a b off e = absurd (cc (off, (==_iff a b).1 e))

not-true : (b : Bool) → not b ≡ true → b ≡ false
not-true false e = refl
not-true true e = absurd (cc e)

pub c_string-same : (s : Text) → NoNul s → c_string s ≡ s
unfolding c_string
c_string-same [] h = refl
c_string-same (c ∷ s) (some_char, h) =
    rw (==_ne c 0 (omega (arith, some_char)), c_string-same s h) refl

pub c_string-NoNul : (s : Text) → NoNul (c_string s) × (length (c_string s) ≤ length s)
unfolding c_string
c_string-NoNul [] = (tt, omega arith)
c_string-NoNul (c ∷ s) =
    let (clean, short) = c_string-NoNul s in
    elim (Bool-cases (c == 0)) [
      | inl nul ↦ rw nul (tt, omega arith)
      | inr other ↦
          let some_char : 0 < c = omega (arith, ==_false c 0 other) in
          rw other ((some_char, clean), omega (arith, short))
    ]

pub append-NoNul : (s : Text) (pos : ℕ) → NoNul s → NoNul (append s pos)
unfolding append
append-NoNul [] pos h = tt
append-NoNul (c ∷ s) pos (some_char, h) =
    if_holds NoNul (has_room pos) _ _ (some_char, append-NoNul s (pos + 1) h) tt

pub digit_loop-NoNul : (k base n : ℕ) (done : Text) → NoNul done → NoNul (digit_loop k base n done)
unfolding digit_loop
digit_loop-NoNul zero base n done h = h
digit_loop-NoNul (suc k) base n done h =
    let digit : 0 < digit_char (n % base) = ground arith in
    if_holds NoNul (ltb 0 (n / base)) _ _
      (digit_loop-NoNul k base (n / base) (digit_char (n % base) ∷ done) (digit, h)) (digit, h)

abbrev pub nul_free : Text → Bool
nul_free [] = true
nul_free (c ∷ s) = ltb 0 c && nul_free s

-- The format, from a place where the flag says if a `%` is in front, has no `%c`.
abbrev pub char_free : Text → Bool → Bool
char_free [] escape = true
char_free (c ∷ s) true = not (c == b'c') && char_free s false
char_free (c ∷ s) false = char_free s (c == b'%')

abbrev pub argument_free : Argument → Bool
argument_free (number n) = true
argument_free (string none) = true
argument_free (string (some s)) = nul_free s

abbrev pub arguments_free : List Argument → Bool
arguments_free [] = true
arguments_free (a ∷ args) = argument_free a && arguments_free args

pub nul_free-NoNul : (s : Text) → nul_free s ≡ true → NoNul s
nul_free-NoNul [] e = tt
nul_free-NoNul (c ∷ s) e =
    let (some_char, rest) = and_parts (ltb 0 c) (nul_free s) e in
    (ltb→lt 0 c some_char, nul_free-NoNul s rest)

print_signed-NoNul : (n pos : ℕ) → NoNul (print_signed n pos)
print_signed-NoNul n pos =
    if_holds NoNul (leb (2 ^ 31) n) _ _
      (omega arith, append-NoNul _ (pos + 1) (digit_loop-NoNul 12 10 _ [] tt))
      (append-NoNul _ pos (digit_loop-NoNul 12 10 n [] tt))

print_hexadecimal-NoNul : (n pos : ℕ) → NoNul (print_hexadecimal n pos)
print_hexadecimal-NoNul n pos =
    if_holds NoNul (ltb pos 126) _ _
      (omega arith, (omega arith, append-NoNul _ (pos + 2) (digit_loop-NoNul 10 16 n [] tt)))
      (append-NoNul _ pos (digit_loop-NoNul 10 16 n [] tt))

-- What a conversion adds has no NUL, and the arguments left are free of it.
abbrev Clean : Text × List Argument → Type 0
Clean r = NoNul r.0 × (arguments_free r.1 ≡ true)

va_number-free :
    (args : List Argument) → arguments_free args ≡ true → arguments_free (va_number args).1 ≡ true
va_number-free [] e = refl
va_number-free (number n ∷ args) e = e
va_number-free (string s ∷ args) e =
    (and_parts (argument_free (string s)) (arguments_free args) e).1

print_string-Clean :
    (args : List Argument) (pos : ℕ)
    → arguments_free args ≡ true
    → Clean (print_string (va_string args).0 pos, (va_string args).1)
print_string-Clean [] pos e = (tt, refl)
print_string-Clean (number n ∷ args) pos e = (tt, e)
print_string-Clean (string none ∷ args) pos e = (tt, e)
print_string-Clean (string (some s) ∷ args) pos e =
    let (free, rest) = and_parts (nul_free s) (arguments_free args) e in
    (append-NoNul s pos (nul_free-NoNul s free), rest)

conversion-Clean :
    (c : ℕ) (args : List Argument) (pos : ℕ)
    → (c == b'c') ≡ false
    → arguments_free args ≡ true
    → Clean (conversion c args pos)
unfolding conversion
conversion-Clean c args pos other e =
    let either = if_holds Clean in
    let n : ℕ = (va_number args).0 in
    let rest = va_number-free args e in
    either (c == b'd') _ _ (print_signed-NoNul n pos, rest)
      (either (c == b'u') _ _ (append-NoNul (decimal n) pos (digit_loop-NoNul 12 10 n [] tt), rest)
        (either (c == b'x') _ _ (print_hexadecimal-NoNul n pos, rest)
          (either (c == b's') _ _ (print_string-Clean args pos e) (
            rw other (
              either (c == b'%') _ _ (if_holds NoNul (has_room pos) _ _ (omega arith, tt) tt, e)
                (tt, e))))))

-- For a format without NUL and without `%c`, and strings without NUL.
pub printf_loop-NoNul :
    (text : Text) (escape : Bool) (args : List Argument) (pos : ℕ)
    → NoNul text
    → char_free text escape ≡ true
    → arguments_free args ≡ true
    → NoNul (printf_loop text escape args pos)
unfolding printf_loop
printf_loop-NoNul [] true args pos h f e = tt
printf_loop-NoNul [] false args pos h f e = tt
printf_loop-NoNul (c ∷ text) true args pos (some_char, h) f e =
    let (other, rest) = and_parts (not (c == b'c')) (char_free text false) f in
    let (added, free) = conversion-Clean c args pos (not-true (c == b'c') other) e in
    let r = conversion c args pos in
    All-append (λ x. 0 < x) r.0 _ added
      (printf_loop-NoNul text false r.1 (pos + length r.0) h rest free)
printf_loop-NoNul (c ∷ text) false args pos (some_char, h) f e =
    let escape = c == b'%' in
    let added : List ℕ = if escape then [] else c ∷ [] in
    if_holds NoNul (has_room pos) _ _
      (All-append (λ x. 0 < x) added _ (if_holds NoNul escape [] (c ∷ []) tt (some_char, tt))
        (printf_loop-NoNul text escape args (pos + length added) h f e))
      tt
