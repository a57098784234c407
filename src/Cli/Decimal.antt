-- ===== src/Cli/Decimal.antt =====
-- What `cli_printf` of core/cli.c prints of a number, `atoi` of core/utils.c reads back.
use stm32_cli_os.Prelude.{
  ℕ, zero, suc, ◌+◌, ◌-◌, ◌*◌, ◌/◌, ◌%◌, ◌^◌, ◌≤◌, ◌<◌, ◌≡◌, refl, ap, ◌∙◌, false, [], ◌∷◌, ◌++◌,
  append-nil, length, ◌==◌, Bool-cases, inl, inr, ltb, ltb→lt, ltb→le, lt→leb, lt→ltb, le→leb, List,
  arith, u32, subst,
}
use stm32_cli_os.Utils.Strings.{Text, codes, atoi, atoi_loop}
use stm32_cli_os.Cli.{CliContext}
use stm32_cli_os.Cli.Nul.{NoNul, c_string-same, digit_loop-NoNul}
use stm32_cli_os.Cli.Printf.{
  Argument, number, append, digit_char, digit_loop, decimal, conversion, printf_loop, cli_printf,
  put_string,
}

-- `10 ^ k`, by multiplication.
abbrev tens : ℕ → ℕ
tens zero = 1
tens (suc k) = 10 * tens k

-- Reading the last digit of a number after the digits before it gives the number.
read_last :
    (n : ℕ) (s : Text) → n < u32 → atoi_loop (digit_char (n % 10) ∷ s) (n / 10) ≡ atoi_loop s n
unfolding atoi_loop
read_last n s h = ground arith

-- The digits of a number, read from 0, and a bound on how many there are.
last_digit :
    (n : ℕ) (done : Text)
    → n < u32
    → ltb 0 (n / 10) ≡ false
    → atoi_loop (digit_char (n % 10) ∷ done) 0 ≡ atoi_loop done n
last_digit n done small stop =
    let no_more : n / 10 ≡ 0 = omega (arith, ltb→le 0 (n / 10) stop) in
    subst (λ m. atoi_loop (digit_char (n % 10) ∷ done) m ≡ atoi_loop done n) no_more
      (read_last n done small)

read-digit_loop :
    (k n : ℕ) (done : Text)
    → n < tens (suc k)
    → n < u32
    → atoi_loop (digit_loop (suc k) 10 n done) 0 ≡ atoi_loop done n
unfolding digit_loop
read-digit_loop zero n done fits small = elim (Bool-cases (ltb 0 (n / 10))) [
  | inr stop ↦ rw stop (last_digit n done small stop)
  | inl go ↦ absurd (omega (arith, fits, ltb→lt 0 (n / 10) go))
]
read-digit_loop (suc k) n done fits small = elim (Bool-cases (ltb 0 (n / 10))) [
  | inr stop ↦ rw stop (last_digit n done small stop)
  | inl go ↦ rw go (
      read-digit_loop k (n / 10) (digit_char (n % 10) ∷ done) (omega (arith, fits))
        (omega (arith, small))
      ∙ read_last n done small)
]

length-digit_loop :
    (k n base : ℕ) (done : Text) → length (digit_loop k base n done) ≤ k + length done
unfolding digit_loop
length-digit_loop zero n base done = omega arith
length-digit_loop (suc k) n base done =
    let more = length-digit_loop k (n / base) base (digit_char (n % base) ∷ done) in
    elim (Bool-cases (ltb 0 (n / base))) [
      | inl go ↦ rw go (omega (arith, more))
      | inr stop ↦ rw stop (omega arith)
    ]

le-digit_loop : (k n base : ℕ) (done : Text) → length done ≤ length (digit_loop k base n done)
unfolding digit_loop
le-digit_loop zero n base done = omega arith
le-digit_loop (suc k) n base done =
    let more = le-digit_loop k (n / base) base (digit_char (n % base) ∷ done) in
    elim (Bool-cases (ltb 0 (n / base))) [
      | inl go ↦ rw go (omega (arith, more))
      | inr stop ↦ rw stop (omega arith)
    ]

lt-decimal : (n : ℕ) → 0 < length (decimal n)
unfolding digit_loop
lt-decimal n = elim (Bool-cases (ltb 0 (n / 10))) [
  | inl go ↦ rw go (omega (arith, le-digit_loop 11 (n / 10) 10 (digit_char (n % 10) ∷ [])))
  | inr stop ↦ rw stop (omega arith)
]

-- A text that fits is appended as a whole.
append_whole : (s : Text) (pos : ℕ) → pos + length s ≤ 127 → append s pos ≡ s
unfolding append
append_whole [] pos h = refl
append_whole (c ∷ s) pos h = ground (arith, append_whole s (pos + 1))

-- A call that prints a text that is not empty, where `puts` is there.
pub cli_printf-put_string :
    (ctx : CliContext) (format : Text) (args : List Argument) (buff : Text)
    → (ctx.puts == 0) ≡ false
    → 0 < length buff
    → printf_loop format false args 0 ≡ buff
    → NoNul buff
    → cli_printf ctx format args ≡ (length buff, put_string ctx buff)
unfolding cli_printf
cli_printf-put_string ctx format args buff there some_text e no_nul =
    rw (e, lt→ltb 0 (length buff) some_text, there, c_string-same buff no_nul) refl

-- A call put out `sign` and a text that `atoi` reads as the number.
abbrev pub ReadBack : CliContext → Text → ℕ → ℕ × CliContext → Type 0
ReadBack ctx sign n r =
    (digits : Text) × (r.1.output ≡ (sign ++ digits) ∷ ctx.output)
    × (r.0 ≡ length sign + length digits)
    × (atoi digits ≡ n)

-- Some number that is below 2 ^ 31.
module _ (n : ℕ) (small : n < 2 ^ 31) where
  fits : length (decimal n) ≤ 12
  fits = omega (arith, length-digit_loop 12 n 10 [])

  read-decimal : atoi (decimal n) ≡ n
  unfolding atoi atoi_loop
  read-decimal = read-digit_loop 11 n [] (omega (arith, small)) (omega (arith, small))

  unsigned_eq : printf_loop (codes "%u") false (number n ∷ []) 0 ≡ decimal n
  unfolding printf_loop conversion
  unsigned_eq = append-nil _ ∙ append_whole (decimal n) 0 (omega (arith, fits))

  signed_eq : printf_loop (codes "%d") false (number n ∷ []) 0 ≡ decimal n
  unfolding printf_loop conversion
  signed_eq =
      rw (lt→leb (2 ^ 31) n small) (append-nil _ ∙ append_whole (decimal n) 0 (omega (arith, fits)))

  negative_eq : 0 < n → printf_loop (codes "%d") false (number (u32 - n) ∷ []) 0 ≡ b'-' ∷ decimal n
  unfolding printf_loop conversion
  negative_eq h =
      let back : u32 - (u32 - n) ≡ n = omega (arith, small) in
      rw (le→leb (2 ^ 31) (u32 - n) (omega (arith, small)), back)
        (append-nil _ ∙ ap (λ s. b'-' ∷ s) (append_whole (decimal n) 1 (omega (arith, fits))))

module _ (ctx : CliContext) (there : (ctx.puts == 0) ≡ false) where
  read_back :
      (format : Text) (arg n : ℕ)
      → n < 2 ^ 31
      → printf_loop format false (number arg ∷ []) 0 ≡ decimal n
      → ReadBack ctx [] n (cli_printf ctx format (number arg ∷ []))
  read_back format arg n small e =
      rw
        (cli_printf-put_string ctx format _ (decimal n) there (lt-decimal n) e
          (digit_loop-NoNul 12 10 n [] tt))
        (decimal n, refl, omega arith, read-decimal n small)

  -- Where `puts` is there, a number below 2 ^ 31 printed by `%u` or by `%d` is read back by `atoi`,
  -- and a negative number above -2 ^ 31 is printed by `%d` as a minus sign and its absolute value,
  -- which `atoi` reads back; the result counts the characters.
  pub cli_printf-ReadBack :
      (n m : ℕ)
      → n < 2 ^ 31
      → 0 < m
      → m < 2 ^ 31
      → ReadBack ctx [] n (cli_printf ctx (codes "%u") (number n ∷ []))
        × ReadBack ctx [] n (cli_printf ctx (codes "%d") (number n ∷ []))
        × ReadBack ctx (b'-' ∷ []) m (cli_printf ctx (codes "%d") (number (u32 - m) ∷ []))
  cli_printf-ReadBack n m n_small positive m_small = (
    read_back (codes "%u") n n n_small (unsigned_eq n n_small),
    read_back (codes "%d") n n n_small (signed_eq n n_small),
    rw
        (cli_printf-put_string ctx _ _ (b'-' ∷ decimal m) there (omega arith)
          (negative_eq m m_small positive) (omega arith, digit_loop-NoNul 12 10 m [] tt))
        (decimal m, refl, omega arith, read-decimal m m_small),
  )
