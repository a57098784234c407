-- ===== src/Cli/Bounded.antt =====
-- The buffer of `cli_printf` of core/cli.c: 128 characters, the terminator included.
use stm32_cli_os.Prelude.{
  ◌⊎◌, ℕ, ap, and_parts, ◌&&◌, ==_iff, ltb→le, ◌+◌, ◌≤◌, ◌<◌, ◌≡◌, refl, Bool, true, false, List,
  [], ◌∷◌, length, length-append, ◌==◌, Bool-cases, inl, inr, leb, ltb→lt, ltb, arith, some, none,
  Option, ◌^◌, if_holds,
}
use stm32_cli_os.Cli.{Text, CliContext}
use stm32_cli_os.Cli.Printf.{
  Argument, has_room, append, print_signed, print_hexadecimal, print_string, conversion,
  printf_loop, cli_printf, va_number, va_string, decimal, hexadecimal, c_string,
}
use stm32_cli_os.Cli.Nul.{
  NoNul, c_string-same, c_string-NoNul, nul_free, nul_free-NoNul, char_free, arguments_free,
  printf_loop-NoNul, ==_false,
}

-- A text fits behind `pos` if it ends before the last character of the buffer.
abbrev pub Fits : ℕ → Text → Type 0
Fits pos s = pos + length s ≤ 127

append-Fits : (s : Text) (pos : ℕ) → pos ≤ 127 → Fits pos (append s pos)
unfolding append
append-Fits [] pos h = omega arith
append-Fits (c ∷ s) pos h = ground (arith, append-Fits s (pos + 1))

print_string-Fits : (s : Option Text) (pos : ℕ) → pos ≤ 127 → Fits pos (print_string s pos)
print_string-Fits none pos h = omega arith
print_string-Fits (some s) pos h = append-Fits s pos h

print_signed-Fits : (n pos : ℕ) → pos < 127 → Fits pos (print_signed n pos)
print_signed-Fits n pos h = elim (Bool-cases (leb (2 ^ 31) n)) [
  | inl neg ↦ rw neg (omega (arith, append-Fits (decimal _) (pos + 1)))
  | inr plus ↦ rw plus (append-Fits _ pos (omega arith))
]

print_hexadecimal-Fits : (n pos : ℕ) → pos < 127 → Fits pos (print_hexadecimal n pos)
print_hexadecimal-Fits n pos h = elim (Bool-cases (ltb pos 126)) [
  | inl room ↦
      let lt = ltb→lt pos 126 room in rw room (omega (arith, append-Fits (hexadecimal n) (pos + 2)))
  | inr tight ↦ rw tight (append-Fits _ pos (omega arith))
]

abbrev ConversionFits : ℕ → Text × List Argument → Type 0
ConversionFits pos r = Fits pos r.0

conversion-Fits :
    (c : ℕ) (args : List Argument) (pos : ℕ)
    → pos < 127
    → ConversionFits pos (conversion c args pos)
unfolding conversion
conversion-Fits c args pos h =
    let either = if_holds (ConversionFits pos) in
    either (c == b'd') _ _ (print_signed-Fits (va_number args).0 pos h) (
      either (c == b'u') _ _ (append-Fits (decimal (va_number args).0) pos (omega (arith, h))) (
        either (c == b'x') _ _ (print_hexadecimal-Fits (va_number args).0 pos h) (
          either (c == b's') _ _ (print_string-Fits (va_string args).0 pos (omega (arith, h))) (
            either (c == b'c') _ _ (either (has_room pos) _ _ (omega (arith, h)) (omega (arith, h)))
              (either (c == b'%') _ _
                (if_holds (Fits pos) (has_room pos) _ _ (omega (arith, h)) (omega (arith, h)))
                (omega (arith, h)))))))

-- Where the loop can be: behind a `%` there is room for a character.
abbrev Within : Bool → ℕ → Type 0
Within true pos = pos < 127
Within false pos = pos ≤ 127

printf_loop-Fits :
    (text : Text) (escape : Bool) (args : List Argument) (pos : ℕ)
    → Within escape pos
    → Fits pos (printf_loop text escape args pos)
unfolding printf_loop
printf_loop-Fits [] true args pos h = omega (arith, h)
printf_loop-Fits [] false args pos h = omega (arith, h)
printf_loop-Fits (c ∷ text) true args pos h =
    let r = conversion c args pos in
    let fits = conversion-Fits c args pos h in
    omega (
      arith,
      length-append r.0 (printf_loop text false r.1 (pos + length r.0)),
      printf_loop-Fits text false r.1 (pos + length r.0) fits,
    )
printf_loop-Fits (c ∷ text) false args pos h = elim (Bool-cases (has_room pos)) [
  | inr full ↦ rw full (omega (arith, h))
  | inl room ↦
      let lt = ltb→lt pos 127 room in
      elim (Bool-cases (c == b'%')) [
        | inl percent ↦
            rw (room, percent)
              (omega (arith, printf_loop-Fits text true args (pos + 0) (omega (arith, lt))))
        | inr plain ↦
            rw (room, plain)
              (omega (arith, printf_loop-Fits text false args (pos + 1) (omega (arith, lt))))
      ]
]

-- The format and the strings are C strings, and there is no `%c`, which can add a NUL.
abbrev pub plain : Text → List Argument → Bool
plain text args = nul_free text && (char_free text false && arguments_free args)

-- One call of `puts` with a text without NUL: as long as the result for a plain format, not longer
-- for any; or nothing, where the result is 0 or `puts` is not there.
abbrev pub Printed : CliContext → Text → List Argument → ℕ × CliContext → Type 0
Printed ctx text args r =
    (r.0 ≤ 127)
    × (((r.1 ≡ ctx) × ((r.0 ≡ 0) ⊎ (ctx.puts ≡ 0)))
        ⊎ ((out : Text) × (0 < r.0)
            × (0 < ctx.puts)
            × NoNul out
            × (length out ≤ r.0)
            × ((length out ≡ r.0) ⊎ (plain text args ≡ false))
            × (r.1 ≡ record ctx { output = out ∷ ctx.output })))

whole-plain :
    (text : Text) (args : List Argument)
    → (length (c_string (printf_loop text false args 0)) ≡ length (printf_loop text false args 0))
      ⊎ (plain text args ≡ false)
whole-plain text args = elim (Bool-cases (plain text args)) [
  | inr other ↦ inr other
  | inl clean_format ↦
      let (a, bc) =
        and_parts (nul_free text) (char_free text false && arguments_free args) clean_format in
      let (b, c) = and_parts (char_free text false) (arguments_free args) bc in
      let clean = printf_loop-NoNul text false args 0 (nul_free-NoNul text a) b c in
      inl (ap length (c_string-same _ clean))
]

-- For any format and arguments the result of `cli_printf` is at most 127, which with the terminator
-- fits its buffer of 128. Either nothing is put out, and then the result is 0 or `puts` is not
-- there; or one text without NUL is put out in one call, not longer than the result, and exactly as
-- long for a format and strings without NUL and a format without `%c`.
pub cli_printf-Printed :
    (ctx : CliContext) (text : Text) (args : List Argument)
    → Printed ctx text args (cli_printf ctx text args)
unfolding cli_printf
cli_printf-Printed ctx text args =
    let buff = printf_loop text false args 0 in
    let (no_nul, short) = c_string-NoNul buff in
    (
      omega (arith, printf_loop-Fits text false args 0 (omega arith)),
      elim (Bool-cases (ltb 0 (length buff))) [
        | inr empty ↦
            let none_left = ltb→le 0 (length buff) empty in
            rw empty (inl (refl, inl (omega (arith, none_left))))
        | inl some_text ↦ elim (Bool-cases (ctx.puts == 0)) [
          | inl closed ↦ rw (some_text, closed) (inl (refl, inr ((==_iff ctx.puts 0).0 closed)))
          | inr open_end ↦
              let there : 0 < ctx.puts = omega (arith, ==_false ctx.puts 0 open_end) in
              let whole = whole-plain text args in
              rw (some_text, open_end)
                (inr (c_string buff, ltb→lt 0 _ some_text, there, no_nul, short, whole, refl))
        ]
      ],
    )
