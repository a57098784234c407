-- ===== src/Cli/Printf.antt =====
-- `cli_printf` of core/cli.c. An argument is the word of an `int` or an `unsigned int`, or a string.
-- With an argument missing or of the other kind, which C leaves undefined, a conversion reads 0 or
-- `NULL`; behind a `%` at the end of the format, where the code reads past the terminator, it stops.
use stm32_cli_os.Prelude.{
  ℕ, zero, suc, ◌+◌, ◌-◌, ◌/◌, ◌%◌, ◌^◌, Bool, true, false, Option, none, some, List, [], ◌∷◌, ◌++◌,
  ltb, leb, ◌==◌, if◌then◌else◌, length, u32,
}
use stm32_cli_os.Cli.{Text, CliContext, cli_max_line_len}

pub data Argument : Type 0 where
  number : ℕ → Argument
  string : Option Text → Argument

-- `va_arg(args, int)`, as its word, and `va_arg(args, const char *)`.
abbrev pub va_number : List Argument → ℕ × List Argument
va_number [] = (0, [])
va_number (number n ∷ args) = (n, args)
va_number (string s ∷ args) = (0, args)

abbrev pub va_string : List Argument → Option Text × List Argument
va_string [] = (none, [])
va_string (number n ∷ args) = (none, args)
va_string (string s ∷ args) = (s, args)

-- `pos < CLI_MAX_LINE_LEN - 1`.
abbrev pub has_room : ℕ → Bool
has_room pos = ltb pos (cli_max_line_len - 1)

-- What a loop adds to the buffer at `pos` that appends the characters while there is room.
unfoldable pub append : Text → ℕ → Text
append [] pos = []
append (c ∷ s) pos = let rest = append s (pos + 1) in if has_room pos then c ∷ rest else []

abbrev pub digit_char : ℕ → ℕ
digit_char digit = if ltb digit 10 then b'0' + digit else b'a' + digit

-- The rounds of the `do` loop that are still allowed. `done` has the digits so far, the last one
-- first: the order in which they are taken out of `digit_buff`.
unfoldable pub digit_loop : ℕ → ℕ → ℕ → Text → Text
digit_loop zero base n done = done
digit_loop (suc k) base n done =
    let done' = digit_char (n % base) ∷ done in
    let rest = digit_loop k base (n / base) done' in if ltb 0 (n / base) then rest else done'

abbrev pub decimal : ℕ → Text
decimal n = digit_loop 12 10 n []

abbrev pub hexadecimal : ℕ → Text
hexadecimal n = digit_loop 10 16 n []

abbrev pub print_signed : ℕ → ℕ → Text
print_signed arg pos =
    if leb (2 ^ 31) arg
    then b'-' ∷ append (decimal (u32 - arg)) (pos + 1)
    else append (decimal arg) pos

abbrev pub print_hexadecimal : ℕ → ℕ → Text
print_hexadecimal arg pos =
    if ltb pos (cli_max_line_len - 2)
    then b'0' ∷ b'x' ∷ append (hexadecimal arg) (pos + 2)
    else append (hexadecimal arg) pos

abbrev pub print_string : Option Text → ℕ → Text
print_string none pos = []
print_string (some arg) pos = append arg pos

-- What the character behind a `%` adds to the buffer at `pos`, and the arguments left.
unfoldable pub conversion : ℕ → List Argument → ℕ → Text × List Argument
conversion c args pos =
    if c == b'd'
    then (print_signed (va_number args).0 pos, (va_number args).1)
    else if c == b'u'
    then (append (decimal (va_number args).0) pos, (va_number args).1)
    else if c == b'x'
    then (print_hexadecimal (va_number args).0 pos, (va_number args).1)
    else if c == b's'
    then (print_string (va_string args).0 pos, (va_string args).1)
    else if c == b'c'
    then if has_room pos then ((va_number args).0 % 256 ∷ [], (va_number args).1) else ([], args)
    else if c == b'%'
    then (if has_room pos then b'%' ∷ [] else [], args)
    else ([], args)

-- The loop over the format: what it adds to the buffer at `pos`. The flag is set behind a `%`.
unfoldable pub printf_loop : Text → Bool → List Argument → ℕ → Text
printf_loop [] escape args pos = []
printf_loop (c ∷ text) true args pos =
    let (added, args') = conversion c args pos in
    added ++ printf_loop text false args' (pos + length added)
printf_loop (c ∷ text) false args pos =
    let escape = c == b'%' in
    let added = if escape then [] else c ∷ [] in
    let rest = printf_loop text escape args (pos + length added) in
    if has_room pos then added ++ rest else []

-- A call of `puts` with a C string.
abbrev pub put_string : CliContext → Text → CliContext
put_string ctx text = record ctx { output = text ∷ ctx.output }

-- What `puts` reads of a buffer: the characters in front of the first NUL.
unfoldable pub c_string : Text → Text
c_string [] = []
c_string (c ∷ s) = let rest = c_string s in if c == 0 then [] else c ∷ rest

-- The number of characters, and the context.
unfoldable pub cli_printf : CliContext → Text → List Argument → ℕ × CliContext
cli_printf ctx text args =
    let buff = printf_loop text false args 0 in
    (
      length buff,
      if ltb 0 (length buff)
          then if ctx.puts == 0 then ctx else put_string ctx (c_string buff)
          else ctx,
    )
