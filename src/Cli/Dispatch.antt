-- ===== src/Cli/Dispatch.antt =====
-- What core/cli.c does when a line is entered.
use stm32_cli_os.Prelude.{
  ℕ, zero, suc, false, ◌≢◌, ==_ne, ◌==◌, ◌+◌, ◌≤◌, ◌≡◌, refl, sym, Bool, true, List, [], ◌∷◌,
  length, Bool-cases, inl, inr, put, arith, All, subst,
}
use stm32_cli_os.Utils.Strings.{codes}
use stm32_cli_os.Cli.Nul.{NoNul}
use stm32_cli_os.Cli.Answer.{Answer, run_command-Answer}
use stm32_cli_os.Cli.{Text, CliContext, find_command}
use stm32_cli_os.Cli.Commands.{find_command-FirstNamed}
use stm32_cli_os.Cli.Printf.{put_string}
use stm32_cli_os.Cli.Tokens.{Buffer, is_space, cli_tokenize}
use stm32_cli_os.Cli.Split.{split, arguments, CString, CStrings, string_at-eq, put_self}
use stm32_cli_os.Cli.Arguments.{cli_tokenize-Tokenized}
use stm32_cli_os.Cli.Task.{Handlers, new_line, process_args, cli_process_cmd, task_round}
use stm32_cli_os.Cli.Editor.{is_enter, reverse_onto, LineIs, Holds-put, Holds-CString}

abbrev Short : ℕ → Text → Type 0
Short m s = length s ≤ m

-- No argument is longer than the line.
split-Short :
    (m : ℕ) (s : Text) (n : ℕ) (in_token : Bool)
    → length s ≤ m
    → Short (length s) (split s n in_token).0 × All (Short m) (split s n in_token).1
unfolding split
split-Short m [] n in_token le = (omega arith, tt)
split-Short m (c ∷ s) zero in_token le = (omega arith, tt)
split-Short m (c ∷ s) (suc n) true le = elim (Bool-cases (is_space c)) [
  | inl space ↦ rw space (omega arith, (split-Short m s (suc n) false (omega (arith, le))).1)
  | inr other ↦
      let (inside, behind) = split-Short m s (suc n) true (omega (arith, le)) in
      rw other (omega (arith, inside), behind)
]
split-Short m (c ∷ s) (suc n) false le = elim (Bool-cases (is_space c)) [
  | inl space ↦ rw space (omega arith, (split-Short m s (suc n) false (omega (arith, le))).1)
  | inr other ↦
      let (inside, behind) = split-Short m s n true (omega (arith, le)) in
      rw other (omega arith, (omega (arith, inside, le), behind))
]

length-reverse_onto : (line s : Text) → length (reverse_onto line s) ≡ length line + length s
length-reverse_onto [] s = omega arith
length-reverse_onto (c ∷ line) s = omega (arith, length-reverse_onto line (c ∷ s))

-- The characters of a C string are no NULs.
CString-NoNul : (s : Text) (b : Buffer) (p : ℕ) → CString b p s → NoNul s
CString-NoNul [] b p h = tt
CString-NoNul (c ∷ s) b p (here, some_char, h) = (some_char, CString-NoNul s b (p + 1) h)

module _ (handlers : Handlers) where
  process_args-Answer :
      (ctx : CliContext) (argv : List ℕ) (args : List Text)
      → CStrings ctx.line_buffer argv args
      → All (Short 127) args
      → (ctx.puts == 0) ≡ false
      → Answer handlers ctx argv args (process_args handlers ctx argv)
  process_args-Answer ctx [] [] h short there = refl
  process_args-Answer ctx [] (name ∷ args) h short there = absurd h
  process_args-Answer ctx (p ∷ argv) [] h short there = absurd h
  process_args-Answer ctx (p ∷ argv) (name ∷ args) h short there =
      let read = string_at-eq name 128 ctx.line_buffer p (omega (arith, short.0)) h.0 in
      rw read (
        run_command-Answer handlers ctx (p ∷ argv) name args
          (find_command name ctx.commands ctx.cmd_count 0) there
          (CString-NoNul name ctx.line_buffer p h.0)
          (find_command-FirstNamed ctx.cmd_count name ctx.commands 0))

  -- A line was entered: the new line is put out, the arguments stand in the buffer, they are
  -- answered, and the line is empty.
  abbrev pub Entered : CliContext → Text → CliContext → Type 0
  Entered ctx s r =
      (b : Buffer) × (argv : List ℕ) × (answer : CliContext) × CStrings b argv (arguments s)
      × Answer handlers (record ctx { output = codes "\r\n" ∷ ctx.output; line_buffer = b }) argv
          (arguments s) answer
      × (r ≡ record answer { line_pos = 0 })

  -- When the line editor holds a line, a carriage return or line feed comes and `puts` is there,
  -- the round of the CLI task puts out a new line and leaves the arguments of the line as C strings
  -- in the buffer. Where there is no argument, it puts out the prompt; where a command has the name
  -- of the first argument, the handler of the first such command runs on the arguments, and then
  -- the prompt of the context that it left is put out; where none has, `Unknown command: ` with the
  -- name and a line end, cut to 127 characters, the hint on `help` and the prompt are put out. Then
  -- the line is empty.
  pub task_round-Entered :
      (ctx : CliContext) (line : Text) (c : ℕ)
      → is_enter c ≡ true
      → LineIs ctx line
      → ctx.puts ≢ 0
      → Entered ctx (reverse_onto line []) (task_round handlers ctx c)
  unfolding task_round cli_process_cmd
  task_round-Entered ctx line c enter (pos, le, h) there =
      let s = reverse_onto line [] in
      let b = put ctx.line_buffer ctx.line_pos 0 in
      let short : length s ≤ 127 = omega (arith, length-reverse_onto line [], le) in
      let ended : b (length line) ≡ 0 =
        subst (λ p. put ctx.line_buffer p 0 (length line) ≡ 0) (sym pos)
          (put_self ctx.line_buffer (length line) 0) in
      let whole : CString b 0 s =
        Holds-CString line b []
          (Holds-put line ctx.line_buffer ctx.line_pos 0 (omega (arith, pos)) h) ended in
      let (strings, few) = cli_tokenize-Tokenized b s (omega (arith, short)) whole in
      let (b', argv) = cli_tokenize b in
      rw enter (
        b',
        argv,
        process_args handlers (record (put_string ctx new_line) { line_buffer = b' }) argv,
        strings,
        process_args-Answer (record (put_string ctx new_line) { line_buffer = b' }) argv
            (arguments s) strings (split-Short 127 s 16 false short).1 (==_ne ctx.puts 0 there),
        refl,
      )
