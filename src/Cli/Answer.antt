-- ===== src/Cli/Answer.antt =====
-- What core/cli.c answers to a line: the outcome of the search for the command, and the messages.
use stm32_cli_os.Prelude.{
  ℕ, zero, suc, ◌+◌, ◌<◌, ◌≡◌, ◌≢◌, refl, sym, ap, subst, ◌∙◌, ◌⊎◌, ◌↔◌, inl, inr, true, false,
  Option, none, some, some_value, List, [], ◌∷◌, ◌++◌, All-append, length, ◌==◌, Bool-cases, arith,
}
use stm32_cli_os.Utils.Strings.{Text, codes, str_eq, str_eq_iff}
use stm32_cli_os.Cli.{CliCommand, CliContext, named}
use stm32_cli_os.Cli.Commands.{FirstNamed}
use stm32_cli_os.Cli.Decimal.{cli_printf-put_string}
use stm32_cli_os.Cli.Nul.{NoNul, append-NoNul, nul_free-NoNul}
use stm32_cli_os.Cli.Printf.{string, append, has_room, printf_loop, conversion, cli_printf}
use stm32_cli_os.Cli.Task.{Handlers, run_command, unknown_command, put_prompt}

-- The first characters of a text.
abbrev pub cut : ℕ → Text → Text
cut zero s = []
cut (suc k) [] = []
cut (suc k) (c ∷ s) = c ∷ cut k s

append-cut : (s : Text) (k pos : ℕ) → pos + k ≡ 127 → append s pos ≡ cut k s
unfolding append
append-cut [] zero pos e = refl
append-cut [] (suc k) pos e = refl
append-cut (c ∷ s) zero pos e = ground (arith, e)
append-cut (c ∷ s) (suc k) pos e =
    rw (append-cut s k (pos + 1) (omega (arith, e))) (ground (arith, e))

append-append :
    (s t : Text) (pos : ℕ)
    → append (s ++ t) pos ≡ append s pos ++ append t (pos + length (append s pos))
unfolding append
append-append [] t pos = let e : pos + 0 ≡ pos = omega arith in rw e refl
append-append (c ∷ s) t pos = elim (Bool-cases (has_room pos)) [
  | inl room ↦
      let e : pos + suc (length (append s (pos + 1))) ≡ pos + 1 + length (append s (pos + 1)) =
        omega arith in
      rw (room, append-append s t (pos + 1), e) refl
  | inr full ↦ let e : pos + 0 ≡ pos = omega arith in rw (full, e) (sym (closed t pos full))
]
  where
    closed : (t : Text) (pos : ℕ) → has_room pos ≡ false → append t pos ≡ []
    closed [] pos off = refl
    closed (c ∷ t) pos off = rw off refl

-- The text of the message on a name.
abbrev pub unknown_text : Text → Text
unknown_text name = codes "Unknown command: " ++ (name ++ codes "\r\n")

abbrev pub help_text : Text
help_text = codes "Type 'help' for list.\r\n"

unknown_text-printf :
    (name : Text)
    → printf_loop (codes "Unknown command: %s\r\n") false (string (some name) ∷ []) 0
      ≡ cut 127 (unknown_text name)
unfolding printf_loop conversion append
unknown_text-printf name =
    ap (λ s. codes "Unknown command: " ++ s) (sym (append-append name (codes "\r\n") 17))
    ∙ append-cut (unknown_text name) 127 0 refl

unknown_text-NoNul : (name : Text) → NoNul name → NoNul (cut 127 (unknown_text name))
unknown_text-NoNul name h =
    let all =
      All-append (λ c. 0 < c) (codes "Unknown command: ") (name ++ codes "\r\n")
        (nul_free-NoNul (codes "Unknown command: ") refl)
        (All-append (λ c. 0 < c) name (codes "\r\n") h (nul_free-NoNul (codes "\r\n") refl)) in
    subst NoNul (append-cut (unknown_text name) 127 0 refl) (append-NoNul (unknown_text name) 0 all)

-- The two messages are put out.
abbrev pub reported : CliContext → Text → CliContext
reported ctx name = record ctx { output = help_text ∷ cut 127 (unknown_text name) ∷ ctx.output }

unknown_command-reported :
    (ctx : CliContext) (name : Text)
    → (ctx.puts == 0) ≡ false
    → NoNul name
    → unknown_command name ctx ≡ reported ctx name
unfolding printf_loop
unknown_command-reported ctx name there h =
    let first =
      cli_printf-put_string ctx (codes "Unknown command: %s\r\n") (string (some name) ∷ [])
        (cut 127 (unknown_text name)) there (omega arith) (unknown_text-printf name)
        (unknown_text-NoNul name h) in
    let ctx' : CliContext = record ctx { output = cut 127 (unknown_text name) ∷ ctx.output } in
    let second =
      cli_printf-put_string ctx' help_text [] help_text there (omega arith) refl
        (nul_free-NoNul help_text refl) in
    ap (λ (r : ℕ × CliContext). (cli_printf r.1 help_text []).1) first
    ∙ ap (λ (r : ℕ × CliContext). r.1) second

-- The prompt is put out.
abbrev pub prompted : CliContext → CliContext
prompted ctx = record ctx { output = ctx.prompt ∷ ctx.output }

named_iff : (name : Text) (c : CliCommand) → (named name c ≡ true) ↔ (c.name ≡ some name)
named_iff name c = of c.name
  where
    of :
        (o : Option Text)
        → ((elim o [ none ↦ false | some n ↦ str_eq name n ]) ≡ true) ↔ (o ≡ some name)
    of none = (λ e. absurd (cc e), λ e. absurd (cc e))
    of (some n) = (
      λ e. ap some (sym ((str_eq_iff name n).0 e)),
      λ e. (str_eq_iff name n).1 (sym (some_value e)),
    )

other_name : (name : Text) (c : CliCommand) → named name c ≡ false → c.name ≢ some name
other_name name c off e = absurd (cc (off, (named_iff name c).1 e))

module _ (handlers : Handlers) where
  -- The answer to the arguments, in a context whose line buffer holds them at `argv`: the prompt on
  -- an empty line; else the handler of the first command of that name has run, or the two messages
  -- were put out where no command has the name, and the prompt follows.
  abbrev pub Answer : CliContext → List ℕ → List Text → CliContext → Type 0
  Answer ctx argv [] r = r ≡ prompted ctx
  Answer ctx argv (name ∷ args) r =
      ((i : ℕ) × (i < ctx.cmd_count)
        × ((ctx.commands i).name ≡ some name)
        × ((j : ℕ) → j < i → (ctx.commands j).name ≢ some name)
        × (r ≡ prompted (handlers (ctx.commands i).handler argv ctx)))
      ⊎ (((j : ℕ) → j < ctx.cmd_count → (ctx.commands j).name ≢ some name)
          × (r ≡ prompted (reported ctx name)))

  pub run_command-Answer :
      (ctx : CliContext) (argv : List ℕ) (name : Text) (args : List Text) (found : Option ℕ)
      → (ctx.puts == 0) ≡ false
      → NoNul name
      → FirstNamed name ctx.commands ctx.cmd_count 0 found
      → Answer ctx argv (name ∷ args) (put_prompt (run_command handlers ctx argv name found))
  run_command-Answer ctx argv name args none there h missing = inr (
    λ j lt. other_name name (ctx.commands j) (missing j (omega arith) (omega (arith, lt))),
    ap put_prompt (unknown_command-reported ctx name there h),
  )
  run_command-Answer ctx argv name args (some i) there h (lo, hi, here, before) = inl (
    i,
    omega (arith, hi),
    (named_iff name (ctx.commands i)).0 here,
    λ j lt. other_name name (ctx.commands j) (before j (omega arith) lt),
    refl,
  )
