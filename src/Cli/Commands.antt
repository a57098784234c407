-- ===== src/Cli/Commands.antt =====
-- The command table of core/cli.c: what is registered is found, what is unregistered is gone.
use stm32_cli_os.Prelude.{
  ℕ, zero, suc, ◌+◌, ◌-◌, ◌<◌, ◌≤◌, ◌≡◌, ◌≢◌, refl, sym, ap, ◌∙◌, ◌⊎◌, inl, inr, true, false,
  Option, none, some, arith, ◌==◌, ==_iff, ==_ne, Bool-cases, leb, leb→le, leb→lt,
}
use stm32_cli_os.Cli.{
  Text, CliCommand, CliContext, CliResult, cli_ok, cli_err, cli_err_nocmd, named, find_command,
  invalid, cli_register_command, remove_at, cli_unregister_command,
}

-- The first command of a name among `k` from `i` on.
abbrev pub FirstNamed : Text → (ℕ → CliCommand) → ℕ → ℕ → Option ℕ → Type 0
FirstNamed name commands k i none = (j : ℕ) → i ≤ j → j < i + k → named name (commands j) ≡ false
FirstNamed name commands k i (some r) =
    (i ≤ r)
    × (r < i + k)
    × (named name (commands r) ≡ true)
    × ((j : ℕ) → i ≤ j → j < r → named name (commands j) ≡ false)

FirstNamed-suc :
    (name : Text) (commands : ℕ → CliCommand) (k i : ℕ) (o : Option ℕ)
    → named name (commands i) ≡ false
    → FirstNamed name commands k (i + 1) o
    → FirstNamed name commands (suc k) i o
FirstNamed-suc name commands k i none other f = λ j lo hi. elim (Bool-cases (i == j)) [
  | inl here ↦ ap (λ x. named name (commands x)) (sym ((==_iff i j).0 here)) ∙ other
  | inr away ↦
      let ne : i ≢ j = λ e. absurd (cc (away, (==_iff i j).1 e)) in
      f j (omega (arith, lo, ne)) (omega (arith, hi))
]
FirstNamed-suc name commands k i (some r) other (lo, hi, yes_here, before) = (
  omega (arith, lo),
  omega (arith, hi),
  yes_here,
  λ j lo' lt. elim (Bool-cases (i == j)) [
    | inl here ↦ ap (λ x. named name (commands x)) (sym ((==_iff i j).0 here)) ∙ other
    | inr away ↦
        let ne : i ≢ j = λ e. absurd (cc (away, (==_iff i j).1 e)) in
        before j (omega (arith, lo', ne)) lt
  ],
)

pub find_command-FirstNamed :
    (k : ℕ) (name : Text) (commands : ℕ → CliCommand) (i : ℕ)
    → FirstNamed name commands k i (find_command name commands k i)
unfolding find_command
find_command-FirstNamed zero name commands i = λ j lo hi. absurd (omega (arith, lo, hi))
find_command-FirstNamed (suc k) name commands i = elim (Bool-cases (named name (commands i))) [
  | inl here ↦ rw here (omega arith, omega arith, here, λ j lo lt. absurd (omega (arith, lo, lt)))
  | inr other ↦
      rw other
        (FirstNamed-suc name commands k i _ other (find_command-FirstNamed k name commands (i + 1)))
]

-- What a registration does on each branch.
abbrev pub Registered : CliContext → CliCommand → CliResult × CliContext → Type 0
Registered ctx cmd r =
    ((r.0 ≡ cli_err) × (r.1 ≡ ctx) × ((32 ≤ ctx.cmd_count) ⊎ (invalid cmd ≡ true)))
    ⊎ ((r.0 ≡ cli_ok)
        × (ctx.cmd_count < 32)
        × (invalid cmd ≡ false)
        × (r.1.cmd_count ≡ ctx.cmd_count + 1)
        × (r.1.commands ctx.cmd_count ≡ cmd)
        × ((j : ℕ) → j < ctx.cmd_count → r.1.commands j ≡ ctx.commands j))

-- `cli_register_command` of a command fails and changes nothing exactly where 32 commands are there
-- or the name or the handler is missing; otherwise it puts the command behind the others, which
-- stay.
pub register-Registered :
    (ctx : CliContext) (cmd : CliCommand) → Registered ctx cmd (cli_register_command ctx (some cmd))
unfolding cli_register_command
register-Registered ctx cmd = elim (Bool-cases (leb 32 ctx.cmd_count)) [
  | inl full ↦ rw full (inl (refl, refl, inl (leb→le _ _ full)))
  | inr room ↦ elim (Bool-cases (invalid cmd)) [
    | inl bad ↦ rw (room, bad) (inl (refl, refl, inr refl))
    | inr good ↦
        rw (room, good)
          (inr (
            refl,
            leb→lt _ _ room,
            refl,
            refl,
            rw ((==_iff ctx.cmd_count ctx.cmd_count).1 refl) refl,
            λ j lt. rw (==_ne j ctx.cmd_count (omega (arith, lt))) refl,
          ))
  ]
]

-- What removing a name does: the others stay, each somewhere in the table.
abbrev pub Removed : CliContext → Text → CliResult × CliContext → Type 0
Removed ctx name r =
    ((r.0 ≡ cli_err_nocmd)
      × (r.1 ≡ ctx)
      × ((j : ℕ) → j < ctx.cmd_count → named name (ctx.commands j) ≡ false))
    ⊎ ((r.0 ≡ cli_ok)
        × (r.1.cmd_count + 1 ≡ ctx.cmd_count)
        × ((j : ℕ) → j < r.1.cmd_count → named name (r.1.commands j) ≡ false)
        × ((j : ℕ)
            → j < ctx.cmd_count
            → named name (ctx.commands j) ≡ false
            → (j' : ℕ) × (j' < r.1.cmd_count) × (r.1.commands j' ≡ ctx.commands j)))

module _ (ctx : CliContext) (name : Text)
    (once : (i j : ℕ)
      → i < ctx.cmd_count
      → j < ctx.cmd_count
      → named name (ctx.commands i) ≡ true
      → named name (ctx.commands j) ≡ true
      → i ≡ j) where
  -- Another slot than the one of the name has another name.
  other-name :
      (i j : ℕ)
      → i < ctx.cmd_count
      → j < ctx.cmd_count
      → named name (ctx.commands i) ≡ true
      → j ≢ i
      → named name (ctx.commands j) ≡ false
  other-name i j hi hj here ne = elim (Bool-cases (named name (ctx.commands j))) [
    | inl twice ↦ absurd (ne (once j i hj hi twice here))
    | inr other ↦ other
  ]

  remove-Removed :
      (o : Option ℕ)
      → FirstNamed name ctx.commands ctx.cmd_count 0 o
      → Removed ctx name (remove_at ctx o)
  remove-Removed none f = inl (refl, refl, λ j lt. f j (omega arith) (omega (arith, lt)))
  remove-Removed (some i) (lo, hi, here, before) =
      let last : ℕ = ctx.cmd_count - 1 in
      let lt : i < ctx.cmd_count = omega (arith, hi) in
      inr (
        refl,
        omega (arith, lt),
        λ j less. elim (Bool-cases (j == i)) [
          | inl at ↦
              let e = (==_iff j i).0 at in
              rw at (other-name i last lt (omega (arith, lt)) here (omega (arith, e, less)))
          | inr off ↦
              let ne : j ≢ i = λ e. absurd (cc (off, (==_iff j i).1 e)) in
              rw off (other-name i j lt (omega (arith, less)) here ne)
        ],
        λ j less no.
            let ne : j ≢ i = λ e. absurd (cc (no, here, e)) in
            elim (Bool-cases (j == last)) [
              | inl end ↦
                  let e = (==_iff j last).0 end in
                  (i, omega (arith, lt, ne, e), rw ((==_iff i i).1 refl) (ap ctx.commands (sym e)))
              | inr inner ↦
                  let apart : j ≢ last = λ e. absurd (cc (inner, (==_iff j last).1 e)) in
                  (j, omega (arith, less, apart), rw (==_ne j i ne) refl)
            ],
      )

  -- Where at most one command of the table has a name, `cli_unregister_command` of the name either
  -- finds none and changes nothing, or leaves a table one shorter in which no command has the name
  -- and every other command still stands.
  pub unregister-Removed : Removed ctx name (cli_unregister_command ctx name)
  unfolding cli_unregister_command
  unregister-Removed =
      remove-Removed (find_command name ctx.commands ctx.cmd_count 0)
        (find_command-FirstNamed ctx.cmd_count name ctx.commands 0)
