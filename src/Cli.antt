-- ===== src/Cli.antt =====
-- core/cli.c: its state, and the table of commands.
pub mod Commands
pub mod Printf
pub mod Decimal
pub mod Nul
pub mod Bounded
pub mod Tokens
pub mod Words
pub mod Arguments
pub mod Split
pub mod Task
pub mod Answer
pub mod Dispatch
pub mod Editor
mod Tests
pub use stm32_cli_os.Utils.Strings.{Text, str_eq}
use stm32_cli_os.Prelude.{
  ℕ, zero, suc, ◌+◌, ◌-◌, Bool, true, false, ◌&&◌, ◌||◌, Option, none, some, List, [], ◌∷◌, ◌++◌,
  ltb, leb, ◌==◌, if◌then◌else◌, put, length,
}

abbrev pub cli_max_line_len : ℕ
cli_max_line_len = 128

abbrev pub cli_max_cmds : ℕ
cli_max_cmds = 32

-- `name` and `help`, `none` for `NULL`, and the address of the handler.
pub record CliCommand : Type 0 where
  pub name : Option Text
  pub help : Text
  pub handler : ℕ

pub data CliResult : Type 0 where
  cli_ok cli_err cli_err_nocmd cli_err_toolong cli_err_bad_args cli_err_busy : CliResult

-- `cli_ctx`. The functions are addresses, 0 for `NULL`; `output` has the strings given to `puts`
-- since `cli_init`, the newest first.
pub record CliContext : Type 0 where
  pub commands : ℕ → CliCommand
  pub cmd_count : ℕ
  pub line_buffer : ℕ → ℕ
  pub line_pos : ℕ
  pub getc : ℕ
  pub puts : ℕ
  pub prompt : Text
  pub output : List Text

abbrev pub named : Text → CliCommand → Bool
named name c = elim (c.name) [ none ↦ false | some n ↦ str_eq name n ]

-- The search of `cli_process_cmd` and `cli_unregister_command`, with the rounds left.
unfoldable pub find_command : Text → (ℕ → CliCommand) → ℕ → ℕ → Option ℕ
find_command name commands zero i = none
find_command name commands (suc k) i =
    let rest = find_command name commands k (i + 1) in
    if named name (commands i) then some i else rest

-- `!cmd->name || !cmd->handler`.
abbrev pub invalid : CliCommand → Bool
invalid c = elim (c.name) [ none ↦ true | some n ↦ c.handler == 0 ]

-- `none` is a null pointer.
unfoldable pub cli_register_command : CliContext → Option CliCommand → CliResult × CliContext
cli_register_command ctx none = (cli_err, ctx)
cli_register_command ctx (some cmd) =
    if leb cli_max_cmds ctx.cmd_count
    then (cli_err, ctx)
    else if invalid cmd
    then (cli_err, ctx)
    else (
      cli_ok,
      record ctx { commands = put ctx.commands ctx.cmd_count cmd; cmd_count = ctx.cmd_count + 1 },
    )

-- The outcome of the search: the last command takes the place of the one that goes.
abbrev pub remove_at : CliContext → Option ℕ → CliResult × CliContext
remove_at ctx none = (cli_err_nocmd, ctx)
remove_at ctx (some i) = (
  cli_ok,
  record ctx {
    commands = put ctx.commands i (ctx.commands (ctx.cmd_count - 1));
    cmd_count = ctx.cmd_count - 1;
  },
)

unfoldable pub cli_unregister_command : CliContext → Text → CliResult × CliContext
cli_unregister_command ctx name = remove_at ctx (find_command name ctx.commands ctx.cmd_count 0)
