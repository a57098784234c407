-- ===== src/Cli/Task.antt =====
-- The processing of a line in core/cli.c, the built-in command, `cli_init`, and the rounds of the
-- loop of `cli_task_entry`.
use stm32_cli_os.Prelude.{
  ℕ, zero, suc, ◌+◌, ◌-◌, ◌&&◌, ◌||◌, Option, none, some, List, [], ◌∷◌, ltb, leb, ◌==◌,
  if◌then◌else◌, put,
}
use stm32_cli_os.Utils.Strings.{codes}
use stm32_cli_os.Cli.{
  Text, CliCommand, CliContext, CliResult, cli_ok, cli_max_line_len, find_command,
  cli_register_command,
}
use stm32_cli_os.Cli.Printf.{string, put_string, cli_printf}
use stm32_cli_os.Cli.Tokens.{cli_tokenize, string_at}

abbrev pub new_line : Text
new_line = codes "\r\n"

-- The address of `cmd_help_handler`.
module _ (help_handler : ℕ) where
  abbrev pub help_cmd : CliCommand
  help_cmd = record {
    name = some (codes "help");
    help = codes "List commands";
    handler = help_handler;
  }

  -- What `memset` leaves.
  abbrev pub zeroed : CliContext
  zeroed = record {
    commands = λ _. record { name = none; help = []; handler = 0 };
    cmd_count = 0;
    line_buffer = λ _. 0;
    line_pos = 0;
    getc = 0;
    puts = 0;
    prompt = [];
    output = [];
  }

  unfoldable pub cli_init : Text → ℕ → ℕ → CliResult × CliContext
  cli_init prompt getc puts = (
    cli_ok,
    (cli_register_command (record zeroed { prompt = prompt; getc = getc; puts = puts })
        (some help_cmd)).1,
  )

-- The loop of `cli_print_help`, with the rounds left.
unfoldable pub print_help_loop : ℕ → ℕ → CliContext → CliContext
print_help_loop zero i ctx = ctx
print_help_loop (suc k) i ctx =
    let cmd = ctx.commands i in
    print_help_loop k (i + 1)
      (cli_printf ctx (codes "  %-10s %s\r\n") (string cmd.name ∷ string (some cmd.help) ∷ [])).1

unfoldable pub cli_print_help : CliContext → CliContext
cli_print_help ctx =
    print_help_loop ctx.cmd_count 0 (cli_printf ctx (codes "Available commands:\r\n") []).1

unfoldable pub cmd_help_handler : List ℕ → CliContext → CliContext
cmd_help_handler argv ctx = cli_print_help ctx

-- The two messages on a name that no command has.
abbrev pub unknown_command : Text → CliContext → CliContext
unknown_command name ctx =
    let ctx' = (cli_printf ctx (codes "Unknown command: %s\r\n") (string (some name) ∷ [])).1 in
    (cli_printf ctx' (codes "Type 'help' for list.\r\n") []).1

abbrev pub put_prompt : CliContext → CliContext
put_prompt ctx = put_string ctx ctx.prompt

-- The branch of `cli_task_entry` for backspace and `DEL`.
abbrev pub erase_key : CliContext → CliContext
erase_key ctx =
    if ltb 0 ctx.line_pos
    then put_string (record ctx { line_pos = ctx.line_pos - 1 }) (8 ∷ b' ' ∷ 8 ∷ [])
    else ctx

-- The branch for the other characters that are put into the line.
abbrev pub printable_key : CliContext → ℕ → CliContext
printable_key ctx c =
    if ltb ctx.line_pos (cli_max_line_len - 1)
    then put_string
        (record ctx {
          line_buffer = put ctx.line_buffer ctx.line_pos c;
          line_pos = ctx.line_pos + 1;
        })
        (c ∷ [])
    else ctx

-- A handler by its address: `argv` has indices into the line buffer, `argc` is its length.
abbrev pub Handlers : Type 0
Handlers = ℕ → List ℕ → CliContext → CliContext

module _ (handlers : Handlers) where
  -- The outcome of the search for the name.
  abbrev pub run_command : CliContext → List ℕ → Text → Option ℕ → CliContext
  run_command ctx argv name none = unknown_command name ctx
  run_command ctx argv name (some i) = handlers (ctx.commands i).handler argv ctx

  -- What follows the tokenizer.
  abbrev pub process_args : CliContext → List ℕ → CliContext
  process_args ctx [] = put_prompt ctx
  process_args ctx (p ∷ argv) =
      let name = string_at cli_max_line_len ctx.line_buffer p in
      put_prompt (run_command ctx (p ∷ argv) name (find_command name ctx.commands ctx.cmd_count 0))

  unfoldable pub cli_process_cmd : CliContext → CliContext
  cli_process_cmd ctx =
      let (b, argv) = cli_tokenize ctx.line_buffer in
      process_args (record ctx { line_buffer = b }) argv

  -- The round of the loop that gets a character.
  unfoldable pub task_round : CliContext → ℕ → CliContext
  task_round ctx c =
      if (c == b'\r') || (c == b'\n')
      then (let ctx' = put_string ctx new_line in
          let done =
            cli_process_cmd (record ctx' { line_buffer = put ctx'.line_buffer ctx'.line_pos 0 }) in
          record done { line_pos = 0 })
      else if (c == 8) || (c == 127)
      then erase_key ctx
      else if leb b' ' c && leb c b'~'
      then printable_key ctx c
      else ctx

  -- The rounds on some characters. A round without a character sleeps and changes nothing here.
  unfoldable pub task_rounds : CliContext → List ℕ → CliContext
  task_rounds ctx [] = ctx
  task_rounds ctx (c ∷ cs) = task_rounds (task_round ctx c) cs

  unfoldable pub cli_task_entry : CliContext → List ℕ → CliContext
  cli_task_entry ctx cs = task_rounds (put_prompt (put_string ctx new_line)) cs
