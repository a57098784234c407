-- ===== src/Cli/Tests.antt =====
-- The command table on two commands, and the line `ls x`.
use stm32_cli_os.Prelude.{some, [], ◌∷◌, arith, ◌≡◌, refl, false, ◌<◌, length, put}
use stm32_cli_os.Utils.Strings.{codes}
use stm32_cli_os.Cli.{CliCommand, CliContext, cli_unregister_command}
use stm32_cli_os.Cli.Printf.{
  number, string, cli_printf, printf_loop, conversion, append, digit_loop,
}
use stm32_cli_os.Cli.Bounded.{Printed, cli_printf-Printed}
use stm32_cli_os.Cli.Decimal.{ReadBack, cli_printf-ReadBack}
use stm32_cli_os.Cli.Tokens.{Buffer, cli_tokenize}
use stm32_cli_os.Cli.Split.{CString, CStrings}
use stm32_cli_os.Cli.Words.{words, tokens}
use stm32_cli_os.Cli.Arguments.{cli_tokenize-words}
use stm32_cli_os.Cli.Task.{Handlers, task_round, task_rounds, cmd_help_handler}
use stm32_cli_os.Cli.Editor.{LineIs, Edited, edits, reverse_onto, task_rounds-Edited}
use stm32_cli_os.Cli.Dispatch.{Entered, task_round-Entered}
use stm32_cli_os.Cli.Commands.{Removed, unregister-Removed}

-- `help` and `ls`.
abbrev help_cmd : CliCommand
help_cmd = record { name = some (104 ∷ 101 ∷ 108 ∷ 112 ∷ []); help = []; handler = 134217729 }

abbrev ls_cmd : CliCommand
ls_cmd = record { name = some (108 ∷ 115 ∷ []); help = []; handler = 134217985 }

abbrev one_command : CliContext
one_command = record {
  commands = λ _. help_cmd;
  cmd_count = 1;
  line_buffer = λ _. 0;
  line_pos = 0;
  getc = 134218241;
  puts = 134218497;
  prompt = codes "OS> ";
  output = [];
}

unregister-Removed_example :
    Removed one_command
      (104 ∷ 101 ∷ 108 ∷ 112 ∷ [])
      (cli_unregister_command one_command (104 ∷ 101 ∷ 108 ∷ 112 ∷ []))
unregister-Removed_example =
    unregister-Removed one_command (104 ∷ 101 ∷ 108 ∷ 112 ∷ [])
      λ i j hi hj a b. omega (arith, hi, hj)

-- The last digit of 43 is printed as `l`, 10 characters behind `b`.
hexadecimal_digit : printf_loop (codes "%x") false (number 43 ∷ []) 0 ≡ codes "0x2l"
unfolding printf_loop conversion append digit_loop
hexadecimal_digit = refl

-- The width of `%-10s` is printed, and the name takes the place of the help.
help_line :
    printf_loop
      (codes "  %-10s %s")
      false
      (string (some (codes "ls")) ∷ string (some (codes "List")) ∷ [])
      0
    ≡ codes "  10s ls"
unfolding printf_loop conversion append
help_line = refl

cli_printf-Printed_example :
    Printed one_command
      (codes "%s %d%%")
      (string (some (codes "cpu")) ∷ number 7 ∷ [])
      (cli_printf one_command (codes "%s %d%%") (string (some (codes "cpu")) ∷ number 7 ∷ []))
cli_printf-Printed_example =
    cli_printf-Printed one_command (codes "%s %d%%") (string (some (codes "cpu")) ∷ number 7 ∷ [])

cli_printf-ReadBack_example :
    ReadBack one_command [] 1234 (cli_printf one_command (codes "%u") (number 1234 ∷ []))
    × ReadBack one_command [] 1234 (cli_printf one_command (codes "%d") (number 1234 ∷ []))
    × ReadBack one_command
        (b'-' ∷ [])
        7
        (cli_printf one_command (codes "%d") (number 4294967289 ∷ []))
cli_printf-ReadBack_example =
    cli_printf-ReadBack one_command refl 1234 7 (omega arith) (omega arith) (omega arith)

abbrev ls_x : Buffer
ls_x = put (put (put (put (λ _. 0) 0 b'l') 1 b's') 2 b' ') 3 b'x'

ls_x-CString : CString ls_x 0 (codes "ls x")
ls_x-CString =
    (refl, omega arith, (refl, omega arith, (refl, omega arith, (refl, omega arith, refl))))

ls_x_few : length (words (codes "ls x")) < 16
unfolding tokens
ls_x_few = omega arith

cli_tokenize-words_example :
    CStrings (cli_tokenize ls_x).0 (cli_tokenize ls_x).1 (words (codes "ls x"))
cli_tokenize-words_example =
    cli_tokenize-words ls_x (codes "ls x") (omega arith) ls_x_few ls_x-CString

abbrev typed_ls_x : CliContext
typed_ls_x = record one_command { line_buffer = ls_x; line_pos = 4 }

-- The built-in command alone is there.
abbrev only_help : Handlers
only_help handler argv ctx = cmd_help_handler argv ctx

task_rounds-Edited_example :
    Edited one_command
      (edits [] (b'l' ∷ b'z' ∷ 127 ∷ b's' ∷ []))
      (task_rounds only_help one_command (b'l' ∷ b'z' ∷ 127 ∷ b's' ∷ []))
task_rounds-Edited_example =
    task_rounds-Edited only_help (b'l' ∷ b'z' ∷ 127 ∷ b's' ∷ []) one_command []
      (refl, (refl, (refl, (refl, tt)))) (refl, omega arith, tt)

typed-LineIs : LineIs typed_ls_x (b'x' ∷ b' ' ∷ b's' ∷ b'l' ∷ [])
typed-LineIs = (
  refl,
  omega arith,
  (refl, omega arith, (refl, omega arith, (refl, omega arith, (refl, omega arith, tt)))),
)

task_round-Entered_example :
    Entered only_help typed_ls_x
      (reverse_onto (b'x' ∷ b' ' ∷ b's' ∷ b'l' ∷ []) [])
      (task_round only_help typed_ls_x b'\r')
task_round-Entered_example =
    task_round-Entered only_help typed_ls_x (b'x' ∷ b' ' ∷ b's' ∷ b'l' ∷ []) b'\r' refl typed-LineIs
      λ e. absurd (omega (arith, e))
