-- ===== src/AppCommands/Register.antt =====
-- The command records of app/app_commands.c and `app_commands_register_all`, behind `cli_init` of
-- core/cli.c, as `main` of app/main.c calls them.
use stm32_cli_os.Prelude.{ℕ, ◌≡◌, refl, false, sym, subst, put, leb, ◌+◌, some, ◌==◌}
use stm32_cli_os.Utils.Strings.{Text, codes, str_eq}
use stm32_cli_os.Cli.{CliCommand, CliContext, cli_register_command, find_command}
use stm32_cli_os.Cli.Task.{cli_init, zeroed, help_cmd}

-- The addresses of the handlers.
pub record Addresses : Type 0 where
  pub help : ℕ
  pub heap_stats : ℕ
  pub task_list : ℕ
  pub uptime : ℕ
  pub kill : ℕ
  pub reboot : ℕ
  pub heap_test : ℕ

abbrev pub command : Text → Text → ℕ → CliCommand
command name help handler = record { name = some name; help = help; handler = handler }

module _ (at : Addresses) where
  abbrev pub heap_stats_cmd : CliCommand
  heap_stats_cmd =
      command (codes "heap") (codes "Show heap statistics (dynamic mode only)") at.heap_stats

  abbrev pub task_list_cmd : CliCommand
  task_list_cmd = command (codes "tasks") (codes "List all tasks") at.task_list

  abbrev pub uptime_cmd : CliCommand
  uptime_cmd = command (codes "uptime") (codes "How long the system is up") at.uptime

  abbrev pub kill_cmd : CliCommand
  kill_cmd = command (codes "kill") (codes "kill <task_id> : kill a task") at.kill

  abbrev pub reboot_cmd : CliCommand
  reboot_cmd = command (codes "reboot") (codes "reboot the system") at.reboot

  abbrev pub heap_test_cmd : CliCommand
  heap_test_cmd =
      command (codes "heaptest") (codes "Stress test heap: heaptest <basic|frag|stress> [size]")
        at.heap_test

  abbrev pub register : CliContext → CliCommand → CliContext
  register ctx cmd = (cli_register_command ctx (some cmd)).1

  unfoldable pub app_commands_register_all : CliContext → CliContext
  app_commands_register_all ctx =
      let c1 = register ctx heap_stats_cmd in
      let c2 = register c1 task_list_cmd in
      let c3 = register c2 uptime_cmd in
      let c4 = register c3 kill_cmd in let c5 = register c4 reboot_cmd in register c5 heap_test_cmd

  -- The table that `main` sets up.
  abbrev pub start_cli : Text → ℕ → ℕ → CliContext
  start_cli prompt getc puts = app_commands_register_all (cli_init at.help prompt getc puts).1

  -- A name is found, with the address of its handler.
  abbrev pub Runs : CliContext → Text → ℕ → Type 0
  Runs ctx name handler =
      (i : ℕ) × (find_command name ctx.commands ctx.cmd_count 0 ≡ some i)
      × ((ctx.commands i).handler ≡ handler)

  abbrev pub AllRun : CliContext → Type 0
  AllRun ctx =
      Runs ctx (codes "help") at.help
      × Runs ctx (codes "heap") at.heap_stats
      × Runs ctx (codes "tasks") at.task_list
      × Runs ctx (codes "uptime") at.uptime
      × Runs ctx (codes "kill") at.kill
      × Runs ctx (codes "reboot") at.reboot
      × Runs ctx (codes "heaptest") at.heap_test
      × (ctx.cmd_count ≡ 7)

  -- A command behind the others.
  abbrev added : CliContext → CliCommand → CliContext
  added ctx cmd = record ctx {
    commands = put ctx.commands ctx.cmd_count cmd;
    cmd_count = ctx.cmd_count + 1;
  }

  register-added :
      (ctx ctx' : CliContext) (name help : Text) (handler : ℕ)
      → ctx ≡ ctx'
      → leb 32 ctx'.cmd_count ≡ false
      → (handler == 0) ≡ false
      → (cli_register_command ctx (some (command name help handler))).1
        ≡ added ctx' (command name help handler)
  unfolding cli_register_command
  register-added ctx ctx' name help handler e room there = rw (e, room, there) refl

  -- With handlers that are there.
  module _ (h0 : (at.help == 0) ≡ false) (h1 : (at.heap_stats == 0) ≡ false)
      (h2 : (at.task_list == 0) ≡ false) (h3 : (at.uptime == 0) ≡ false)
      (h4 : (at.kill == 0) ≡ false) (h5 : (at.reboot == 0) ≡ false)
      (h6 : (at.heap_test == 0) ≡ false) where
    abbrev empty : Text → ℕ → ℕ → CliContext
    empty prompt getc puts = record (zeroed at.help) { prompt = prompt; getc = getc; puts = puts }

    abbrev full : CliContext → CliContext
    full c0 =
        let c1 = added (added c0 (help_cmd at.help)) heap_stats_cmd in
        let c3 = added (added c1 task_list_cmd) uptime_cmd in
        added (added (added c3 kill_cmd) reboot_cmd) heap_test_cmd

    start_cli-full :
        (prompt : Text) (getc puts : ℕ) → start_cli prompt getc puts ≡ full (empty prompt getc puts)
    unfolding app_commands_register_all cli_init
    start_cli-full prompt getc puts =
        let e0 =
          register-added (empty prompt getc puts) (empty prompt getc puts) _ _ at.help refl refl
            h0 in
        let e1 = register-added _ _ _ _ at.heap_stats e0 refl h1 in
        let e2 = register-added _ _ _ _ at.task_list e1 refl h2 in
        let e3 = register-added _ _ _ _ at.uptime e2 refl h3 in
        let e4 = register-added _ _ _ _ at.kill e3 refl h4 in
        let e5 = register-added _ _ _ _ at.reboot e4 refl h5 in
        register-added _ _ _ _ at.heap_test e5 refl h6

    -- Where the seven handlers are there, `cli_init` and then `app_commands_register_all` leave a
    -- table of seven commands in which `help`, `heap`, `tasks`, `uptime`, `kill`, `reboot` and
    -- `heaptest` are each found, with the handler of that command.
    pub start_cli-AllRun : (prompt : Text) (getc puts : ℕ) → AllRun (start_cli prompt getc puts)
    unfolding find_command str_eq
    start_cli-AllRun prompt getc puts = subst AllRun (sym (start_cli-full prompt getc puts)) (
      (0, refl, refl),
      (1, refl, refl),
      (2, refl, refl),
      (3, refl, refl),
      (4, refl, refl),
      (5, refl, refl),
      (6, refl, refl),
      refl,
    )
