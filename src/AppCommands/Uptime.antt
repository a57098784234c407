-- ===== src/AppCommands/Uptime.antt =====
-- `cmd_uptime_handler` of app/app_commands.c.
use stm32_cli_os.Prelude.{ℕ, ◌+◌, ◌*◌, ◌/◌, ◌%◌, ◌<◌, ◌≡◌, List, [], ◌∷◌, arith}
use stm32_cli_os.Utils.Strings.{codes}
use stm32_cli_os.Allocator.Report.{Status, ok}
use stm32_cli_os.Cli.Printf.{number}
use stm32_cli_os.AppCommands.{App, say}

pub record Uptime : Type 0 where
  pub days : ℕ
  pub hours : ℕ
  pub minutes : ℕ
  pub seconds : ℕ
  pub mili_sec : ℕ

abbrev pub uptime : ℕ → Uptime
uptime ticks =
    let seconds = ticks / 1000 in
    let minutes = seconds / 60 in
    let hours = minutes / 60 in
    record {
      days = hours / 24;
      hours = hours % 24;
      minutes = minutes % 60;
      seconds = seconds % 60;
      mili_sec = ticks % 1000;
    }

unfoldable pub cmd_uptime_handler : List ℕ → App → Status × App
cmd_uptime_handler argv a =
    let t = uptime a.system.systick_ticks in
    (
      ok,
      say (codes "Uptime: %u Days, %u Hours, %u Minutes, %u Seconds.%u\r\n")
          (number t.days
            ∷ number t.hours
            ∷ number t.minutes
            ∷ number t.seconds
            ∷ number t.mili_sec
            ∷ [])
          a,
    )

-- The parts of a number of ticks of one millisecond.
abbrev pub Parts : ℕ → Uptime → Type 0
Parts ticks t =
    ((((t.days * 24 + t.hours) * 60 + t.minutes) * 60 + t.seconds) * 1000 + t.mili_sec ≡ ticks)
    × (t.hours < 24)
    × (t.minutes < 60)
    × (t.seconds < 60)
    × (t.mili_sec < 1000)

-- The parts add up to the ticks, each below its limit.
pub uptime-Parts : (ticks : ℕ) → Parts ticks (uptime ticks)
uptime-Parts ticks = (omega arith, omega arith, omega arith, omega arith, omega arith)
