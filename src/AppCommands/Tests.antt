-- ===== src/AppCommands/Tests.antt =====
-- The handlers of app/app_commands.c at concrete inputs.
use stm32_cli_os.Prelude.{◌≡◌, refl}
use stm32_cli_os.AppCommands.Uptime.{uptime}

-- 1 day, 1 hour, 1 minute, 1 second and 5 milliseconds, which is printed as `1 Seconds.5`.
uptime_of_a_day :
    uptime 90061005 ≡ record { days = 1; hours = 1; minutes = 1; seconds = 1; mili_sec = 5 }
uptime_of_a_day = refl
