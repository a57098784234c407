-- ===== src/Utils/Tests.antt =====
-- A wait at a concrete register.
use stm32_cli_os.Prelude.{ltb}
use stm32_cli_os.Utils.Wait.{wait_until, Waited, wait_until-Waited}

-- The register counts its reads, and is waited for to exceed 3.
wait_until-Waited_example : Waited (ltb 3) (λ n. n) 10 0 (wait_until (ltb 3) (λ n. n) 10 0)
wait_until-Waited_example = wait_until-Waited 10 (ltb 3) (λ n. n) 0
