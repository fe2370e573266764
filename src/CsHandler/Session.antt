-- ===== src/CsHandler/Session.antt =====
-- `CloudShellHandler` of shell_tests/handlers/cs_handler.py: `wait_for_cs_is_started`.
use cloudshell_shell_automat.Base.{ℕ, zero, suc, Bool, true, false}
use cloudshell_shell_automat.Errors.{Exc, cs_is_not_alive, os_error, max_retry_error}
use cloudshell_shell_automat.Exec.{Exec, raise, catch, ◌>>◌}
use cloudshell_shell_automat.Api.{Api, Call, Calls, perform, pause}

-- `except (OSError, MaxRetryError)`
unfoldable pub is_connection_error : Exc → Bool
is_connection_error (os_error m) = true
is_connection_error max_retry_error = true
is_connection_error _ = false

module _ (api : Api) where
  -- The rounds left of `for _ in range(10)`.
  connect_rounds : ℕ → Exec Calls (Unit {0})
  connect_rounds zero = raise cs_is_not_alive
  connect_rounds (suc n) =
      catch (perform api.accept Call.connect)
        λ e. elim (is_connection_error e) [ true ↦ pause 10 >> connect_rounds n | false ↦ raise e ]

  unfoldable pub wait_for_cs_is_started : Exec Calls (Unit {0})
  unfolding connect_rounds
  wait_for_cs_is_started = connect_rounds 10
