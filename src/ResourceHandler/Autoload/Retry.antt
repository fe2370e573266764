-- ===== src/ResourceHandler/Autoload/Retry.antt =====
-- The second try of an Autoload.
use cloudshell_shell_automat.Base.{String, ◌≡◌, true, false, ◌∷◌, contains, arith}
use cloudshell_shell_automat.Errors.{api_error, dependencies_broken}
use cloudshell_shell_automat.Exec.{ok, err}
use cloudshell_shell_automat.Api.{Api, Call}
use cloudshell_shell_automat.CsHandler
use cloudshell_shell_automat.CsHandler.{pypi_is_down}
use cloudshell_shell_automat.ResourceHandler.State.{State}
use cloudshell_shell_automat.ResourceHandler.Autoload.{autoload_once}

module _ (api : Api) (s : State) where
  abbrev load : Call
  load = Call.auto_load s.self.name

  abbrev update : Call
  update = Call.update_resource_driver s.self.name s.self.model

  -- If the first try of an Autoload raises `DependenciesBrokenError`, which the PyPI text of the
  -- server's error stands for, the flag is set and there is no second try.
  pub autoload_once-broken :
      (code message text : String)
      → api.accept s.calls load ≡ err (api_error code message text)
      → contains pypi_is_down text ≡ true
      → ((autoload_once api s).0 ≡ err dependencies_broken)
        × ((autoload_once api s).1.self.dependencies_are_broken ≡ true)
        × ((autoload_once api s).1.calls ≡ load ∷ s.calls)
  unfolding autoload_once CsHandler.resource_autoload
  autoload_once-broken code message text first broken = ground arith

  -- If the first try fails with the code 129 for another reason, and the driver is updated, the second
  -- try may raise `DependenciesBrokenError` too: then the flag stays as it was.
  pub autoload_once-broken_later :
      (message text code' message' text' : String)
      → api.accept s.calls load ≡ err (api_error "129" message text)
      → contains pypi_is_down text ≡ false
      → api.accept (load ∷ s.calls) update ≡ ok tt
      → api.accept (update ∷ load ∷ s.calls) load ≡ err (api_error code' message' text')
      → contains pypi_is_down text' ≡ true
      → ((autoload_once api s).0 ≡ err dependencies_broken)
        × ((autoload_once api s).1.self ≡ s.self)
        × ((autoload_once api s).1.calls ≡ load ∷ update ∷ load ∷ s.calls)
  unfolding autoload_once CsHandler.resource_autoload CsHandler.update_driver_for_the_resource
  autoload_once-broken_later message text code' message' text' first other updated second broken =
      ground arith
