-- ===== src/RunTests/Sandboxes/Kept.antt =====
-- The runs over the sandboxes leave the storage's list of them alone.
use cloudshell_shell_automat.Base.{
  String, ◌≡◌, refl, ◌∙◌, Bool, List, [], ◌∷◌, Option, some, if◌then◌else◌, arith,
}
use cloudshell_shell_automat.Base.Shuffle.{shuffle}
use cloudshell_shell_automat.Errors.{Exc, keyboard_interrupt}
use cloudshell_shell_automat.Exec.{Exec, Result, ok, err, pure, ◌>>=◌, ◌>>◌}
use cloudshell_shell_automat.Api.{Api, Calls}
use cloudshell_shell_automat.Configs.{MainConfig}
use cloudshell_shell_automat.ShellHandler.{CloudShellSmb, ShellDefinition}
use cloudshell_shell_automat.SandboxHandler.{SandboxHandler}
use cloudshell_shell_automat.ResourceHandler.State.{ResourceHandler, State}
use cloudshell_shell_automat.HandlerStorage.{Stored, asking, resource_handlers, sandbox_handlers}
use cloudshell_shell_automat.HandlerStorage.Keeping.{
  Keeps, >>=-Keeps, resource_handlers-Keeps, sandbox_handlers-holds,
}
use cloudshell_shell_automat.Packages.Package.{find_handler}
use cloudshell_shell_automat.RunTests.{run}
use cloudshell_shell_automat.RunTests.Sandboxes.{
  found_handler, find_handlers, add_handlers, handlers_of, run_sandbox, run_each,
  run_tests_for_sandboxes,
}

module _ (api : Api) (retry : (Exc → Bool) → Exec Calls (Unit {0}) → Exec Calls (Unit {0}))
    (smb : Option CloudShellSmb) (definition : String → Result ShellDefinition) where
  find_handlers-Keeps : (names : List String) → Keeps (find_handlers api retry smb definition names)
  unfolding find_handlers
  find_handlers-Keeps [] = λ s. refl
  find_handlers-Keeps (name ∷ names) =
      let rest : ResourceHandler → Exec Stored (List ResourceHandler) =
        λ h. find_handlers api retry smb definition names >>= λ hs. pure (h ∷ hs) in
      let pick : List ResourceHandler → Exec Stored ResourceHandler =
        λ all s. (found_handler name (find_handler name all), s) in
      >>=-Keeps (resource_handlers api retry smb definition) (λ all. pick all >>= rest)
        (resource_handlers-Keeps api retry smb definition)
        λ all.
          >>=-Keeps (pick all) rest (λ s. refl)
            λ h.
              >>=-Keeps (find_handlers api retry smb definition names) (λ hs. pure (h ∷ hs))
                (find_handlers-Keeps names) (λ hs s. refl)

  handlers_of-Keeps :
      (sandbox : SandboxHandler) → Keeps (handlers_of api retry smb definition sandbox)
  unfolding handlers_of
  handlers_of-Keeps sandbox =
      >>=-Keeps (find_handlers api retry smb definition sandbox.conf.resource_names)
        (λ hs. asking (add_handlers api retry smb definition sandbox hs))
        (find_handlers-Keeps sandbox.conf.resource_names) (λ hs s. refl)

  module _ (stop : Calls → Bool) (test_names : String → List String)
      (run_suite : List (String × String) → Exec State (Bool × String)) (conf : MainConfig) where
    run_sandbox-Keeps :
        (sandbox : SandboxHandler)
        → Keeps (run_sandbox api retry smb definition stop test_names run_suite conf sandbox)
    unfolding run_sandbox
    run_sandbox-Keeps sandbox =
        let flag : Exec Stored (Unit {0}) =
          λ s. (if stop s.calls then err keyboard_interrupt else ok tt, s) in
        let find = handlers_of api retry smb definition sandbox in
        >>=-Keeps (flag >> find)
          (λ hs. asking (run api stop test_names run_suite conf sandbox.conf.name hs))
          (>>=-Keeps flag (λ _. find) (λ s. refl) (λ _. handlers_of-Keeps sandbox)) (λ hs s. refl)

    run_each-sandboxes :
        (hs : List SandboxHandler) (s : Stored)
        → (run_each api retry smb definition stop test_names run_suite conf hs s).1.self.sandboxes
          ≡ s.self.sandboxes
    unfolding run_each
    run_each-sandboxes [] s = refl
    run_each-sandboxes (h ∷ hs) s =
        run_each-sandboxes hs
          (run_sandbox api retry smb definition stop test_names run_suite conf h s).1
        ∙ run_sandbox-Keeps h s

    -- The sandboxes that a run which returns began with are those that it leaves.
    pub run_tests_for_sandboxes-holds :
        (show : List Exc → String) (s : Stored) (hs : List SandboxHandler)
        → (sandbox_handlers api retry smb definition s).0 ≡ ok hs
        → (run_tests_for_sandboxes api retry smb definition stop test_names run_suite conf show
            s).1.self.sandboxes
          ≡ some hs
    unfolding run_tests_for_sandboxes
    run_tests_for_sandboxes-holds show s hs h =
        let t = (sandbox_handlers api retry smb definition s).1 in
        let kept =
          run_each-sandboxes (shuffle (api.order t.calls) hs) t
          ∙ sandbox_handlers-holds api retry smb definition s hs h in
        ground (arith, h, kept)
