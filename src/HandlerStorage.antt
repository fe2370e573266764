-- ===== src/HandlerStorage.antt =====
-- shell_tests/helpers/handler_storage.py: `HandlerStorage`, as far as it holds Shells, resources and
-- sandboxes. The futures of a pool run one after another here, in the order of submission; in the
-- code they overlap. Their results are collected in any order, as the code goes over a set of them.
-- `finish` is without its last step, which Servers has (`finish_all`): none of the runs of EntryPoints
-- reads `vcenter_handler`, so that no handler of vCenter is there that it could end.
pub mod History
pub mod Finishing
pub mod Failing
pub mod Servers
pub mod Keeping
pub mod Confs
pub mod Offline
use cloudshell_shell_automat.Base.{
  String, map, Bool, true, false, ◌==◌, Option, none, some, List, [], ◌∷◌, or_else, if◌then◌else◌,
}
use cloudshell_shell_automat.Base.Shuffle.{shuffle}
use cloudshell_shell_automat.Errors.{Exc, key_error}
use cloudshell_shell_automat.Exec.{Exec, Result, ok, err, raise, skip, on, for_each, ◌>>=◌, ◌>>◌}
use cloudshell_shell_automat.Api.{Api, Calls}
use cloudshell_shell_automat.Configs.{MainConfig, ShellConfig, ResourceConfig}
use cloudshell_shell_automat.ShellHandler
use cloudshell_shell_automat.ShellHandler.{ShellHandler, ShellDefinition, CloudShellSmb}
use cloudshell_shell_automat.SandboxHandler
use cloudshell_shell_automat.SandboxHandler.{SandboxHandler}
use cloudshell_shell_automat.ResourceHandler.State as Resource
use cloudshell_shell_automat.ResourceHandler.State.{ResourceHandler}

pub record HandlerStorage : Type 0 where
  pub conf : MainConfig
  pub shells : Option (List ShellHandler)
  pub resources : Option (List ResourceHandler)
  pub sandboxes : Option (List SandboxHandler)

pub record Stored : Type 0 where
  pub self : HandlerStorage
  pub calls : Calls

abbrev pub asking : {A : Type 0} → Exec Calls A → Exec Stored A
asking = on (λ s. s.calls) (λ calls s. record s { calls = calls })

module _ {X : Type 0} where
  -- The results of the futures.
  unfoldable pub run_all : List (Exec Calls X) → Calls → List (Result X) × Calls
  run_all [] calls = ([], calls)
  run_all (m ∷ ms) calls =
      let (r, calls') = m calls in let (rs, calls'') = run_all ms calls' in (r ∷ rs, calls'')

  -- The handlers that were created.
  unfoldable pub created : List (Result X) → List X
  created [] = []
  created (ok x ∷ rs) = x ∷ created rs
  created (err e ∷ rs) = created rs

  -- `exception`, which a later one replaces.
  unfoldable pub last_error : List (Result X) → Option Exc
  last_error [] = none
  last_error (ok x ∷ rs) = last_error rs
  last_error (err e ∷ rs) = or_else (last_error rs) (some e)

  -- `if self._x is not None: for h in self.x: h.finish()`
  abbrev pub finish_each : (X → Exec Calls (Unit {0})) → Option (List X) → Exec Calls (Unit {0})
  finish_each f none = skip
  finish_each f (some xs) = for_each xs f

abbrev pub keep_sandboxes : List SandboxHandler → HandlerStorage → HandlerStorage
keep_sandboxes hs self = record self { sandboxes = some hs }

abbrev pub keep_shells : List ShellHandler → HandlerStorage → HandlerStorage
keep_shells hs self = record self { shells = some hs }

abbrev pub keep_resources : List ResourceHandler → HandlerStorage → HandlerStorage
keep_resources hs self = record self { resources = some hs }

-- The last entry of a dict that is built from a list by `conf.name`.
unfoldable pub find_shell : String → List ShellHandler → Option ShellHandler
find_shell name [] = none
find_shell name (h ∷ hs) =
    or_else (find_shell name hs) (if h.conf.name == name then some h else none)

module _ (api : Api) where
  -- The results of the futures, in the order of a set.
  unfoldable pub collect : {X : Type 0} → List (Exec Calls X) → Calls → List (Result X) × Calls
  unfolding run_all shuffle
  collect makers calls =
      let (in_turn, calls') = run_all makers calls in (shuffle (api.order calls') in_turn, calls')

  unfoldable pub finish_resource : ResourceHandler → Exec Calls (Unit {0})
  finish_resource h calls =
      let (r, s) = Resource.finish api (record { self = h; calls = calls }) in (r, s.calls)

module _ (api : Api) (retry : (Exc → Bool) → Exec Calls (Unit {0}) → Exec Calls (Unit {0}))
    (smb : Option CloudShellSmb) where
  -- `finish`, which first ends the sandboxes, then deletes resources, then Shells
  unfoldable pub finish : HandlerStorage → Exec Calls (Unit {0})
  unfolding finish_resource
  finish self =
      finish_each (λ h. SandboxHandler.finish api h true) self.sandboxes
      >> finish_each (finish_resource api) self.resources
      >> finish_each (ShellHandler.finish api retry smb) self.shells

module _ (api : Api) (retry : (Exc → Bool) → Exec Calls (Unit {0}) → Exec Calls (Unit {0}))
    (smb : Option CloudShellSmb) (definition : String → Result ShellDefinition) where
  -- The common end of the properties: keep what was created, and finish if anything was not.
  unfoldable pub settle :
      {X : Type 0}
      → (List X → HandlerStorage → HandlerStorage)
      → List (Exec Calls X)
      → Exec Stored (List X)
  unfolding collect created last_error finish
  settle keep makers s =
      let (rs, calls) = collect api makers s.calls in
      let s' : Stored = record { self = keep (created rs) s.self; calls = calls } in
      elim (last_error rs) [
        | none ↦ (ok (created rs), s')
        | some e ↦ asking (finish api retry smb s'.self >> raise e) s'
      ]

  -- The default duration of `SandboxHandler.create` is 2 * 60.
  unfoldable pub sandbox_handlers : Exec Stored (List SandboxHandler)
  unfolding settle
  sandbox_handlers s = elim s.self.sandboxes [
    | some hs ↦ (ok hs, s)
    | none ↦
        settle keep_sandboxes
          (map (λ conf. SandboxHandler.create api conf 120) s.self.conf.sandboxes_conf) s
  ]

  unfoldable pub shell_handlers : Exec Stored (List ShellHandler)
  unfolding settle
  shell_handlers s = elim s.self.shells [
    | some hs ↦ (ok hs, s)
    | none ↦
        settle keep_shells
          (map (ShellHandler.create api retry smb definition) s.self.conf.shells_conf) s
  ]

  abbrev found_shell : String → Option ShellHandler → Result ShellHandler
  found_shell name none = err (key_error name)
  found_shell name (some h) = ok h

  -- The futures that are submitted, and the exception that ends this early: an error of a Shell, or
  -- the name of a Shell that is not there.
  submit : List ResourceConfig → Stored → (List (Exec Calls ResourceHandler) × Option Exc) × Stored
  unfolding shell_handlers find_shell
  submit [] s = (([], none), s)
  submit (conf ∷ confs) s =
      let (r, s') =
        (shell_handlers >>= λ hs s'.
        (found_shell conf.shell_name (find_shell conf.shell_name hs), s'))
          s in
      let ((ms, stop), s'') = submit confs s' in
      elim r [
        | err e ↦ (([], some e), s')
        | ok shell ↦ ((Resource.create api conf shell.model ∷ ms, stop), s'')
      ]

  -- If the submission ends early, the pool still runs what was submitted, and the list of handlers
  -- stays empty.
  unfoldable pub resource_handlers : Exec Stored (List ResourceHandler)
  unfolding submit settle run_all
  resource_handlers s = elim s.self.resources [
    | some hs ↦ (ok hs, s)
    | none ↦
        let ((ms, stop), s') =
          submit s.self.conf.resources_conf (record s { self = keep_resources [] s.self }) in
        elim stop [
          | none ↦ settle keep_resources ms s'
          | some e ↦ (err e, record s' { calls = (run_all ms s'.calls).1 })
        ]
  ]
