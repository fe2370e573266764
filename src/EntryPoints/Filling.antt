-- ===== src/EntryPoints/Filling.antt =====
-- What the preparation of an environment makes of a configuration.
use cloudshell_shell_automat.Base.{
  ◌≡◌, refl, ap, sym, ◌∙◌, true, false, some, List, [], ◌∷◌, map, All, arith,
}
use mathlib.Core.Path.{subst}
use mathlib.Core.List.{Perm}
use cloudshell_shell_automat.Exec.{Exec, ok, pure, modify, skip, ◌>>=◌, ◌>>◌, >>=-eq-ok}
use cloudshell_shell_automat.Api.{Api, Calls}
use cloudshell_shell_automat.Configs.{MainConfig}
use cloudshell_shell_automat.SandboxHandler.{SandboxHandler}
use cloudshell_shell_automat.ResourceHandler.State.{ResourceHandler}
use cloudshell_shell_automat.ResourceHandler.Autoload.Flags.{autoload-Ended, autoload-conf}
use cloudshell_shell_automat.HandlerStorage.{
  HandlerStorage, Stored, asking, keep_resources, resource_handlers, sandbox_handlers,
}
use cloudshell_shell_automat.HandlerStorage.Keeping.{
  resource_handlers-KeepsPart, resource_handlers-Keeps, sandbox_handlers-resources,
  sandbox_handlers-holds,
}
use cloudshell_shell_automat.HandlerStorage.Confs.{resource_handlers-confs, sandbox_handlers-confs}
use cloudshell_shell_automat.EntryPoints.{
  World, new_storage, autoload_one, autoload_all, create_packages, fill_cloudshell,
}

-- An Autoload of the resource was finished, with success.
abbrev pub Loaded : ResourceHandler → Type 0
Loaded h =
    (h.autoload_started ≡ false)
    × (h.autoload_finished ≡ true)
    × (h.is_autoload_success ≡ some true)

module _ (api : Api) where
  autoload_one-Loaded :
      (h h' : ResourceHandler) (calls : Calls)
      → (autoload_one api h calls).0 ≡ ok h'
      → (h'.conf ≡ h.conf) × Loaded h'
  unfolding autoload_one
  autoload_one-Loaded h h' calls e = ground (
    arith,
    e,
    autoload-Ended api (record { self = h; calls = calls }),
    autoload-conf api (record { self = h; calls = calls }),
  )

  autoload_all-Loaded :
      (hs hs' : List ResourceHandler) (calls : Calls)
      → (autoload_all api hs calls).0 ≡ ok hs'
      → (map (λ (h : ResourceHandler). h.conf) hs' ≡ map (λ (h : ResourceHandler). h.conf) hs)
        × All Loaded hs'
  unfolding autoload_all
  autoload_all-Loaded [] hs' calls e =
      let same : [] ≡ hs' = ground (arith, e) in
      subst (λ xs. (map (λ (h : ResourceHandler). h.conf) xs ≡ []) × All Loaded xs) same (refl, tt)
  autoload_all-Loaded (h ∷ hs) hs' calls e =
      let rest = autoload_all api hs in
      let (x, first, _, e1) =
        >>=-eq-ok (autoload_one api h) (λ x. rest >>= λ xs. pure (x ∷ xs)) calls e in
      let calls' = (autoload_one api h calls).1 in
      let (xs, others, _, e2) = >>=-eq-ok rest (λ xs. pure (x ∷ xs)) calls' e1 in
      let (same, loaded) = autoload_one-Loaded h x calls (ap (λ r. r.0) first) in
      let (confs, all_loaded) = autoload_all-Loaded hs xs calls' (ap (λ r. r.0) others) in
      let whole : x ∷ xs ≡ hs' = ground (arith, e2) in
      subst
        (λ ys.
          (map (λ (h : ResourceHandler). h.conf) ys
            ≡ map (λ (h : ResourceHandler). h.conf) (h ∷ hs))
          × All Loaded ys)
        whole (ground (arith, same, confs), (loaded, all_loaded))

module _ (w : World) (api : Api) (conf : MainConfig) where
  create_packages-self :
      (hs : List ResourceHandler) (s : Stored) → (create_packages w api conf hs s).1.self ≡ s.self
  unfolding create_packages
  create_packages-self hs s = ground arith

  -- If a CloudShell is filled for a new storage without an exception, then the storage holds one
  -- resource for each resource of the configuration and one sandbox for each sandbox of it, in any
  -- order, and the handler of each resource has the flags of an Autoload that was finished with
  -- success.
  pub fill_cloudshell-Loaded :
      (calls : Calls)
      → (fill_cloudshell w api conf (record { self = new_storage conf; calls = calls })).0 ≡ ok tt
      → let self =
          (fill_cloudshell w api conf (record { self = new_storage conf; calls = calls })).1.self in
        (hs : List ResourceHandler) × (xs : List SandboxHandler) × (self.resources ≡ some hs)
        × (self.sandboxes ≡ some xs)
        × Perm (map (λ (h : ResourceHandler). h.conf) hs) conf.resources_conf
        × Perm (map (λ (x : SandboxHandler). x.conf) xs) conf.sandboxes_conf
        × All Loaded hs
  unfolding fill_cloudshell new_storage
  fill_cloudshell-Loaded calls e =
      let s : Stored = record { self = new_storage conf; calls = calls } in
      let Filled : HandlerStorage → Type 0 = λ self.
        (hs : List ResourceHandler) × (xs : List SandboxHandler) × (self.resources ≡ some hs)
        × (self.sandboxes ≡ some xs)
        × Perm (map (λ (h : ResourceHandler). h.conf) hs) conf.resources_conf
        × Perm (map (λ (x : SandboxHandler). x.conf) xs) conf.sandboxes_conf
        × All Loaded hs in
      let resources = resource_handlers api w.retry_removal w.offline_pypi w.definition in
      let sandboxes = sandbox_handlers api w.retry_removal w.offline_pypi w.definition in
      let keep : List ResourceHandler → Exec Stored (Unit {0}) =
        λ hs. modify (λ s. record s { self = keep_resources hs s.self }) in
      let packed : List ResourceHandler → Exec Stored (Unit {0}) =
        λ hs. create_packages w api conf hs >> (sandboxes >> skip) in
      let (made, there, e0, e1) =
        >>=-eq-ok resources (λ hs. asking (autoload_all api hs) >>= λ hs. keep hs >> packed hs) s
          e in
      let s1 = (resources s).1 in
      let (hs, loaded, e2, e3) =
        >>=-eq-ok (asking (autoload_all api made)) (λ hs. keep hs >> packed hs) s1 e1 in
      let s2 = (asking (autoload_all api made) s1).1 in
      let (same, all_loaded) = autoload_all-Loaded api made hs s1.calls (ap (λ r. r.0) loaded) in
      let s3 = (keep hs s2).1 in
      let (_, _, e4, e5) =
        >>=-eq-ok (create_packages w api conf hs) (λ _. sandboxes >> skip) s3 e3 in
      let s4 = (create_packages w api conf hs s3).1 in
      let (xs, held, e6, _) = >>=-eq-ok sandboxes (λ _. skip) s4 e5 in
      let packages = create_packages-self hs s3 in
      let of_conf =
        resource_handlers-KeepsPart api w.retry_removal w.offline_pypi w.definition (λ h. h.conf)
          (λ xs h. refl) (λ xs h. refl) s in
      let new =
        ap (λ self. self.sandboxes) packages
        ∙ resource_handlers-Keeps api w.retry_removal w.offline_pypi w.definition s in
      let confs =
        subst (λ cs. Perm cs conf.resources_conf) (sym same)
          (resource_handlers-confs api w.retry_removal w.offline_pypi w.definition s made refl
            (ap (λ r. r.0) there)) in
      let reserved =
        subst (Perm (map (λ (x : SandboxHandler). x.conf) xs))
          (ap (λ self. self.conf.sandboxes_conf) packages ∙ ap (λ c. c.sandboxes_conf) of_conf)
          (sandbox_handlers-confs api w.retry_removal w.offline_pypi w.definition s4 xs new
            (ap (λ r. r.0) held)) in
      let last = e0 ∙ e2 ∙ e4 ∙ e6 in
      subst Filled (sym (ap (λ r. r.1.self) last)) (
        hs,
        xs,
        sandbox_handlers-resources api w.retry_removal w.offline_pypi w.definition s4
            ∙ ap (λ self. self.resources) packages,
        sandbox_handlers-holds api w.retry_removal w.offline_pypi w.definition s4 xs
            (ap (λ r. r.0) held),
        confs,
        reserved,
        all_loaded,
      )
