-- ===== src/HandlerStorage/Confs.antt =====
-- The handlers that the properties of `HandlerStorage` create are those of the configuration.
use cloudshell_shell_automat.Base.{
  String, ℕ, zero, suc, All, length, ◌≡◌, refl, inl, inr, Bool, Option, Option-cases, none, List,
  [], ◌∷◌, map, arith,
}
use mathlib.Core.Path.{subst}
use mathlib.Core.List.{Perm}
use mathlib.Core.List.Perm
use cloudshell_shell_automat.Base.Shuffle.{insert_at, shuffle, shuffle-All}
use cloudshell_shell_automat.Errors.{Exc}
use cloudshell_shell_automat.Exec.{Exec, Result, Result-cases, ok, err, ◌>>=◌}
use cloudshell_shell_automat.Api.{Api, Calls}
use cloudshell_shell_automat.Configs.{ResourceConfig, SandboxConfig}
use cloudshell_shell_automat.ShellHandler.{ShellHandler, CloudShellSmb, ShellDefinition}
use cloudshell_shell_automat.SandboxHandler
use cloudshell_shell_automat.SandboxHandler.{SandboxHandler}
use cloudshell_shell_automat.ResourceHandler.State as Resource
use cloudshell_shell_automat.ResourceHandler.State.{ResourceHandler}
use cloudshell_shell_automat.HandlerStorage.{
  Stored, run_all, created, last_error, settle, collect, keep_resources, sandbox_handlers,
  shell_handlers, submit, found_shell, find_shell, resource_handlers,
}

module _ {X : Type 0} where
  abbrev pub IsOk : Result X → Type 0
  IsOk (ok x) = Unit
  IsOk (err e) = ⊥

  last_error-All : (rs : List (Result X)) → last_error rs ≡ none → All IsOk rs
  unfolding last_error
  last_error-All [] h = tt
  last_error-All (ok x ∷ rs) h = (tt, last_error-All rs h)
  last_error-All (err e ∷ rs) h = elim (Option-cases (last_error rs)) [
    | inl good ↦ absurd (ground (arith, good, h))
    | inr (y, bad) ↦ absurd (ground (arith, bad, h))
  ]

  created-insert_at :
      (n : ℕ) (r : Result X) (rs : List (Result X))
      → Perm (created (insert_at n r rs)) (created (r ∷ rs))
  unfolding insert_at created
  created-insert_at zero r rs = Perm.refl (created (r ∷ rs))
  created-insert_at (suc n) r [] = Perm.refl (created (r ∷ []))
  created-insert_at (suc n) (ok x) (ok y ∷ rs) =
      Perm.trans (Perm.cons y (created-insert_at n (ok x) rs)) (Perm.swap x y (created rs))
  created-insert_at (suc n) (ok x) (err e ∷ rs) = created-insert_at n (ok x) rs
  created-insert_at (suc n) (err e) (ok y ∷ rs) = Perm.cons y (created-insert_at n (err e) rs)
  created-insert_at (suc n) (err e) (err f ∷ rs) = created-insert_at n (err e) rs

  created-cons :
      (r : Result X) (rs qs : List (Result X))
      → Perm (created rs) (created qs)
      → Perm (created (r ∷ rs)) (created (r ∷ qs))
  unfolding created
  created-cons (ok x) rs qs same = Perm.cons x same
  created-cons (err e) rs qs same = same

  created-shuffle :
      (position : ℕ → ℕ) (rs : List (Result X)) → Perm (created (shuffle position rs)) (created rs)
  unfolding shuffle
  created-shuffle position [] = Perm.refl (created {X = X} [])
  created-shuffle position (r ∷ rs) =
      let later = shuffle position rs in
      Perm.trans (created-insert_at (position (length rs)) r later)
        (created-cons r later rs (created-shuffle position rs))

module _ {C X : Type 0} (conf_of : X → C) where
  -- What the creation returns has this configuration.
  abbrev pub Makes : C → Exec Calls X → Type 0
  Makes c m = (calls : Calls) (x : X) → (m calls).0 ≡ ok x → conf_of x ≡ c

  abbrev pub MakesAll : List C → List (Exec Calls X) → Type 0
  MakesAll [] [] = Unit
  MakesAll [] (m ∷ ms) = ⊥
  MakesAll (c ∷ cs) [] = ⊥
  MakesAll (c ∷ cs) (m ∷ ms) = Makes c m × MakesAll cs ms

  -- If all creations succeed, what is created has these configurations, in their order.
  run_all-confs :
      (cs : List C) (ms : List (Exec Calls X)) (calls : Calls)
      → MakesAll cs ms
      → All IsOk (run_all ms calls).0
      → map conf_of (created (run_all ms calls).0) ≡ cs
  unfolding run_all created
  run_all-confs [] [] calls made fine = refl
  run_all-confs [] (m ∷ ms) calls made fine = absurd made
  run_all-confs (c ∷ cs) [] calls made fine = absurd made
  run_all-confs (c ∷ cs) (m ∷ ms) calls made fine = elim (Result-cases (m calls).0) [
    | inl (x, e) ↦
        ground (arith, e, made.0 calls x e, run_all-confs cs ms (m calls).1 made.1 fine.1)
    | inr (x, e) ↦ absurd (subst IsOk e fine.0)
  ]

  -- In the order of a set, they are these configurations in some order.
  collect-confs :
      (api : Api) (cs : List C) (ms : List (Exec Calls X)) (calls : Calls)
      → MakesAll cs ms
      → last_error (collect api ms calls).0 ≡ none
      → Perm (map conf_of (created (collect api ms calls).0)) cs
  unfolding collect
  collect-confs api cs ms calls made fine =
      let rs = (run_all ms calls).0 in
      let position = api.order (run_all ms calls).1 in
      let all_ok = shuffle-All IsOk position rs (last_error-All (shuffle position rs) fine) in
      subst (Perm (map conf_of (created (shuffle position rs))))
        (run_all-confs cs ms calls made all_ok) (Perm.map conf_of (created-shuffle position rs))

module _ (api : Api) where
  create-conf :
      (conf : ResourceConfig) (model : String)
      → Makes (λ (h : ResourceHandler). h.conf) conf (Resource.create api conf model)
  unfolding Resource.create Resource.create_resource Resource.init
  create-conf conf model calls h e = ground (arith, e)

  reserved-conf :
      (conf : SandboxConfig)
      → Makes (λ (h : SandboxHandler). h.conf) conf (SandboxHandler.create api conf 120)
  unfolding SandboxHandler.create
  reserved-conf conf calls h e = ground (arith, e)

  all-reserved :
      (confs : List SandboxConfig)
      → MakesAll
          (λ (h : SandboxHandler). h.conf)
          confs
          (map (λ conf. SandboxHandler.create api conf 120) confs)
  all-reserved [] = tt
  all-reserved (conf ∷ confs) = (reserved-conf conf, all-reserved confs)

module _ (api : Api) (retry : (Exc → Bool) → Exec Calls (Unit {0}) → Exec Calls (Unit {0}))
    (smb : Option CloudShellSmb) (definition : String → Result ShellDefinition) where
  submit-MakesAll :
      (confs : List ResourceConfig) (s : Stored)
      → (submit api retry smb definition confs s).0.1 ≡ none
      → MakesAll
          (λ (h : ResourceHandler). h.conf)
          confs
          (submit api retry smb definition confs s).0.0
  unfolding submit
  submit-MakesAll [] s fine = tt
  submit-MakesAll (conf ∷ confs) s fine =
      let find : List ShellHandler → Exec Stored ShellHandler = λ hs t.
        (found_shell api retry smb definition conf.shell_name (find_shell conf.shell_name hs), t) in
      let look = shell_handlers api retry smb definition >>= find in
      let later = submit-MakesAll confs (look s).1 in
      elim (Result-cases (look s).0) [
        | inl (shell, e) ↦
            rw (e, MakesAll) (create-conf api conf shell.model, later (ground (arith, e, fine)))
        | inr (x, e) ↦ absurd (ground (arith, e, fine))
      ]

  -- If the resources were not created yet and `resource_handlers` returns, it returns one for each
  -- entry of the configuration, in some order.
  pub resource_handlers-confs :
      (s : Stored) (hs : List ResourceHandler)
      → s.self.resources ≡ none
      → (resource_handlers api retry smb definition s).0 ≡ ok hs
      → Perm (map (λ (h : ResourceHandler). h.conf) hs) s.self.conf.resources_conf
  unfolding resource_handlers settle
  resource_handlers-confs s hs new h =
      let confs = s.self.conf.resources_conf in
      let s0 : Stored = record s { self = keep_resources [] s.self } in
      let r = submit api retry smb definition confs s0 in
      let rs = (collect api r.0.0 r.1.calls).0 in
      elim (Option-cases r.0.1) [
        | inr (e, stop) ↦ absurd (ground (arith, new, stop, h))
        | inl go_on ↦ (elim (Option-cases (last_error rs)) [
          | inr (e, bad) ↦ absurd (ground (arith, new, go_on, bad, h))
          | inl fine ↦
              let same : created rs ≡ hs = ground (arith, new, go_on, fine, h) in
              subst (λ xs. Perm (map (λ (h : ResourceHandler). h.conf) xs) confs) same
                (collect-confs (λ (h : ResourceHandler). h.conf) api confs r.0.0 r.1.calls
                  (submit-MakesAll confs s0 go_on) fine)
        ])
      ]

  pub sandbox_handlers-confs :
      (s : Stored) (hs : List SandboxHandler)
      → s.self.sandboxes ≡ none
      → (sandbox_handlers api retry smb definition s).0 ≡ ok hs
      → Perm (map (λ (h : SandboxHandler). h.conf) hs) s.self.conf.sandboxes_conf
  unfolding sandbox_handlers settle
  sandbox_handlers-confs s hs new h =
      let confs = s.self.conf.sandboxes_conf in
      let makers = map (λ conf. SandboxHandler.create api conf 120) confs in
      elim (Option-cases (last_error (collect api makers s.calls).0)) [
        | inr (e, bad) ↦ absurd (ground (arith, new, bad, h))
        | inl fine ↦
            let same : created (collect api makers s.calls).0 ≡ hs = ground (arith, new, fine, h) in
            subst (λ xs. Perm (map (λ (h : SandboxHandler). h.conf) xs) confs) same
              (collect-confs (λ (h : SandboxHandler). h.conf) api confs makers s.calls
                (all-reserved api confs) fine)
      ]
