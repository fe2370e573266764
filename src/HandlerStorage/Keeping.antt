-- ===== src/HandlerStorage/Keeping.antt =====
-- What the properties of `HandlerStorage` leave alone.
use cloudshell_shell_automat.Base.{
  String, ◌≡◌, refl, ◌∙◌, inl, inr, Bool, Option, Option-cases, some, List, [], ◌∷◌, map, arith,
}
use cloudshell_shell_automat.Errors.{Exc}
use cloudshell_shell_automat.Exec.{Exec, Result, Result-cases, ok, ◌>>=◌}
use cloudshell_shell_automat.Api.{Api, Calls}
use cloudshell_shell_automat.Configs.{ResourceConfig}
use cloudshell_shell_automat.ShellHandler
use cloudshell_shell_automat.ShellHandler.{ShellHandler, CloudShellSmb, ShellDefinition}
use cloudshell_shell_automat.ResourceHandler.State.{ResourceHandler}
use cloudshell_shell_automat.SandboxHandler
use cloudshell_shell_automat.SandboxHandler.{SandboxHandler}
use cloudshell_shell_automat.HandlerStorage.{
  HandlerStorage, Stored, collect, created, last_error, settle, keep_shells, keep_resources,
  keep_sandboxes, sandbox_handlers, shell_handlers, submit, found_shell, find_shell,
  resource_handlers,
}

-- A part of the storage is left alone.
abbrev pub KeepsPart : {A B : Type 0} → (HandlerStorage → B) → Exec Stored A → Type 0
KeepsPart part m = (s : Stored) → part (m s).1.self ≡ part s.self

-- The list of sandboxes is left alone.
abbrev pub Keeps : {A : Type 0} → Exec Stored A → Type 0
Keeps = KeepsPart (λ h. h.sandboxes)

pub >>=-KeepsPart :
    {A B C : Type 0} (part : HandlerStorage → C) (m : Exec Stored A) (f : A → Exec Stored B)
    → KeepsPart part m
    → ((a : A) → KeepsPart part (f a))
    → KeepsPart part (m >>= f)
>>=-KeepsPart part m f km kf s = elim (Result-cases (m s).0) [
  | inl (a, e) ↦ ground (arith, e, kf a (m s).1, km s)
  | inr (x, e) ↦ ground (arith, e, km s)
]

pub >>=-Keeps :
    {A B : Type 0} (m : Exec Stored A) (f : A → Exec Stored B)
    → Keeps m
    → ((a : A) → Keeps (f a))
    → Keeps (m >>= f)
>>=-Keeps = >>=-KeepsPart (λ h. h.sandboxes)

module _ (api : Api) (retry : (Exc → Bool) → Exec Calls (Unit {0}) → Exec Calls (Unit {0}))
    (smb : Option CloudShellSmb) (definition : String → Result ShellDefinition) where
  settle-KeepsPart :
      {B X : Type 0} (part : HandlerStorage → B) (keep : List X → HandlerStorage → HandlerStorage)
      → ((xs : List X) (h : HandlerStorage) → part (keep xs h) ≡ part h)
      → (makers : List (Exec Calls X))
      → KeepsPart part (settle api retry smb definition keep makers)
  unfolding settle
  settle-KeepsPart part keep law makers s =
      let (rs, calls) = collect api makers s.calls in
      elim (Option-cases (last_error rs)) [
        | inl fine ↦ ground (arith, fine, law (created rs) s.self)
        | inr (e, bad) ↦ ground (arith, bad, law (created rs) s.self)
      ]

  -- A part that neither the Shells nor the resources are in.
  module _ {B : Type 0} (part : HandlerStorage → B)
      (no_shells : (xs : List ShellHandler) (h : HandlerStorage) → part (keep_shells xs h) ≡ part h)
      (no_resources : (xs : List ResourceHandler) (h : HandlerStorage)
        → part (keep_resources xs h) ≡ part h) where
    shell_handlers-KeepsPart : KeepsPart part (shell_handlers api retry smb definition)
    unfolding shell_handlers
    shell_handlers-KeepsPart s =
        let makers = map (ShellHandler.create api retry smb definition) s.self.conf.shells_conf in
        let kept = settle-KeepsPart part keep_shells no_shells makers s in
        elim (Option-cases s.self.shells) [
          | inr (hs, there) ↦ ground (arith, there)
          | inl new ↦ ground (arith, new, kept)
        ]

    submit-part :
        (confs : List ResourceConfig) (s : Stored)
        → part (submit api retry smb definition confs s).1.self ≡ part s.self
    unfolding submit
    submit-part [] s = refl
    submit-part (conf ∷ confs) s =
        let find : List ShellHandler → Exec Stored ShellHandler = λ hs t. (
          found_shell api retry smb definition conf.shell_name (find_shell conf.shell_name hs),
          t,
        ) in
        let look = shell_handlers api retry smb definition >>= find in
        let kept =
          >>=-KeepsPart part (shell_handlers api retry smb definition) find shell_handlers-KeepsPart
            (λ hs t. refl) s in
        let later = submit-part confs (look s).1 in
        elim (Result-cases (look s).0) [
          | inl (shell, e) ↦ ground (arith, e, later, kept)
          | inr (x, e) ↦ ground (arith, e, kept)
        ]

    pub resource_handlers-KeepsPart : KeepsPart part (resource_handlers api retry smb definition)
    unfolding resource_handlers
    resource_handlers-KeepsPart s = elim (Option-cases s.self.resources) [
      | inr (hs, there) ↦ rw there refl
      | inl new ↦
          let s0 : Stored = record s { self = keep_resources [] s.self } in
          let r = submit api retry smb definition s.self.conf.resources_conf s0 in
          let kept = submit-part s.self.conf.resources_conf s0 ∙ no_resources [] s.self in
          elim (Option-cases r.0.1) [
            | inr (e, stop) ↦ ground (arith, new, stop, kept)
            | inl go_on ↦ ground (
              arith,
              new,
              go_on,
              settle-KeepsPart part keep_resources no_resources r.0.0 r.1,
              kept,
            )
          ]
    ]

  pub resource_handlers-Keeps : Keeps (resource_handlers api retry smb definition)
  resource_handlers-Keeps =
      resource_handlers-KeepsPart (λ h. h.sandboxes) (λ xs h. refl) (λ xs h. refl)

  pub sandbox_handlers-resources :
      KeepsPart (λ h. h.resources) (sandbox_handlers api retry smb definition)
  unfolding sandbox_handlers
  sandbox_handlers-resources s =
      let makers = map (λ conf. SandboxHandler.create api conf 120) s.self.conf.sandboxes_conf in
      let kept = settle-KeepsPart (λ h. h.resources) keep_sandboxes (λ xs h. refl) makers s in
      elim (Option-cases s.self.sandboxes) [
        | inr (hs, there) ↦ ground (arith, there)
        | inl new ↦ ground (arith, new, kept)
      ]

  -- What is returned is what is held.
  pub sandbox_handlers-holds :
      (s : Stored) (hs : List SandboxHandler)
      → (sandbox_handlers api retry smb definition s).0 ≡ ok hs
      → (sandbox_handlers api retry smb definition s).1.self.sandboxes ≡ some hs
  unfolding sandbox_handlers settle
  sandbox_handlers-holds s hs h = elim (Option-cases s.self.sandboxes) [
    | inr (xs, there) ↦ ground (arith, there, h)
    | inl new ↦
        let (rs, calls) =
          collect api (map (λ conf. SandboxHandler.create api conf 120) s.self.conf.sandboxes_conf)
            s.calls in
        elim (Option-cases (last_error rs)) [
          | inl fine ↦ ground (arith, new, fine, h)
          | inr (e, bad) ↦ absurd (ground (arith, new, bad, h))
        ]
  ]
