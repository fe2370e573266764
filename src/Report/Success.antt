-- ===== src/Report/Success.antt =====
-- What a successful report means.
use cloudshell_shell_automat.Base.{
  ◌≡◌, ◌↔◌, refl, Bool, true, false, ◌&&◌, List, [], ◌∷◌, all, All, is_empty, arith,
}
use cloudshell_shell_automat.Report.{
  ResourceReport, ServiceReport, SandboxReport, Reporting, sandbox_is_success, is_success,
}

abbrev pub Succeeds : SandboxReport → Type 0
Succeeds r =
    ((is_empty r.resources_reports && is_empty r.services_reports) ≡ false)
    × All (λ (c : ResourceReport). c.is_success ≡ true) r.resources_reports
    × All (λ (c : ServiceReport). c.is_success ≡ true) r.services_reports
    × (r.sandbox_is_success ≡ true)

all-All {ℓ} :
    {A : Type ℓ} (p : A → Bool) (xs : List A) → (all p xs ≡ true) ↔ All (λ a. p a ≡ true) xs
all-All p [] = (λ h. tt, λ h. refl)
all-All p (x ∷ xs) = (
  λ h. (ground arith, (all-All p xs).0 (ground arith)),
  λ h. ground (arith, (all-All p xs).1 h.1),
)

sandbox_is_success_iff : (r : SandboxReport) → (sandbox_is_success r ≡ true) ↔ Succeeds r
unfolding sandbox_is_success
sandbox_is_success_iff r =
    let resources = all-All (λ (c : ResourceReport). c.is_success) r.resources_reports in
    let services = all-All (λ (c : ServiceReport). c.is_success) r.services_reports in
    (
      λ h. (ground arith, resources.0 (ground arith), services.0 (ground arith), ground arith),
      λ h. ground (arith, resources.1 h.1, services.1 h.2),
    )

All-map {ℓ κ μ} :
    {A : Type ℓ} {P : A → Type κ} {Q : A → Type μ} (f : (a : A) → P a → Q a) (xs : List A)
    → All P xs
    → All Q xs
All-map f [] h = tt
All-map f (x ∷ xs) h = (f x h.0, All-map f xs h.1)

-- A run is reported as successful exactly if each of its sandboxes has a report of a resource or a
-- service, all reports of its resources and services are successful, and its own tests succeeded.
-- The reports of deployment resources have no part in it.
pub is_success_iff : (r : Reporting) → (is_success r ≡ true) ↔ All Succeeds r.sandboxes_reports
unfolding is_success
is_success_iff r =
    let each = all-All sandbox_is_success r.sandboxes_reports in
    (
      λ h. All-map (λ s. (sandbox_is_success_iff s).0) r.sandboxes_reports (each.0 h),
      λ h. each.1 (All-map (λ s. (sandbox_is_success_iff s).1) r.sandboxes_reports h),
    )
