-- ===== src/VcenterHandler/Closing.antt =====
-- Each connection of shell_tests/handlers/vcenter_handler.py is closed.
use cloudshell_shell_automat.Base.{String, ℕ, ◌≡◌, inl, inr, Option-cases, none, some, ◌∷◌, arith}
use cloudshell_shell_automat.Exec.{Result-cases, ok}
use cloudshell_shell_automat.VcenterHandler.{
  Vcenter, VcenterCall, State, get_si, get_vm_by_uuid, finish,
}

module _ (vcenter : Vcenter) where
  -- A search behind a session asks by that session only; the first one, if it connects, keeps the
  -- session for the next.
  pub get_vm_by_uuid_again :
      (a b : String) (s : State) (n : ℕ)
      → (get_si vcenter s).0 ≡ ok n
      → let s' = (get_vm_by_uuid vcenter a s).1 in
        (s'.self.si ≡ some n)
        × ((get_vm_by_uuid vcenter b s').1.calls
            ≡ VcenterCall.find_by_uuid n b
              ∷ VcenterCall.find_by_uuid n a
              ∷ (get_si vcenter s).1.calls)
  unfolding get_vm_by_uuid get_si
  get_vm_by_uuid_again a b s n h = elim (Option-cases s.self.si) [
    | inl new ↦ ground (arith, new, h)
    | inr (m, old) ↦ ground (arith, old, h)
  ]

  -- If a handler finishes, its session is gone and the last call closed it; it connects for that if
  -- there was none.
  pub finish-closes :
      (s : State)
      → (finish vcenter s).0 ≡ ok tt
      → (n : ℕ) × ((get_si vcenter s).0 ≡ ok n)
        × ((finish vcenter s).1.self.si ≡ none)
        × ((finish vcenter s).1.calls ≡ VcenterCall.disconnect n ∷ (get_si vcenter s).1.calls)
  unfolding finish
  finish-closes s h = elim (Result-cases (get_si vcenter s).0) [
    | inl (n, e) ↦ (n, e, ground (arith, e, h), ground (arith, e, h))
    | inr (x, e) ↦ absurd (ground (arith, e, h))
  ]
