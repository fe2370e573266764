-- ===== src/SandboxHandler/Creation.antt =====
-- `SandboxHandler.create` leaves no reservation behind when it raises.
use cloudshell_shell_automat.Base.{String, ℕ, ◌≡◌, ◌⊎◌, inl, inr, ◌∷◌, arith}
use cloudshell_shell_automat.Errors.{Exc}
use cloudshell_shell_automat.Exec.{Result-cases, ok, err}
use cloudshell_shell_automat.Api.{Api, Call, Calls}
use cloudshell_shell_automat.CsHandler
use cloudshell_shell_automat.Configs.{SandboxConfig}
use cloudshell_shell_automat.SandboxHandler.{SandboxHandler, reserve, create}

module _ (api : Api) (conf : SandboxConfig) (duration : ℕ) (calls : Calls) where
  -- If `create` raises, whatever the exception, then the server made no reservation, or the last call
  -- asks to end the one that it made.
  pub create-ends_reservation :
      (e : Exc)
      → (create api conf duration calls).0 ≡ err e
      → ((reserve api conf duration calls).0 ≡ err e)
        ⊎ ((rid : String) × ((reserve api conf duration calls).0 ≡ ok rid)
            × ((earlier : Calls) × ((create api conf duration calls).1
                  ≡ Call.end_reservation rid ∷ earlier)))
  unfolding create CsHandler.end_reservation
  create-ends_reservation e h = elim (Result-cases (reserve api conf duration calls).0) [
    | inl (rid, made) ↦ inr (rid, made, ended rid made)
    | inr (e', refused) ↦ inl (ground arith)
  ]
    where
      ended :
          (rid : String)
          → (reserve api conf duration calls).0 ≡ ok rid
          → (earlier : Calls) × ((create api conf duration calls).1
              ≡ Call.end_reservation rid ∷ earlier)
      ended rid made = (
        (CsHandler.wait_reservation_is_started api rid (reserve api conf duration calls).1).1,
        ground arith,
      )

  -- If `create` returns a sandbox handler, it holds the given configuration and the reservation that
  -- the server made, the wait for this reservation succeeded, and nothing was asked for after it.
  pub create-returns :
      (s : SandboxHandler)
      → (create api conf duration calls).0 ≡ ok s
      → (s.conf ≡ conf)
        × ((reserve api conf duration calls).0 ≡ ok s.reservation_id)
        × (CsHandler.wait_reservation_is_started api s.reservation_id
              (reserve api conf duration calls).1
            ≡ (ok tt, (create api conf duration calls).1))
  unfolding create
  create-returns s h = ground arith
