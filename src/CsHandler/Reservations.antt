-- ===== src/CsHandler/Reservations.antt =====
-- `CloudShellHandler` of shell_tests/handlers/cs_handler.py: the life of a reservation.
pub mod Waiting
pub mod Bounds
use cloudshell_shell_automat.Base.{
  String, ℕ, zero, suc, ◌<>◌, Bool, true, false, ◌&&◌, ◌||◌, [], ◌∷◌, ◌==◌, is_blank, if◌then◌else◌,
}
use cloudshell_shell_automat.Errors.{creation_reservation, reservation_errors, base_automation}
use cloudshell_shell_automat.Exec.{Exec, raise, ◌>>=◌, ◌>>◌, skip, when}
use cloudshell_shell_automat.Api.{Api, Call, Calls, ReservationStatus, perform, pause}

-- What a poll of `wait_reservation_is_started` makes of a status.
pub data Progress : Type 0 where
  started failed pending : Progress

unfoldable pub progress : ReservationStatus → Progress
progress s =
    if s.provisioning_status == "Ready"
      || s.provisioning_status == "Not Run" && s.status == "Started"
    then started
    else if s.provisioning_status == "Error"
    then failed
    else pending

module _ (api : Api) where
  unfoldable pub create_reservation : String → ℕ → Exec Calls String
  create_reservation name duration =
      perform api.text (Call.create_immediate_reservation name api.username duration)

  unfoldable pub create_topology_reservation : String → String → ℕ → String → Exec Calls String
  create_topology_reservation name topology duration version =
      let inputs = if is_blank version then [] else ("Version", version) ∷ [] in
      perform api.text
        (Call.create_immediate_topology_reservation name api.username duration topology inputs)

  unfoldable pub get_reservation_status : String → Exec Calls ReservationStatus
  get_reservation_status rid = perform api.status (Call.get_reservation_status rid)

  -- The rounds left of `for _ in range(60)`. The fetch of the errors is one call here; Activities has
  -- the requests behind it.
  start_rounds : ℕ → String → Exec Calls (Unit {0})
  start_rounds zero rid =
      raise (creation_reservation ("The reservation " <> (rid <> " doesn't started")))
  start_rounds (suc n) rid = do
    s ← get_reservation_status rid
    elim (progress s) [
      | started ↦ skip
      | failed ↦ (do
        es ← perform api.errors (Call.get_reservation_errors rid)
        raise (reservation_errors es))
      | pending ↦ pause 30 >> start_rounds n rid
    ]

  unfoldable pub wait_reservation_is_started : String → Exec Calls (Unit {0})
  unfolding start_rounds
  wait_reservation_is_started rid = start_rounds 60 rid

  -- The rounds left of `for _ in range(30)`.
  unfoldable pub end_rounds : ℕ → String → Exec Calls (Unit {0})
  end_rounds zero rid = raise (base_automation "Can't end reservation")
  end_rounds (suc n) rid = do
    s ← get_reservation_status rid
    elim (s.status == "Completed") [ true ↦ skip | false ↦ pause 30 >> end_rounds n rid ]

  unfoldable pub end_reservation : String → Bool → Exec Calls (Unit {0})
  unfolding end_rounds
  end_reservation rid wait =
      perform api.accept (Call.end_reservation rid) >> when wait (end_rounds 30 rid)

  unfoldable pub delete_reservation : String → Exec Calls (Unit {0})
  delete_reservation rid = perform api.accept (Call.delete_reservation rid)
