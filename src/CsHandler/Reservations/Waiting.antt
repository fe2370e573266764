-- ===== src/CsHandler/Reservations/Waiting.antt =====
-- How the two waiting loops of `CloudShellHandler` end, for every server.
use cloudshell_shell_automat.Base.{
  String, ℕ, zero, suc, ◌+◌, ◌-◌, ◌<◌, ◌<>◌, ◌≡◌, refl, ap, ◌∙◌, true, false, List, ◌∷◌, ◌==◌,
  arith,
}
use cloudshell_shell_automat.Errors.{Exc, creation_reservation, reservation_errors, base_automation}
use cloudshell_shell_automat.Exec.{Result, ok, err}
use cloudshell_shell_automat.Api.{Api, Call, Calls, ReservationStatus}
use cloudshell_shell_automat.CsHandler.Reservations.{
  progress, failed, pending, get_reservation_status, start_rounds, wait_reservation_is_started,
  end_rounds, end_reservation,
}

-- The calls after k rounds that found the reservation pending: a poll and a pause in each.
abbrev pub polled : ℕ → String → Calls → Calls
polled zero rid calls = calls
polled (suc k) rid calls = polled k rid (Call.sleep 30 ∷ Call.get_reservation_status rid ∷ calls)

abbrev IsPending : Result ReservationStatus → Type 0
IsPending (ok s) = progress s ≡ pending
IsPending (err e) = ⊥

abbrev IsIncomplete : Result ReservationStatus → Type 0
IsIncomplete (ok s) = (s.status == "Completed") ≡ false
IsIncomplete (err e) = ⊥

module _ (api : Api) (rid : String) where
  -- The reply to a poll.
  abbrev pub reply : Calls → Result ReservationStatus
  reply calls = api.status calls (Call.get_reservation_status rid)

  -- The first k polls find the reservation neither started nor failed.
  abbrev pub Pending : ℕ → Calls → Type 0
  Pending zero calls = Unit
  Pending (suc k) calls =
      IsPending (reply calls) × Pending k (Call.sleep 30 ∷ Call.get_reservation_status rid ∷ calls)

  -- The first k polls find the reservation not completed.
  abbrev pub Incomplete : ℕ → Calls → Type 0
  Incomplete zero calls = Unit
  Incomplete (suc k) calls =
      IsIncomplete (reply calls)
      × Incomplete k (Call.sleep 30 ∷ Call.get_reservation_status rid ∷ calls)

  start_rounds-Pending :
      (k n m : ℕ) (calls : Calls)
      → n ≡ k + m
      → Pending k calls
      → start_rounds api n rid calls ≡ start_rounds api m rid (polled k rid calls)
  unfolding start_rounds get_reservation_status
  start_rounds-Pending zero n m calls e h =
      ap (λ (t : ℕ). start_rounds api t rid calls) (omega arith)
  start_rounds-Pending (suc k) zero m calls e h = absurd (omega arith)
  start_rounds-Pending (suc k) (suc n) m calls e h =
      ground (
        arith,
        start_rounds-Pending k n m (Call.sleep 30 ∷ Call.get_reservation_status rid ∷ calls),
      )

  end_rounds-Incomplete :
      (k n m : ℕ) (calls : Calls)
      → n ≡ k + m
      → Incomplete k calls
      → end_rounds api n rid calls ≡ end_rounds api m rid (polled k rid calls)
  unfolding end_rounds get_reservation_status
  end_rounds-Incomplete zero n m calls e h =
      ap (λ (t : ℕ). end_rounds api t rid calls) (omega arith)
  end_rounds-Incomplete (suc k) zero m calls e h = absurd (omega arith)
  end_rounds-Incomplete (suc k) (suc n) m calls e h =
      ground (
        arith,
        end_rounds-Incomplete k n m (Call.sleep 30 ∷ Call.get_reservation_status rid ∷ calls),
      )

  -- What the reply to a decisive poll leads to: the server's own error is passed on, a started
  -- reservation ends the wait, and of a failed one the errors are fetched and raised.
  abbrev feed_errors : Result (List (String × String)) → Exc
  feed_errors (ok es) = reservation_errors es
  feed_errors (err e) = e

  abbrev pub settled : Result ReservationStatus → Calls → Result (Unit {0}) × Calls
  settled (err e) calls = (err e, calls)
  settled (ok s) calls = elim (progress s) [
    | failed ↦ (
      err (feed_errors (api.errors calls (Call.get_reservation_errors rid))),
      Call.get_reservation_errors rid ∷ calls,
    )
    | _ ↦ (ok tt, calls)
  ]

  start_rounds-settled :
      (n : ℕ) (calls : Calls)
      → ¬ IsPending (reply calls)
      → start_rounds api (suc n) rid calls
        ≡ settled (reply calls) (Call.get_reservation_status rid ∷ calls)
  unfolding start_rounds get_reservation_status
  start_rounds-settled n calls h = ground arith

  -- If the first k polls, fewer than 60, find the reservation pending and the next does not, the wait
  -- ends with that poll: it raises the error of the poll, or returns if the reservation started, or
  -- fetches the errors and raises them. The calls are the polls, a pause of 30 s after each but the
  -- last, and the fetch.
  pub wait_reservation_is_started-settled :
      (k : ℕ) (calls : Calls)
      → k < 60
      → Pending k calls
      → ¬ IsPending (reply (polled k rid calls))
      → wait_reservation_is_started api rid calls
        ≡ settled
            (reply (polled k rid calls))
            (Call.get_reservation_status rid ∷ polled k rid calls)
  unfolding wait_reservation_is_started
  wait_reservation_is_started-settled k calls lt h decisive =
      start_rounds-Pending k 60 (suc (59 - k)) calls (omega arith) h
      ∙ start_rounds-settled (59 - k) (polled k rid calls) decisive

  -- If all 60 polls find the reservation pending, the wait raises a `CreationReservationError` after
  -- exactly 60 polls with a pause of 30 s behind each, and asks for nothing else.
  pub wait_reservation_is_started-timeout :
      (calls : Calls)
      → Pending 60 calls
      → wait_reservation_is_started api rid calls ≡ (
        err (creation_reservation ("The reservation " <> (rid <> " doesn't started"))),
        polled 60 rid calls,
      )
  unfolding wait_reservation_is_started start_rounds
  wait_reservation_is_started-timeout calls h = start_rounds-Pending 60 60 0 calls refl h

  end_rounds-completed :
      (n : ℕ) (s : ReservationStatus) (calls : Calls)
      → reply calls ≡ ok s
      → (s.status == "Completed") ≡ true
      → end_rounds api (suc n) rid calls ≡ (ok tt, Call.get_reservation_status rid ∷ calls)
  unfolding end_rounds get_reservation_status
  end_rounds-completed n s calls found done = ground arith

  end_rounds-timeout :
      (calls : Calls)
      → Incomplete 30 calls
      → end_rounds api 30 rid calls
        ≡ (err (base_automation "Can't end reservation"), polled 30 rid calls)
  unfolding end_rounds
  end_rounds-timeout calls h = end_rounds-Incomplete 30 30 0 calls refl h

  -- If the server accepts the request to end a reservation, and the first k polls, fewer than 30,
  -- find it not completed and the next finds it completed, `end_reservation` with `wait` returns with
  -- that poll.
  pub end_reservation-completed :
      (k : ℕ) (s : ReservationStatus) (calls : Calls)
      → k < 30
      → api.accept calls (Call.end_reservation rid) ≡ ok tt
      → Incomplete k (Call.end_reservation rid ∷ calls)
      → reply (polled k rid (Call.end_reservation rid ∷ calls)) ≡ ok s
      → (s.status == "Completed") ≡ true
      → end_reservation api rid true calls
        ≡ (ok tt, Call.get_reservation_status rid ∷ polled k rid (Call.end_reservation rid ∷ calls))
  unfolding end_reservation
  end_reservation-completed k s calls lt accepted h found done = rw accepted (
      end_rounds-Incomplete k 30 (suc (29 - k)) (Call.end_reservation rid ∷ calls) (omega arith) h
      ∙ end_rounds-completed (29 - k) s _ found done)

  -- If the server accepts the request and all 30 polls find the reservation not completed,
  -- `end_reservation` with `wait` raises after exactly 30 polls with a pause of 30 s behind each.
  pub end_reservation-timeout :
      (calls : Calls)
      → api.accept calls (Call.end_reservation rid) ≡ ok tt
      → Incomplete 30 (Call.end_reservation rid ∷ calls)
      → end_reservation api rid true calls ≡ (
        err (base_automation "Can't end reservation"),
        polled 30 rid (Call.end_reservation rid ∷ calls),
      )
  unfolding end_reservation
  end_reservation-timeout calls accepted h =
      rw accepted (end_rounds-timeout (Call.end_reservation rid ∷ calls) h)
