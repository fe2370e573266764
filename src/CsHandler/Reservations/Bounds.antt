-- ===== src/CsHandler/Reservations/Bounds.antt =====
-- How long the waiting loops of `CloudShellHandler` take at most, for every server.
use cloudshell_shell_automat.Base.{
  String, ℕ, zero, suc, ◌+◌, ◌*◌, ◌≤◌, ◌≡◌, true, false, [], ◌∷◌, length, arith,
}
use cloudshell_shell_automat.Api.{Api, Call, Calls}
use cloudshell_shell_automat.CsHandler.Reservations.{
  get_reservation_status, start_rounds, wait_reservation_is_started, end_rounds, end_reservation,
}

-- The seconds slept in a run.
abbrev pub slept : Calls → ℕ
slept [] = 0
slept (Call.sleep n ∷ calls) = n + slept calls
slept (c ∷ calls) = slept calls

-- At most `c` calls and `t` seconds lie between two states.
pub record Within (c t : ℕ) (before after : Calls) : Type 0 where
  pub calls : length after ≤ length before + c
  pub seconds : slept after ≤ slept before + t

-- What was asked for in a run: the status of a reservation, the errors of one, and anything else. The
-- errors are one call here; behind it stand the requests of Activities, one for each activity.
abbrev pub polls : Calls → ℕ
polls [] = 0
polls (Call.get_reservation_status rid ∷ calls) = 1 + polls calls
polls (c ∷ calls) = polls calls

abbrev pub fetches : Calls → ℕ
fetches [] = 0
fetches (Call.get_reservation_errors rid ∷ calls) = 1 + fetches calls
fetches (c ∷ calls) = fetches calls

abbrev pub others : Calls → ℕ
others [] = 0
others (Call.get_reservation_status rid ∷ calls) = others calls
others (Call.get_reservation_errors rid ∷ calls) = others calls
others (Call.sleep n ∷ calls) = others calls
others (c ∷ calls) = 1 + others calls

-- At most `p` polls, one fetch of the errors and `t` seconds lie between two states, and nothing else.
pub record Waits (p t : ℕ) (before after : Calls) : Type 0 where
  pub polled : polls after ≤ polls before + p
  pub fetched : fetches after ≤ fetches before + 1
  pub seconds : slept after ≤ slept before + t
  pub other : others after ≡ others before

module _ (api : Api) (rid : String) where
  start_rounds-Waits :
      (n : ℕ) (calls : Calls) → Waits n (30 * n) calls (start_rounds api n rid calls).1
  unfolding start_rounds get_reservation_status
  start_rounds-Waits zero calls = ground arith
  start_rounds-Waits (suc n) calls =
      ground (arith, start_rounds-Waits n (Call.sleep 30 ∷ Call.get_reservation_status rid ∷ calls))

  end_rounds-Within :
      (n : ℕ) (calls : Calls) → Within (2 * n) (30 * n) calls (end_rounds api n rid calls).1
  unfolding end_rounds get_reservation_status
  end_rounds-Within zero calls = omega arith
  end_rounds-Within (suc n) calls =
      ground (arith, end_rounds-Within n (Call.sleep 30 ∷ Call.get_reservation_status rid ∷ calls))

  -- Whatever the server replies, `wait_reservation_is_started` asks at most 60 times for the status of
  -- the reservation, fetches the errors from the activity feed at most once, sleeps at most half an
  -- hour, and asks for nothing else.
  pub wait_reservation_is_started-Waits :
      (calls : Calls) → Waits 60 1800 calls (wait_reservation_is_started api rid calls).1
  unfolding wait_reservation_is_started
  wait_reservation_is_started-Waits calls = start_rounds-Waits 60 calls

  -- Whatever the server replies, `end_reservation` makes at most 61 calls and sleeps at most a
  -- quarter of an hour, and without `wait` it makes one call and does not sleep.
  pub end_reservation-Within :
      (calls : Calls)
      → Within 61 900 calls (end_reservation api rid true calls).1
        × ((end_reservation api rid false calls).1 ≡ Call.end_reservation rid ∷ calls)
  unfolding end_reservation
  end_reservation-Within calls =
      (ground (arith, end_rounds-Within 30 (Call.end_reservation rid ∷ calls)), ground arith)
