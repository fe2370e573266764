-- ===== src/Tests.antt =====
-- Runs on concrete inputs. The servers that they talk to.
mod Waiting
mod Renaming
mod Sandboxes
mod Resources
mod Settings
mod Handlers
mod Running
mod Threads
mod Shares
mod Archives
mod Files
mod Models
mod Templates
mod Runs
mod Feeds
mod Clearing
use cloudshell_shell_automat.Base.{
  String, ℕ, Bool, true, false, List, [], ◌∷◌, length, ltb, elem, if◌then◌else◌,
}
use cloudshell_shell_automat.Errors.{Exc, api_error, other}
use cloudshell_shell_automat.Exec.{Result, ok, err}
use cloudshell_shell_automat.Api.{Api, Call, Calls, ReservationStatus, resource_info, no_child}

abbrev pub ready : ReservationStatus
ready = record { provisioning_status = "Ready"; status = "Started" }

abbrev pub preparing : ReservationStatus
preparing = record { provisioning_status = "Setup"; status = "Started" }

abbrev pub completed : ReservationStatus
completed = record { provisioning_status = "Ready"; status = "Completed" }

-- A server that accepts everything.
abbrev pub server : Api
server = record {
  username = "admin";
  accept = λ calls c. ok tt;
  text = λ calls c. ok "r1";
  names = λ calls c. ok ("vm" ∷ []);
  status = λ calls c. ok ready;
  resource = λ calls c. err (other "no resource");
  errors = λ calls c. ok [];
  order = λ calls n. 0;
}

-- One whose reservations are never ready.
abbrev pub slow_server : Api
slow_server = record server { status = λ calls c. ok preparing }

-- One whose reservations are ready, and completed, after the third call.
abbrev pub late_server : Api
late_server = record server {
  status = λ calls c. if ltb (length calls) 3 then ok preparing else ok completed;
}

-- One that knows some names, and refuses to give one of them to a second resource.
abbrev pub name_is_taken : Exc
name_is_taken = api_error "114" "Resource already exists" "114"

abbrev pub known : List String
known = "fw" ∷ "fw-1" ∷ []

abbrev pub accept_new : Calls → Call → Result (Unit {0})
accept_new calls (Call.rename_resource current name) =
    if elem name known then err name_is_taken else ok tt
accept_new calls (Call.create_resource family model name address parent) =
    if elem name known then err name_is_taken else ok tt
accept_new calls c = ok tt

abbrev pub strict_server : Api
strict_server = record server { accept = accept_new }
