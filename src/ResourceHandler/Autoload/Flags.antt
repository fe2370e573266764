-- ===== src/ResourceHandler/Autoload/Flags.antt =====
-- What `autoload` leaves in the flags, and what `autoload_if_needed` does after it.
use cloudshell_shell_automat.Base.{
  String, ◌≡◌, refl, Bool, true, false, some, List, arith, if◌then◌else◌, is_empty, not, inl, inr,
}
use cloudshell_shell_automat.Errors.{is_exception}
use cloudshell_shell_automat.Exec.{Exec, Result, Result-cases, ok, err, ◌>>◌, when}
use cloudshell_shell_automat.Base.Dict.{Dict}
use cloudshell_shell_automat.Api.{Api}
use cloudshell_shell_automat.Configs.{AdditionalPort}
use cloudshell_shell_automat.ResourceHandler.State.{ResourceHandler, State, get_details}
use cloudshell_shell_automat.ResourceHandler.Attributes.{set_children_attributes}
use cloudshell_shell_automat.ResourceHandler.Autoload.{
  autoload_once, add_additional_ports, autoload_body, autoload, Turn, returned, waits,
  autoload_if_needed,
}

-- The handler of a state differs from another's only in the flag of the dependencies.
pub record SameButBroken (a b : ResourceHandler) : Type 0 where
  pub conf : b.conf ≡ a.conf
  pub name : b.name ≡ a.name
  pub started : b.autoload_started ≡ a.autoload_started
  pub finished : b.autoload_finished ≡ a.autoload_finished
  pub success : b.is_autoload_success ≡ a.is_autoload_success

-- A statement that only talks to the server.
abbrev KeepsSelf : {A : Type 0} → Exec State A → Type 0
KeepsSelf m = (s : State) → (m s).1.self ≡ s.self

Same-then :
    (m k : Exec State (Unit {0})) (s : State)
    → SameButBroken s.self (m s).1.self
    → KeepsSelf k
    → SameButBroken s.self ((m >> k) s).1.self
Same-then m k s h kept = elim (Result-cases (m s).0) [
  | inl (a, e) ↦ ground (arith, kept (m s).1)
  | inr (x, e) ↦ ground arith
]

when-KeepsSelf : (b : Bool) (m : Exec State (Unit {0})) → KeepsSelf m → KeepsSelf (when b m)
when-KeepsSelf true m h s = h s
when-KeepsSelf false m h s = refl

module _ (api : Api) where
  autoload_once-Same : (s : State) → SameButBroken s.self (autoload_once api s).1.self
  unfolding autoload_once
  autoload_once-Same s = ground arith

  add_additional_ports-KeepsSelf :
      (ports : List AdditionalPort) → KeepsSelf (add_additional_ports api ports)
  unfolding add_additional_ports get_details
  add_additional_ports-KeepsSelf ports s = ground arith

  set_children_attributes-KeepsSelf :
      (attributes : Dict (Dict String)) → KeepsSelf (set_children_attributes api attributes)
  unfolding set_children_attributes
  set_children_attributes-KeepsSelf attributes s = refl

  -- The `try` block of `autoload` leaves the flags alone.
  autoload_body-Same : (s : State) → SameButBroken s.self (autoload_body api s).1.self
  unfolding autoload_body
  autoload_body-Same s =
      let ports : Exec State (Unit {0}) = add_additional_ports api s.self.conf.additional_ports in
      let kids : Exec State (Unit {0}) =
        set_children_attributes api s.self.conf.children_attributes in
      let add : Exec State (Unit {0}) = when (not (is_empty s.self.conf.additional_ports)) ports in
      let set : Exec State (Unit {0}) =
        when (not (is_empty s.self.conf.children_attributes)) kids in
      Same-then (autoload_once api >> add) set s
        (Same-then (autoload_once api) add s (autoload_once-Same s) (
          when-KeepsSelf (not (is_empty s.self.conf.additional_ports)) ports
            (add_additional_ports-KeepsSelf s.self.conf.additional_ports)))
        (when-KeepsSelf (not (is_empty s.self.conf.children_attributes)) kids
          (set_children_attributes-KeepsSelf s.self.conf.children_attributes))

  -- The flags after `autoload`, by how it ended: an exception that `except Exception` does not take,
  -- such as `KeyboardInterrupt`, leaves two flags as they were.
  abbrev pub Ended : ResourceHandler → Result (Unit {0}) → ResourceHandler → Type 0
  Ended before (ok u) after =
      (after.autoload_started ≡ false)
      × (after.autoload_finished ≡ true)
      × (after.is_autoload_success ≡ some true)
  Ended before (err e) after =
      (after.autoload_started ≡ true)
      × (after.autoload_finished ≡ (if is_exception e then true else before.autoload_finished))
      × (after.is_autoload_success
          ≡ (if is_exception e then some false else before.is_autoload_success))

  -- However the server replies, `autoload` ends with `autoload_finished` set and its success noted,
  -- and with `_autoload_started` clear exactly if it succeeded; only after an exception that is no
  -- `Exception` the two former flags are as before.
  pub autoload-Ended : (s : State) → Ended s.self (autoload api s).0 (autoload api s).1.self
  unfolding autoload
  autoload-Ended s =
      ground (
        arith,
        autoload_body-Same (record s { self = record (s.self) { autoload_started = true } }),
      )

  -- `autoload` leaves the configuration of the resource alone.
  pub autoload-conf : (s : State) → (autoload api s).1.self.conf ≡ s.self.conf
  unfolding autoload
  autoload-conf s = ground (
    arith,
    (autoload_body-Same (record s { self = record (s.self) { autoload_started = true } })).conf,
  )

  abbrev turn_after : Result (Unit {0}) → Turn
  turn_after (ok u) = returned
  turn_after (err e) = if is_exception e then returned else waits

  -- After an `autoload` of a resource that had not finished one, `autoload_if_needed` asks the
  -- server for nothing and changes nothing; it returns, but if the `autoload` ended by an exception
  -- that is no `Exception`, it waits.
  pub autoload_if_needed_after :
      (s : State)
      → s.self.autoload_finished ≡ false
      → autoload_if_needed api (autoload api s).1
        ≡ (ok (turn_after (autoload api s).0), (autoload api s).1)
  unfolding autoload_if_needed
  autoload_if_needed_after s h = ground (arith, autoload-Ended s)
