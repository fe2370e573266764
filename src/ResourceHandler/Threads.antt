-- ===== src/ResourceHandler/Threads.antt =====
-- `ResourceHandler.autoload` and `autoload_if_needed` in several threads, interleaved in any order.
-- A move of a thread is one operation on the lock, an event or the field that the threads share;
-- between these the calls of the server stand as one move, whose outcome is arbitrary: it ends, or
-- raises an `Exception`. An exception that is no `Exception` is not among the outcomes here.
pub mod Invariant
pub mod Progress
use cloudshell_shell_automat.Base.{
  ℕ, Bool, true, false, Option, none, some, ◌≡◌, ◌=?◌, if◌then◌else◌,
}

-- What the threads share. Of the lock, who holds it.
pub record Shared : Type 0 where
  pub started : Bool
  pub finished : Bool
  pub holder : Option ℕ
  pub success : Option Bool

-- The place in a thread's code, before the operation named.
pub data Pc : Type 0 where
  -- no thread, or one that does not come to these methods
  absent : Pc
  -- `autoload_if_needed`: its first test, its second test, and `autoload_finished.wait()`
  enters asks waits : Pc
  -- `autoload`: `_autoload_started.set()`, the lock, and the body of the `try`
  starts queues loads : Pc
  -- `is_autoload_success = ...`, `autoload_finished.set()` and the release of the lock, behind a
  -- body that ended or raised
  concludes announces leaves : Bool → Pc
  -- `_autoload_started.clear()`
  clears : Pc
  returned raised : Pc

-- The move of a thread, unless it is blocked or at the end. The Boolean is the outcome of the body.
unfoldable pub move : ℕ → Bool → Shared → Pc → Option (Shared × Pc)
move i outcome m Pc.enters = some (m, if m.finished then Pc.returned else Pc.asks)
move i outcome m Pc.asks = some (m, if m.started then Pc.waits else Pc.starts)
move i outcome m Pc.waits = if m.finished then some (m, Pc.returned) else none
move i outcome m Pc.starts = some (record m { started = true }, Pc.queues)
move i outcome m Pc.queues = elim m.holder [
  | none ↦ some (record m { holder = some i }, Pc.loads)
  | some j ↦ none
]
move i outcome m Pc.loads = some (m, Pc.concludes outcome)
move i outcome m (Pc.concludes r) = some (record m { success = some r }, Pc.announces r)
move i outcome m (Pc.announces r) = some (record m { finished = true }, Pc.leaves r)
move i outcome m (Pc.leaves r) =
    some (record m { holder = none }, if r then Pc.clears else Pc.raised)
move i outcome m Pc.clears = some (record m { started = false }, Pc.returned)
move i outcome m Pc.absent = none
move i outcome m Pc.returned = none
move i outcome m Pc.raised = none

pub record System : Type 0 where
  pub mem : Shared
  pub pc : ℕ → Pc

abbrev pub update : (ℕ → Pc) → ℕ → Pc → ℕ → Pc
update pc i p j = if i =? j then p else pc j

pub data Step (s : System) : System → Type 0 where
  pick :
      (i : ℕ) (outcome : Bool) {m : Shared} {p : Pc}
      → move i outcome s.mem (s.pc i) ≡ some (m, p)
      → Step s (record { mem = m; pc = update s.pc i p })

-- A thread starts with either method, if it is there.
unfoldable pub is_entry : Pc → Bool
is_entry Pc.absent = true
is_entry Pc.enters = true
is_entry Pc.starts = true
is_entry _ = false

-- What `__init__` sets.
abbrev pub fresh : Shared
fresh = record { started = false; finished = false; holder = none; success = none }

pub data Reach (pc : ℕ → Pc) : System → Type 0 where
  start : Reach pc (record { mem = fresh; pc = pc })
  later : {s t : System} → Reach pc s → Step s t → Reach pc t
