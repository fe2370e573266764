-- ===== src/Tests/Threads.antt =====
-- Two threads over one resource: the first asks for an Autoload if needed, the second runs one.
use cloudshell_shell_automat.Base.{
  ℕ, zero, suc, ◌<◌, ◌≤◌, ◌≡◌, refl, true, false, Option, none, some, List, [], ◌∷◌, is_none, ◌=?◌,
}
use cloudshell_shell_automat.ResourceHandler.Threads.{
  Shared, Pc, move, System, update, Step, Reach, is_entry, fresh,
}
use cloudshell_shell_automat.ResourceHandler.Threads.Invariant.{is_locked}
use cloudshell_shell_automat.ResourceHandler.Threads.Progress.{
  is_ended, is_absent, moves_left, mutual_exclusion, returned_finished, no_deadlock,
  Step-moves_left,
}

-- A path of threads, as a list of moves.
abbrev two : ℕ → Pc
two zero = Pc.enters
two (suc zero) = Pc.starts
two _ = Pc.absent

two_entry : (i : ℕ) → is_entry (two i) ≡ true
unfolding is_entry
two_entry zero = refl
two_entry (suc zero) = refl
two_entry (suc (suc n)) = refl

record Run : Type 0 where
  last : System
  reach : Reach two last

turn_by :
    (r : Run) (i : ℕ) (o : Option (Shared × Pc)) → move i true r.last.mem (r.last.pc i) ≡ o → Run
turn_by r i none e = r
turn_by r i (some (m, p)) e = record {
  last = record { mem = m; pc = update r.last.pc i p };
  reach = Reach.later r.reach (Step.pick i true e);
}

-- The threads move in this order.
run : List ℕ → Run
unfolding move turn_by
run [] = record { last = record { mem = fresh; pc = two }; reach = Reach.start }
run (i ∷ is) = let r = run is in turn_by r i (move i true r.last.mem (r.last.pc i)) refl

-- The latest move stands first. The second thread holds the lock, and the first one waits.
abbrev waiting : Run
waiting = run (1 ∷ 0 ∷ 0 ∷ 1 ∷ [])

-- The second thread is done.
abbrev done : Run
done = run (1 ∷ 1 ∷ 1 ∷ 1 ∷ 1 ∷ 1 ∷ 1 ∷ [])

-- Both asked before either began: both run an Autoload.
abbrev both : Run
both = run (0 ∷ 1 ∷ 0 ∷ 0 ∷ [])

both_autoload : (both.last.pc 0 ≡ Pc.queues) × (both.last.pc 1 ≡ Pc.queues)
unfolding run turn_by move
both_autoload = (refl, refl)

mutual_exclusion_example : ◌≡◌ {A = ℕ} 1 1
unfolding run turn_by move is_locked
mutual_exclusion_example = mutual_exclusion two_entry waiting.reach 1 1 refl refl

returned_example : (done.last.mem.finished ≡ true) × (is_none done.last.mem.success ≡ false)
unfolding run turn_by move is_ended
returned_example = returned_finished two_entry done.reach 1 refl

no_deadlock_example :
    (j : ℕ) × (q : Shared × Pc) × (move j true waiting.last.mem (waiting.last.pc j) ≡ some q)
unfolding run turn_by move is_ended is_absent
no_deadlock_example = no_deadlock two_entry waiting.reach 0 refl

moves_left_example :
    (i : ℕ) × (moves_left (update two 1 Pc.queues i) < moves_left (two i))
    × (moves_left (two i) ≤ 9)
    × ((j : ℕ) → (i =? j) ≡ false → update two 1 Pc.queues j ≡ two j)
unfolding move
moves_left_example =
    Step-moves_left {s = record { mem = fresh; pc = two }}
      {t = record { mem = record fresh { started = true }; pc = update two 1 Pc.queues }}
      (Step.pick 1 true refl)
