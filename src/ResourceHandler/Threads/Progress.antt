-- ===== src/ResourceHandler/Threads/Progress.antt =====
-- No thread waits for ever, and who returns finds a finished Autoload.
use cloudshell_shell_automat.Base.{
  ℕ, ◌<◌, ◌≤◌, ◌≡◌, refl, Bool, true, false, ◌||◌, Option-cases, none, some, is_none, inl, inr,
  arith, ◌=?◌,
}
use cloudshell_shell_automat.ResourceHandler.Threads.{
  Shared, Pc, move, System, Step, Reach, is_entry,
}
use cloudshell_shell_automat.ResourceHandler.Threads.Invariant.{
  is_locked, is_busy, knows, Inv, Reach-Inv, eqb_refl,
}

-- The thread's method is over.
unfoldable pub is_ended : Pc → Bool
is_ended Pc.returned = true
is_ended Pc.raised = true
is_ended _ = false

unfoldable pub is_absent : Pc → Bool
is_absent Pc.absent = true
is_absent _ = false

ended_finished : (m : Shared) (p : Pc) → is_ended p ≡ true → knows m p ≡ true → m.finished ≡ true
unfolding is_ended knows
ended_finished m p = elim p as (λ p. is_ended p ≡ true → knows m p ≡ true → m.finished ≡ true) [
  | Pc.absent ↦ λ h k. absurd (cc h)
  | _ ↦ λ h k. ground arith
]

abbrev Moves : ℕ → Shared → Pc → Type 0
Moves i m p = (q : Shared × Pc) × (move i true m p ≡ some q)

-- Who holds the lock is not blocked.
locked-Moves : (i : ℕ) (m : Shared) (p : Pc) → is_locked p ≡ true → Moves i m p
unfolding is_locked move
locked-Moves i m p = elim p as (λ p. is_locked p ≡ true → Moves i m p) [
  | Pc.loads ↦ λ h. (_, refl)
  | Pc.concludes r ↦ λ h. (_, refl)
  | Pc.announces r ↦ λ h. (_, refl)
  | Pc.leaves r ↦ λ h. (_, refl)
  | _ ↦ λ h. absurd (cc h)
]

-- While nobody holds it, a busy thread is not blocked.
busy-Moves : (i : ℕ) (m : Shared) (p : Pc) → m.holder ≡ none → is_busy p ≡ true → Moves i m p
unfolding is_busy move
busy-Moves i m p free = elim p as (λ p. is_busy p ≡ true → Moves i m p) [
  | Pc.queues ↦ λ h. rw free (_, refl)
  | Pc.loads ↦ λ h. (_, refl)
  | Pc.concludes r ↦ λ h. (_, refl)
  | Pc.announces r ↦ λ h. (_, refl)
  | _ ↦ λ h. absurd (cc h)
]

-- While nobody holds it, a thread is blocked only by an Autoload that another one began.
blocked_lem :
    (i : ℕ) (m : Shared) (p : Pc)
    → m.holder ≡ none
    → is_ended p || is_absent p ≡ false
    → move i true m p ≡ none
    → knows m p ≡ true
    → (m.started ≡ true) × (m.finished ≡ false)
unfolding is_ended is_absent knows move
blocked_lem i m p free =
    elim p
      as (λ p.
        is_ended p || is_absent p ≡ false
        → move i true m p ≡ none
        → knows m p ≡ true
        → (m.started ≡ true) × (m.finished ≡ false)) [
          | Pc.absent ↦ λ h e k. absurd (cc h)
          | _ ↦ λ h e k. ground arith
        ]

-- In whatever order threads that begin with `autoload` or `autoload_if_needed` move, two of them are
-- never both between taking the lock and giving it back. The body of an Autoload ends, or raises an
-- `Exception`.
pub mutual_exclusion :
    {pc : ℕ → Pc} {s : System}
    → ((i : ℕ) → is_entry (pc i) ≡ true)
    → Reach pc s
    → (i j : ℕ) → is_locked (s.pc i) ≡ true
    → is_locked (s.pc j) ≡ true
    → i ≡ j
mutual_exclusion {s} entry r i j in_i in_j =
    let inv = Reach-Inv entry r in ground (arith, inv.fits i, inv.fits j)

-- In whatever order threads that begin with `autoload` or `autoload_if_needed` move, if the body of an
-- Autoload ends, or raises an `Exception`: when a thread has returned from its method, or has raised,
-- `autoload_finished` is set and an outcome of an Autoload is noted.
pub returned_finished :
    {pc : ℕ → Pc} {s : System}
    → ((i : ℕ) → is_entry (pc i) ≡ true)
    → Reach pc s
    → (i : ℕ) → is_ended (s.pc i) ≡ true
    → (s.mem.finished ≡ true) × (is_none s.mem.success ≡ false)
returned_finished {s} entry r i h =
    let inv = Reach-Inv entry r in
    (
      ended_finished s.mem (s.pc i) h (inv.fits i).1,
      ground (arith, inv.told (ended_finished s.mem (s.pc i) h (inv.fits i).1)),
    )

-- The holder of the lock is between taking it and giving it back.
holder_locked :
    (s : System) (k : ℕ) → Inv s.mem s.pc → s.mem.holder ≡ some k → is_locked (s.pc k) ≡ true
holder_locked s k inv h = ground (arith, inv.fits k)

-- In whatever order threads that begin with `autoload` or `autoload_if_needed` moved, if the body of an
-- Autoload ends, or raises an `Exception`: as long as a thread has not come to its end, some thread
-- can move. They do not come to a deadlock, and no wait for `autoload_finished` is for an event that
-- nobody will set.
pub no_deadlock :
    {pc : ℕ → Pc} {s : System}
    → ((i : ℕ) → is_entry (pc i) ≡ true)
    → Reach pc s
    → (i : ℕ) → is_ended (s.pc i) || is_absent (s.pc i) ≡ false
    → (j : ℕ) × (q : Shared × Pc) × (move j true s.mem (s.pc j) ≡ some q)
no_deadlock {s} entry r i h =
    let inv = Reach-Inv entry r in
    elim (Option-cases s.mem.holder) [
      | inr (k, held) ↦
          let (q, e) = locked-Moves k s.mem (s.pc k) (holder_locked s k inv held) in (k, q, e)
      | inl free ↦ elim (Option-cases (move i true s.mem (s.pc i))) [
        | inr (q, e) ↦ (i, q, e)
        | inl stuck ↦
            let (on, off) = blocked_lem i s.mem (s.pc i) free h stuck (inv.fits i).1 in
            let (j, busy) = inv.pending on off in
            let (q, e) = busy-Moves j s.mem (s.pc j) free busy in (j, q, e)
      ]
    ]

-- The moves that a thread has before it at most.
unfoldable pub moves_left : Pc → ℕ
moves_left Pc.enters = 9
moves_left Pc.asks = 8
moves_left Pc.waits = 1
moves_left Pc.starts = 7
moves_left Pc.queues = 6
moves_left Pc.loads = 5
moves_left (Pc.concludes r) = 4
moves_left (Pc.announces r) = 3
moves_left (Pc.leaves r) = 2
moves_left Pc.clears = 1
moves_left _ = 0

at_most : (p : Pc) → moves_left p ≤ 9
unfolding moves_left
at_most p = elim p as (λ p. moves_left p ≤ 9) [ Pc.absent ↦ omega arith | _ ↦ omega arith ]

move-moves_left :
    (i : ℕ) (outcome : Bool) (m n : Shared) (p q : Pc)
    → move i outcome m p ≡ some (n, q)
    → moves_left q < moves_left p
unfolding move moves_left
move-moves_left i outcome m n p q =
    elim p as (λ p. move i outcome m p ≡ some (n, q) → moves_left q < moves_left p) [
      | Pc.absent ↦ λ e. ground arith
      | _ ↦ λ e. ground arith
    ]

-- Each step brings one thread nearer to its end and leaves the others where they are: a thread makes
-- at most nine moves.
pub Step-moves_left :
    {s t : System}
    → Step s t
    → (i : ℕ) × (moves_left (t.pc i) < moves_left (s.pc i))
      × (moves_left (s.pc i) ≤ 9)
      × ((j : ℕ) → (i =? j) ≡ false → t.pc j ≡ s.pc j)
Step-moves_left {s} (Step.pick i outcome {m = n} {p = q} e) = (
  i,
  rw (eqb_refl i) (move-moves_left i outcome s.mem n (s.pc i) q e),
  at_most (s.pc i),
  λ j h. rw h refl,
)
