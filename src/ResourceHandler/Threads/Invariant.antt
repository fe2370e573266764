-- ===== src/ResourceHandler/Threads/Invariant.antt =====
-- What holds whatever the order of the threads.
use cloudshell_shell_automat.Base.{
  ℕ, ◌≡◌, refl, Bool, Bool-cases, true, false, not, ◌||◌, none, some, is_none, inl, inr, ◌⊎◌, arith,
  ◌=?◌,
}
use cloudshell_shell_automat.ResourceHandler.Threads.{
  Shared, Pc, move, System, update, Step, Reach, is_entry, fresh,
}

abbrev holds : ℕ → Shared → Bool
holds i m = elim m.holder [ none ↦ false | some j ↦ i =? j ]

abbrev noted : Shared → Bool
noted m = not (is_none m.success)

-- The thread is between taking the lock and giving it back.
unfoldable pub is_locked : Pc → Bool
is_locked Pc.loads = true
is_locked (Pc.concludes r) = true
is_locked (Pc.announces r) = true
is_locked (Pc.leaves r) = true
is_locked _ = false

-- The thread has begun an Autoload and not yet told the others that it is finished.
unfoldable pub is_busy : Pc → Bool
is_busy Pc.queues = true
is_busy Pc.loads = true
is_busy (Pc.concludes r) = true
is_busy (Pc.announces r) = true
is_busy _ = false

-- What is known of the events behind a place.
unfoldable pub knows : Shared → Pc → Bool
knows m Pc.waits = m.started || m.finished
knows m (Pc.announces r) = noted m
knows m (Pc.leaves r) = m.finished
knows m Pc.clears = m.finished
knows m Pc.returned = m.finished
knows m Pc.raised = m.finished
knows m _ = true

abbrev pub Fits : Shared → ℕ → Pc → Type 0
Fits m i p = (holds i m ≡ is_locked p) × (knows m p ≡ true)

pub record Inv (m : Shared) (pc : ℕ → Pc) : Type 0 where
  pub fits : (i : ℕ) → Fits m i (pc i)
  pub told : m.finished ≡ true → noted m ≡ true
  pub pending : m.started ≡ true → m.finished ≡ false → (j : ℕ) × (is_busy (pc j) ≡ true)

module _ (i : ℕ) (outcome : Bool) (m n : Shared) where
  move-finished :
      (p q : Pc) → move i outcome m p ≡ some (n, q) → m.finished ≡ true → n.finished ≡ true
  unfolding move
  move-finished p q =
      elim p as (λ p. move i outcome m p ≡ some (n, q) → m.finished ≡ true → n.finished ≡ true) [
        | Pc.absent ↦ λ e h. ground arith
        | _ ↦ λ e h. ground arith
      ]

  move-noted : (p q : Pc) → move i outcome m p ≡ some (n, q) → noted m ≡ true → noted n ≡ true
  unfolding move
  move-noted p q =
      elim p as (λ p. move i outcome m p ≡ some (n, q) → noted m ≡ true → noted n ≡ true) [
        | Pc.absent ↦ λ e h. ground arith
        | _ ↦ λ e h. ground arith
      ]

  move-either :
      (p q : Pc)
      → move i outcome m p ≡ some (n, q)
      → knows m p ≡ true
      → m.started || m.finished ≡ true
      → n.started || n.finished ≡ true
  unfolding move knows
  move-either p q =
      elim p
        as (λ p.
          move i outcome m p ≡ some (n, q)
          → knows m p ≡ true
          → m.started || m.finished ≡ true
          → n.started || n.finished ≡ true) [
            | Pc.absent ↦ λ e k h. ground arith
            | _ ↦ λ e k h. ground arith
          ]

  move-holds :
      (j : ℕ) (p q : Pc)
      → move i outcome m p ≡ some (n, q)
      → holds i m ≡ is_locked p
      → (i =? j) ≡ false
      → holds j n ≡ holds j m
  unfolding move is_locked
  move-holds j p q =
      elim p
        as (λ p.
          move i outcome m p ≡ some (n, q)
          → holds i m ≡ is_locked p
          → (i =? j) ≡ false
          → holds j n ≡ holds j m) [ Pc.absent ↦ λ e k h. ground arith | _ ↦ λ e k h. ground arith ]

  -- A thread that moved fits its new place.
  move-Fits :
      (p q : Pc)
      → move i outcome m p ≡ some (n, q)
      → Fits m i p
      → (m.finished ≡ true → noted m ≡ true)
      → Fits n i q
  unfolding move is_locked knows
  move-Fits p q =
      elim p
        as (λ p.
          move i outcome m p ≡ some (n, q)
          → Fits m i p
          → (m.finished ≡ true → noted m ≡ true)
          → Fits n i q) [ Pc.absent ↦ λ e f t. ground arith | _ ↦ λ e f t. ground arith ]

  move-told :
      (p q : Pc)
      → move i outcome m p ≡ some (n, q)
      → knows m p ≡ true
      → (m.finished ≡ true → noted m ≡ true)
      → n.finished ≡ true
      → noted n ≡ true
  unfolding move knows
  move-told p q =
      elim p
        as (λ p.
          move i outcome m p ≡ some (n, q)
          → knows m p ≡ true
          → (m.finished ≡ true → noted m ≡ true)
          → n.finished ≡ true
          → noted n ≡ true) [ Pc.absent ↦ λ e k t h. ground arith | _ ↦ λ e k t h. ground arith ]

  -- A busy thread stays so until it has told the others.
  move-is_busy :
      (p q : Pc)
      → move i outcome m p ≡ some (n, q)
      → n.finished ≡ false
      → is_busy p ≡ true
      → is_busy q ≡ true
  unfolding move is_busy
  move-is_busy p q =
      elim p
        as (λ p.
          move i outcome m p ≡ some (n, q)
          → n.finished ≡ false
          → is_busy p ≡ true
          → is_busy q ≡ true) [ Pc.absent ↦ λ e h b. ground arith | _ ↦ λ e h b. ground arith ]

  -- The event is set by a thread that becomes busy.
  move-started :
      (p q : Pc)
      → move i outcome m p ≡ some (n, q)
      → n.started ≡ true
      → (m.started ≡ true) ⊎ (is_busy q ≡ true)
  unfolding move is_busy
  move-started p q =
      elim p
        as (λ p.
          move i outcome m p ≡ some (n, q)
          → n.started ≡ true
          → (m.started ≡ true) ⊎ (is_busy q ≡ true)) [
            | Pc.absent ↦ λ e h. ground arith
            | _ ↦ λ e h. ground arith
          ]

  -- What is known at a place stays known when another thread moves.
  knows-move :
      (p q r : Pc)
      → move i outcome m p ≡ some (n, q)
      → knows m p ≡ true
      → knows m r ≡ true
      → knows n r ≡ true
  unfolding knows
  knows-move p q r e k =
      let f = move-finished p q e in
      let t = move-noted p q e in
      let s = move-either p q e k in
      elim r as (λ r. knows m r ≡ true → knows n r ≡ true) [
        | Pc.absent ↦ λ h. h
        | Pc.waits ↦ s
        | _ ↦ λ h. grind (arith, f, t)
      ]

eqb_eq : (i j : ℕ) → (i =? j) ≡ true → i ≡ j
eqb_eq i j h = ground arith

pub eqb_refl : (i : ℕ) → (i =? i) ≡ true
eqb_refl i = ground arith

module _ (i : ℕ) (outcome : Bool) (s : System) (n : Shared) (q : Pc)
    (e : move i outcome s.mem (s.pc i) ≡ some (n, q)) (inv : Inv s.mem s.pc) where
  every_next : (j : ℕ) → Fits n j (update s.pc i q j)
  every_next j = elim (Bool-cases (i =? j)) [
    | inl same ↦
        let here = move-Fits i outcome s.mem n (s.pc i) q e (inv.fits i) inv.told in
        rw (same, ← eqb_eq i j same) here
    | inr differ ↦
        let held = move-holds i outcome s.mem n j (s.pc i) q e (inv.fits i).0 differ in
        rw (differ, held)
          (
            (inv.fits j).0,
            knows-move i outcome s.mem n (s.pc i) q (s.pc j) e (inv.fits i).1 (inv.fits j).1,
          )
  ]

  -- Who was busy still is, at its old place or the next.
  busy_next :
      (j : ℕ)
      → n.finished ≡ false
      → is_busy (s.pc j) ≡ true
      → (k : ℕ) × (is_busy (update s.pc i q k) ≡ true)
  busy_next j off busy = elim (Bool-cases (i =? j)) [
    | inl same ↦
        let here : is_busy (s.pc i) ≡ true = rw (eqb_eq i j same) busy in
        (i, rw (eqb_refl i) (move-is_busy i outcome s.mem n (s.pc i) q e off here))
    | inr differ ↦ (j, rw differ busy)
  ]

  pending_next :
      n.started ≡ true → n.finished ≡ false → (k : ℕ) × (is_busy (update s.pc i q k) ≡ true)
  pending_next on off = elim (move-started i outcome s.mem n (s.pc i) q e on) [
    | inl before ↦ elim (Bool-cases s.mem.finished) [
      | inl over ↦ absurd (grind (arith, move-finished i outcome s.mem n (s.pc i) q e over, off))
      | inr open_still ↦ let (j, busy) = inv.pending before open_still in busy_next j off busy
    ]
    | inr busy ↦ (i, rw (eqb_refl i) busy)
  ]

Step-Inv : {s t : System} → Step s t → Inv s.mem s.pc → Inv t.mem t.pc
Step-Inv {s} (Step.pick i outcome {m = n} {p = q} e) inv = record {
  fits = every_next i outcome s n q e inv;
  told = move-told i outcome s.mem n (s.pc i) q e (inv.fits i).1 inv.told;
  pending = pending_next i outcome s n q e inv;
}

Inv-fresh : (pc : ℕ → Pc) → ((i : ℕ) → is_entry (pc i) ≡ true) → Inv fresh pc
unfolding is_entry is_locked knows
Inv-fresh pc entry = record {
  fits = λ i.
      elim (pc i) as (λ p. is_entry p ≡ true → Fits fresh i p) [
        | Pc.absent ↦ λ h. (refl, refl)
        | _ ↦ λ h. ground arith
      ]
        (entry i);
  told = λ h. absurd (cc h);
  pending = λ h. absurd (cc h);
}

pub Reach-Inv :
    {pc : ℕ → Pc} {s : System} → ((i : ℕ) → is_entry (pc i) ≡ true) → Reach pc s → Inv s.mem s.pc
Reach-Inv {pc} entry Reach.start = Inv-fresh pc entry
Reach-Inv entry (Reach.later r st) = Step-Inv st (Reach-Inv entry r)
