-- ===== src/Scheduler/Turns.antt =====
-- kernel/src/exec/process.rs, `yield_current`: a runnable process gets its turn.
use imagineos.Base.{
  ℕ, zero, suc, ◌+◌, ◌-◌, ◌%◌, ◌≤◌, ◌<◌, ◌≡◌, ap, ◌∙◌, inl, inr, true, false, Option, none, some,
  ◌==◌, ==→eq, ltb, ltb→lt, Bool-cases, arith,
}
use imagineos.Scheduler.{Scheduler, process_at, is_runnable, schedule, max_processes}
use imagineos.Scheduler.Choice.{IsFirst, slot_at, schedule_lem}

abbrev pub yield_current : Option Scheduler → Option Scheduler
yield_current none = none
yield_current (some s) = schedule s false

-- `n` yields in a row.
abbrev pub yields : ℕ → Option Scheduler → Option Scheduler
yields zero o = o
yields (suc n) o = yields n (yield_current o)

-- After `k` yields the process in the slot runs, and no process has changed.
abbrev pub Runs : Scheduler → ℕ → ℕ → Type 0
Runs s slot k = yields k (some s) ≡ some (record { processes = s.processes; current = slot })

abbrev pub Served : Scheduler → ℕ → ℕ → Type 0
Served s slot n = (k : ℕ) × (1 ≤ k) × (k ≤ n) × Runs s slot k

not_past :
    (s : Scheduler) (n slot c : ℕ) (w : IsFirst s.processes s.current 1 c)
    → 1 ≤ n
    → slot_at s.current n ≡ slot
    → is_runnable (process_at s.processes slot) ≡ true
    → w.distance ≤ n
not_past s n slot c w b e r = elim (Bool-cases (ltb n w.distance)) [
  | inl q ↦
      let no = w.passed n b (ltb→lt n w.distance q) in
      let yes = ap (λ i. is_runnable (process_at s.processes i)) e ∙ r in cc
  | inr q ↦ ground arith
]

turn :
    (fuel n slot : ℕ) (s : Scheduler)
    → n ≤ fuel
    → 1 ≤ n
    → n ≤ max_processes
    → slot_at s.current n ≡ slot
    → is_runnable (process_at s.processes slot) ≡ true
    → Served s slot n
turn zero n slot s h b m e r = absurd (omega arith)
turn (suc fuel) n slot s h b m e r = elim (schedule_lem s false) [
  | inr (x, never) ↦ let no = never slot (omega (arith, e)) in cc
  | inl (c, x, w) ↦
      let at_most = not_past s n slot c w b e r in
      let least = w.from_first in
      let there = w.there in
      elim (Bool-cases (w.distance == n)) [
        | inl q ↦
            let d = ==→eq w.distance n q in
            (
              1,
              omega arith,
              omega arith,
              x
                  ∙ ap (λ i. some (record { processes = s.processes; current = i }))
                      (there ∙ ap (slot_at s.current) d ∙ e),
            )
        | inr q ↦
            later c x
              (turn fuel (n - w.distance) slot (record { processes = s.processes; current = c })
                (omega arith) (ground arith) (omega arith) (omega (arith, there, e)) r)
              (omega arith)
      ]
]
  where
    later :
        {d : ℕ} (c : ℕ)
        → schedule s false ≡ some (record { processes = s.processes; current = c })
        → Served (record { processes = s.processes; current = c }) slot d
        → suc d ≤ n
        → Served s slot n
    later c x (k, lo, hi, y) l = (suc k, omega arith, omega arith, ap (yields k) x ∙ y)

-- A runnable process gets its turn: whatever the current process is, after at most sixteen yields the
-- process in any slot that stays runnable is the current one, and the yields change no process.
pub yields-Served :
    (s : Scheduler) (slot : ℕ)
    → slot < max_processes
    → is_runnable (process_at s.processes slot) ≡ true
    → Served s slot max_processes
yields-Served s slot h r =
    let (k, lo, hi, y) =
      turn max_processes distance slot s (omega arith) (omega arith) (omega arith) (omega arith)
        r in
    (k, lo, omega arith, y)
  where
    distance : ℕ
    distance = (slot + max_processes - s.current % max_processes - 1) % max_processes + 1
