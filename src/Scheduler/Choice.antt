-- ===== src/Scheduler/Choice.antt =====
-- kernel/src/exec/process.rs, `schedule`: the process that is chosen.
use mathlib.Core.Option.{some-injective}
use imagineos.Base.{
  ℕ, zero, suc, ◌+◌, ◌-◌, ◌%◌, ◌==◌, ==→eq, ◌≤◌, ◌<◌, ◌≡◌, sym, ap, ◌∙◌, ◌⊎◌, inl, inr, Bool, true,
  false, none, some, List, Bool-cases, Option-cases, if◌then◌else◌, arith,
}
use imagineos.Scheduler.{
  Process, Scheduler, process_at, is_runnable, pick, go_on, schedule, finish, max_processes,
}

-- The slot at a distance from the current one.
abbrev pub slot_at : ℕ → ℕ → ℕ
slot_at current distance = (current + distance) % max_processes

-- The slot is the first runnable one at the distances from `first` on.
pub record IsFirst (ps : List Process) (current first c : ℕ) : Type 0 where
  pub distance : ℕ
  pub from_first : first ≤ distance
  pub there : c ≡ slot_at current distance
  pub runnable : is_runnable (process_at ps c) ≡ true
  pub passed :
      (m : ℕ) → first ≤ m → m < distance → is_runnable (process_at ps (slot_at current m)) ≡ false

pub pick-some :
    (ps : List Process) (current n first c : ℕ)
    → pick ps current n first ≡ some c
    → (w : IsFirst ps current first c) × (w.distance < first + n)
unfolding pick
pick-some ps current zero first c e = cc
pick-some ps current (suc n) first c e =
    elim (Bool-cases (is_runnable (process_at ps (slot_at current first)))) [
      | inl r ↦
          let x = some-injective _ _ (rw r at e) in
          (
            record {
              distance = first;
              from_first = omega arith;
              there = sym x;
              runnable = ap (λ i. is_runnable (process_at ps i)) (sym x) ∙ r;
              passed = λ m h k. absurd (omega arith);
            },
            omega arith,
          )
      | inr r ↦
          let (w, b) = pick-some ps current n (first + 1) c (rw r at e) in
          let lo = w.from_first in
          (
            record {
              distance = w.distance;
              from_first = omega arith;
              there = w.there;
              runnable = w.runnable;
              passed = λ m h k. elim (Bool-cases (m == first)) [
                | inl q ↦
                    ap (λ i. is_runnable (process_at ps (slot_at current i))) (==→eq m first q) ∙ r
                | inr q ↦ w.passed m (ground arith) k
              ];
            },
            omega arith,
          )
    ]

pub pick-none :
    (ps : List Process) (current n first m : ℕ)
    → pick ps current n first ≡ none
    → first ≤ m
    → m < first + n
    → is_runnable (process_at ps (slot_at current m)) ≡ false
unfolding pick
pick-none ps current zero first m e h k = absurd (omega arith)
pick-none ps current (suc n) first m e h k =
    elim (Bool-cases (is_runnable (process_at ps (slot_at current first)))) [
      | inl r ↦ let x = rw r at e in cc
      | inr r ↦ elim (Bool-cases (m == first)) [
        | inl q ↦ ap (λ i. is_runnable (process_at ps (slot_at current i))) (==→eq m first q) ∙ r
        | inr q ↦ pick-none ps current n (first + 1) m (rw r at e) (ground arith) (omega arith)
      ]
    ]

-- The processes after the first half of `schedule`.
abbrev pub left_by : Scheduler → Bool → List Process
left_by s exiting = if exiting then finish s.processes s.current else s.processes

-- What `schedule` answers, whether the current process ends or not: the state goes on with the
-- first runnable process in the order of the slots after the current one, the current one last; and
-- there is no state to go on with only if no slot has a runnable process.
pub schedule_lem :
    (s : Scheduler) (exiting : Bool)
    → ((c : ℕ) × (schedule s exiting ≡ some (record { processes = left_by s exiting; current = c }))
        × IsFirst (left_by s exiting) s.current 1 c)
      ⊎ ((schedule s exiting ≡ none)
          × ((slot : ℕ)
              → slot < max_processes
              → is_runnable (process_at (left_by s exiting) slot) ≡ false))
unfolding schedule go_on
schedule_lem s exiting = elim (Option-cases (pick (left_by s exiting) s.current max_processes 1)) [
  | inl (c, e) ↦ inl (
    c,
    ap (go_on (left_by s exiting)) e,
    (pick-some (left_by s exiting) s.current max_processes 1 c e).0,
  )
  | inr e ↦ inr (
    ap (go_on (left_by s exiting)) e,
    λ slot h.
        ap (λ i. is_runnable (process_at (left_by s exiting) i)) (omega arith)
        ∙ pick-none (left_by s exiting) s.current max_processes 1 (distance_to slot) e (omega arith)
            (omega arith),
  )
]
  where
    distance_to : ℕ → ℕ
    distance_to slot = (slot + max_processes - s.current % max_processes - 1) % max_processes + 1
