-- ===== src/Scheduler/Waiting.antt =====
-- kernel/src/exec/process.rs, `waitpid_current` for any child: the value that is kept in
-- `waiting_for` is no pid, and `schedule` clears only the pid of the process that ends.
use mathlib.Core.Path.{subst}
use mathlib.Core.Option.{some-injective}
use imagineos.Base.{
  ℕ, zero, suc, ◌<◌, ◌≡◌, ◌≢◌, refl, sym, ap, ◌∙◌, inl, inr, Bool, true, false, not, ◌&&◌, some,
  List, [], ◌∷◌, ◌==◌, Bool-cases, u64_max, arith,
}
use imagineos.Base.Lists.{set, get_or-set_ne}
use imagineos.Scheduler.{
  Process, Scheduler, empty_process, process_at, is_runnable, schedule, finish, wake,
}
use imagineos.Scheduler.Choice.{left_by, schedule_lem}

-- A pid of a process is below the largest word.
abbrev pub ArePids : List Process → Type 0
ArePids ps = (i : ℕ) → (process_at ps i).pid < u64_max

-- The process in the slot waits for any child and does not run.
pub record IsAsleep (s : Scheduler) (slot : ℕ) : Type 0 where
  pub waits : (process_at s.processes slot).waiting_for ≡ u64_max
  pub elsewhere : slot ≢ s.current
  pub pids : ArePids s.processes

wake-waits :
    (finished : ℕ) (ps : List Process) (slot : ℕ)
    → finished < u64_max
    → (process_at ps slot).waiting_for ≡ u64_max
    → (process_at (wake finished ps) slot).waiting_for ≡ u64_max
unfolding wake
wake-waits finished [] slot h w = w
wake-waits finished (p ∷ ps) zero h w = rw (apart) w
  where
    apart : (p.waiting_for == finished) ≡ false
    apart = ground arith
wake-waits finished (p ∷ ps) (suc slot) h w = elim (Bool-cases (p.waiting_for == finished)) [
  | inl e ↦ rw e (wake-waits finished ps slot h w)
  | inr e ↦ rw e (wake-waits finished ps slot h w)
]

wake-pid :
    (finished : ℕ) (ps : List Process) (i : ℕ)
    → (process_at (wake finished ps) i).pid ≡ (process_at ps i).pid
unfolding wake
wake-pid finished [] i = refl
wake-pid finished (p ∷ ps) zero = elim (Bool-cases (p.waiting_for == finished)) [
  | inl e ↦ rw e refl
  | inr e ↦ rw e refl
]
wake-pid finished (p ∷ ps) (suc i) = elim (Bool-cases (p.waiting_for == finished)) [
  | inl e ↦ rw e (wake-pid finished ps i)
  | inr e ↦ rw e (wake-pid finished ps i)
]

-- A change of a process that keeps its pid.
pub set-pid :
    (ps : List Process) (at : ℕ) (p : Process) (i : ℕ)
    → p.pid ≡ (process_at ps at).pid
    → (process_at (set ps at p) i).pid ≡ (process_at ps i).pid
set-pid [] at p i e = refl
set-pid (q ∷ ps) zero p zero e = e
set-pid (q ∷ ps) zero p (suc i) e = refl
set-pid (q ∷ ps) (suc at) p zero e = refl
set-pid (q ∷ ps) (suc at) p (suc i) e = set-pid ps at p i e

-- What waits for any child is not chosen.
waits-not_runnable : (p : Process) → p.waiting_for ≡ u64_max → is_runnable p ≡ false
unfolding is_runnable
waits-not_runnable p w = rw w (all_false p.active p.stopped p.zombie)
  where
    all_false : (a b c : Bool) → (a && (not b && (not c && false))) ≡ false
    all_false false b c = refl
    all_false true true c = refl
    all_false true false true = refl
    all_false true false false = refl

pub chosen-IsAsleep :
    (s : Scheduler) (exiting : Bool) (slot : ℕ) {s' : Scheduler}
    → (process_at (left_by s exiting) slot).waiting_for ≡ u64_max
    → ArePids (left_by s exiting)
    → schedule s exiting ≡ some s'
    → IsAsleep s' slot
chosen-IsAsleep s exiting slot {s'} w p e = elim (schedule_lem s exiting) [
  | inr (x, never) ↦ let no = sym x ∙ e in cc
  | inl (c, x, f) ↦
      subst (λ t. IsAsleep t slot) (some-injective _ _ (sym x ∙ e))
        (record {
          waits = w;
          elsewhere = λ q.
              let yes = ap (λ i. is_runnable (process_at (left_by s exiting) i)) q ∙ f.runnable in
              let no = waits-not_runnable (process_at (left_by s exiting) slot) w in cc;
          pids = p;
        })
]

pub finish-waits :
    (ps : List Process) (current slot : ℕ)
    → slot ≢ current
    → ArePids ps
    → (process_at ps slot).waiting_for ≡ u64_max
    → (process_at (finish ps current) slot).waiting_for ≡ u64_max
unfolding finish
finish-waits ps current slot n p w =
    wake-waits (process_at ps current).pid _ slot (p current)
      (ap (λ q. q.waiting_for) (get_or-set_ne ps current slot _ empty_process (λ z. n (sym z))) ∙ w)

pub finish-ArePids : (ps : List Process) (current : ℕ) → ArePids ps → ArePids (finish ps current)
unfolding finish
finish-ArePids ps current p i =
    let a =
      wake-pid (process_at ps current).pid
        (set ps current
          (record (process_at ps current) { zombie = true; stopped = false; waiting_for = 0 }))
        i in
    let b =
      set-pid ps current
        (record (process_at ps current) { zombie = true; stopped = false; waiting_for = 0 }) i
        refl in
    omega (arith, a, b, p i)
