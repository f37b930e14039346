-- ===== src/Scheduler.antt =====
-- kernel/src/exec/process.rs: which process runs. A process has the fields that this depends on;
-- registers, address spaces and kernel stacks are not part of it. A step that ends in `kernel_halt`
-- has no state after it.
pub mod Choice
pub mod Turns
pub mod Waiting
pub mod Asleep
mod Tests
use imagineos.Base.{
  ℕ, zero, suc, ◌+◌, ◌%◌, Bool, true, false, not, ◌&&◌, ◌||◌, Option, none, some, List, [], ◌∷◌,
  ltb, ◌==◌, if◌then◌else◌, u64_max,
}
use imagineos.Base.Lists.{get_or, set}

abbrev pub max_processes : ℕ
max_processes = 16

abbrev pub timer_quantum_ticks : ℕ
timer_quantum_ticks = 10

pub record Process : Type 0 where
  pub pid : ℕ
  pub active : Bool
  pub stopped : Bool
  pub parent : ℕ
  pub zombie : Bool
  pub exit_status : ℕ
  pub waiting_for : ℕ
  pub quantum : ℕ

-- `Process::EMPTY`
abbrev pub empty_process : Process
empty_process = record {
  pid = 0;
  active = false;
  stopped = false;
  parent = 0;
  zombie = false;
  exit_status = 0;
  waiting_for = 0;
  quantum = 0;
}

pub record Scheduler : Type 0 where
  pub processes : List Process
  pub current : ℕ

abbrev pub process_at : List Process → ℕ → Process
process_at ps slot = get_or ps slot empty_process

-- The four tests that `schedule` and `timer_tick` make of a candidate.
pub is_runnable : Process → Bool
is_runnable p = p.active && (not p.stopped && (not p.zombie && (p.waiting_for == 0)))

-- The loop over the distances: `n` rounds are left.
pub pick : List Process → ℕ → ℕ → ℕ → Option ℕ
pick ps current zero distance = none
pick ps current (suc n) distance =
    let rest = pick ps current n (distance + 1) in
    let candidate = (current + distance) % max_processes in
    if is_runnable (process_at ps candidate) then some candidate else rest

-- Those who wait for the process that has finished may run again.
pub wake : ℕ → List Process → List Process
wake finished [] = []
wake finished (p ∷ ps) =
    let rest = wake finished ps in
    if p.waiting_for == finished then record p { waiting_for = 0 } ∷ rest else p ∷ rest

-- What `schedule` does first when the current process ends.
pub finish : List Process → ℕ → List Process
finish ps current =
    let p = process_at ps current in
    wake p.pid (set ps current (record p { zombie = true; stopped = false; waiting_for = 0 }))

pub go_on : List Process → Option ℕ → Option Scheduler
go_on ps none = none
go_on ps (some candidate) = some (record { processes = ps; current = candidate })

pub schedule : Scheduler → Bool → Option Scheduler
schedule s exiting =
    let ps = if exiting then finish s.processes s.current else s.processes in
    go_on ps (pick ps s.current max_processes 1)

pub exit_current : Scheduler → ℕ → Option Scheduler
exit_current s status =
    schedule
      (record s {
        processes =
            set s.processes s.current
              (record (process_at s.processes s.current) { exit_status = status });
      })
      true

pub any_waiting : List Process → Bool
any_waiting [] = false
any_waiting (p ∷ ps) = (p.active && not (p.waiting_for == 0)) || any_waiting ps

-- Some other process is runnable; the list begins with slot `i`.
pub has_other_runnable : List Process → ℕ → ℕ → Bool
has_other_runnable [] current i = false
has_other_runnable (p ∷ ps) current i =
    (not (i == current) && is_runnable p) || has_other_runnable ps current (i + 1)

-- `timer_tick`; `in_user` is whether the tick met a process in ring 3.
pub timer_tick : Scheduler → Bool → Option Scheduler
timer_tick s in_user =
    let p = process_at s.processes s.current in
    let ticked = record p { quantum = p.quantum + 1 } in
    let rested = record p { quantum = 0 } in
    if not in_user
      || (not p.active
          || (any_waiting s.processes || not (has_other_runnable s.processes s.current 0)))
    then some s
    else if ltb (p.quantum + 1) timer_quantum_ticks
    then some (record s { processes = set s.processes s.current ticked })
    else schedule (record s { processes = set s.processes s.current rested }) false

-- The tests of `reap_child`; the pids that are not positive are written 0 and ask for any child.
pub is_wanted : ℕ → ℕ → Process → Bool
is_wanted parent wanted p =
    p.active && ((p.parent == parent) && ((wanted == 0) || (p.pid == wanted)))

pub any_child : ℕ → ℕ → List Process → Bool
any_child parent wanted [] = false
any_child parent wanted (p ∷ ps) = is_wanted parent wanted p || any_child parent wanted ps

-- The pid of the first zombie among them.
pub dead_child : ℕ → ℕ → List Process → Option ℕ
dead_child parent wanted [] = none
dead_child parent wanted (p ∷ ps) =
    let rest = dead_child parent wanted ps in
    if is_wanted parent wanted p && p.zombie then some p.pid else rest

-- The first active slot with the pid is freed.
pub free_slot : ℕ → List Process → List Process
free_slot pid [] = []
free_slot pid (p ∷ ps) =
    let rest = free_slot pid ps in
    if p.active && (p.pid == pid) then empty_process ∷ ps else p ∷ rest

-- What `waitpid` answers: a pid, no child, none dead yet, or "try again".
pub data Answer : Type 0 where
  collected : ℕ → Answer
  no_child none_yet try_again : Answer

pub asleep : Option Scheduler → Option (Answer × Scheduler)
asleep none = none
asleep (some s) = some (try_again, s)

-- `waitpid_current` where nothing was collected.
pub uncollected : Scheduler → ℕ → Bool → Bool → Option (Answer × Scheduler)
uncollected s wanted nohang found =
    let p = process_at s.processes s.current in
    let asked = if wanted == 0 then u64_max else wanted in
    if not found
    then some (no_child, s)
    else if nohang
    then some (none_yet, s)
    else asleep (
        schedule
          (record s { processes = set s.processes s.current (record p { waiting_for = asked }) })
          false)

-- `waitpid_current` after the search; `delivered` is whether the status could be written.
pub answer : Scheduler → ℕ → Bool → Bool → Bool → Option ℕ → Option (Answer × Scheduler)
answer s wanted nohang delivered found none = uncollected s wanted nohang found
answer s wanted nohang delivered found (some pid) =
    if delivered
    then some (collected pid, record s { processes = free_slot pid s.processes })
    else uncollected s wanted nohang found

pub waitpid_current : Scheduler → ℕ → Bool → Bool → Option (Answer × Scheduler)
waitpid_current s wanted nohang delivered =
    let pid = (process_at s.processes s.current).pid in
    answer s wanted nohang delivered (any_child pid wanted s.processes)
      (dead_child pid wanted s.processes)
