-- ===== src/Scheduler/Tests.antt =====
-- Runs of the scheduler: a shell that waits for its child.
use imagineos.Base.{
  ℕ, ◌≡◌, ◌⊎◌, ◌<◌, refl, true, false, none, some, [], ◌∷◌, u64_max, zero, suc, arith,
}
use imagineos.Base.Lists.{replicate}
use imagineos.Scheduler.{
  Process, Scheduler, try_again, collected, empty_process, process_at, is_runnable, pick, go_on,
  schedule, finish, wake, exit_current, waitpid_current, answer, uncollected, asleep, any_child,
  dead_child, is_wanted, free_slot, max_processes,
}
use imagineos.Scheduler.Choice.{schedule_lem, left_by, IsFirst}
use imagineos.Scheduler.Turns.{yields-Served, Served}
use imagineos.Scheduler.Waiting.{ArePids, IsAsleep}
use imagineos.Scheduler.Asleep.{yield, end, event, events, waitpid_current-IsAsleep}

abbrev shell : Process
shell = record empty_process { pid = 1; active = true }

abbrev child : Process
child = record empty_process { pid = 2; active = true; parent = 1 }

abbrev daemon : Process
daemon = record empty_process { pid = 3; active = true; parent = 1 }

abbrev two_children : Scheduler
two_children = record {
  processes = shell ∷ child ∷ daemon ∷ replicate 13 empty_process;
  current = 0;
}

yields-Served_example : Served two_children 2 max_processes
unfolding is_runnable
yields-Served_example = yields-Served two_children 2 (omega arith) child_runs
  where
    child_runs : is_runnable daemon ≡ true
    child_runs = refl

-- The shell waits for any child.
abbrev shell_waits : Scheduler
shell_waits = record {
  processes = record shell { waiting_for = u64_max } ∷ child ∷ daemon ∷ replicate 13 empty_process;
  current = 1;
}

waits : waitpid_current two_children 0 false true ≡ some (try_again, shell_waits)
unfolding waitpid_current answer uncollected asleep any_child dead_child is_wanted schedule go_on
    pick is_runnable
waits = refl

-- The child ends, and the shell still waits.
abbrev child_ended : Scheduler
child_ended = record {
  processes =
      record shell { waiting_for = u64_max }
      ∷ record child { zombie = true; exit_status = 7 }
      ∷ daemon
      ∷ replicate 13 empty_process;
  current = 2;
}

ended : events (end 7 ∷ yield ∷ []) (some shell_waits) ≡ some child_ended
unfolding event exit_current schedule go_on pick is_runnable finish wake
ended = refl

small_pids : ArePids two_children.processes
small_pids zero = omega arith
small_pids (suc zero) = omega arith
small_pids (suc (suc zero)) = omega arith
small_pids (suc (suc (suc i))) = none_left 13 i
  where
    none_left : (n i : ℕ) → (process_at (replicate n empty_process) i).pid < u64_max
    none_left zero i = omega arith
    none_left (suc n) zero = omega arith
    none_left (suc n) (suc i) = none_left n i

waitpid_current-IsAsleep_example : IsAsleep child_ended 0
waitpid_current-IsAsleep_example =
    waitpid_current-IsAsleep two_children shell_waits child_ended true (end 7 ∷ yield ∷ [])
      (omega arith) small_pids waits ended

-- Waiting for the child by its pid ends with the child.
abbrev shell_woken : Scheduler
shell_woken = record {
  processes =
      shell ∷ record child { zombie = true; exit_status = 7 } ∷ daemon ∷ replicate 13 empty_process;
  current = 0;
}

woken :
    events (end 7 ∷ yield ∷ []) (
      some (record {
        processes = record shell { waiting_for = 2 } ∷ child ∷ daemon ∷ replicate 13 empty_process;
        current = 1;
      }))
    ≡ some shell_woken
unfolding event exit_current schedule go_on pick is_runnable finish wake
woken = refl

reaped :
    waitpid_current shell_woken 2 false true
    ≡ some (
      collected 2,
      record {
        processes = shell ∷ empty_process ∷ daemon ∷ replicate 13 empty_process;
        current = 0;
      },
    )
unfolding waitpid_current answer any_child dead_child is_wanted free_slot
reaped = refl

schedule_lem_example :
    ((c : ℕ) × (schedule two_children true
        ≡ some (record { processes = left_by two_children true; current = c }))
      × IsFirst (left_by two_children true) 0 1 c)
    ⊎ ((schedule two_children true ≡ none)
        × ((slot : ℕ)
            → slot < max_processes
            → is_runnable (process_at (left_by two_children true) slot) ≡ false))
schedule_lem_example = schedule_lem two_children true
