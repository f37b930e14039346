-- ===== src/Scheduler/Asleep.antt =====
-- kernel/src/exec/process.rs: after `waitpid_current` for any child no end of a process wakes the
-- parent.
use mathlib.Core.Path.{subst}
use mathlib.Core.Option.{some-injective}
use imagineos.Base.{
  ℕ, ◌+◌, ◌<◌, ◌≡◌, refl, sym, ap, ◌∙◌, inl, inr, Bool, true, false, not, ◌||◌, Option, none, some,
  List, [], ◌∷◌, ltb, Bool-cases, u64_max, arith,
}
use imagineos.Base.Lists.{length, set, get_or-set_self, get_or-set_ne}
use imagineos.Scheduler.{
  Process, Scheduler, Answer, try_again, no_child, collected, empty_process, process_at, schedule,
  exit_current, timer_tick, any_waiting, has_other_runnable, waitpid_current, answer, uncollected,
  asleep, any_child, dead_child, timer_quantum_ticks,
}
use imagineos.Scheduler.Waiting.{
  ArePids, IsAsleep, chosen-IsAsleep, finish-waits, finish-ArePids, set-pid,
}

-- What happens after the call: the running process yields or ends, or the timer ticks.
pub data Event : Type 0 where
  yield : Event
  tick : Bool → Event
  end : ℕ → Event

unfoldable pub event : Scheduler → Event → Option Scheduler
event s yield = schedule s false
event s (tick in_user) = timer_tick s in_user
event s (end status) = exit_current s status

abbrev pub events : List Event → Option Scheduler → Option Scheduler
events [] o = o
events (e ∷ es) none = none
events (e ∷ es) (some s) = events es (event s e)

schedule-IsAsleep :
    (s : Scheduler) (exiting : Bool) (slot : ℕ) {s' : Scheduler}
    → IsAsleep s slot
    → schedule s exiting ≡ some s'
    → IsAsleep s' slot
schedule-IsAsleep s false slot a e = chosen-IsAsleep s false slot a.waits a.pids e
schedule-IsAsleep s true slot a e =
    chosen-IsAsleep s true slot (finish-waits s.processes s.current slot a.elsewhere a.pids a.waits)
      (finish-ArePids s.processes s.current a.pids) e

-- A change of the current process that keeps its pid.
set-IsAsleep :
    (s : Scheduler) (slot : ℕ) (p : Process)
    → p.pid ≡ (process_at s.processes s.current).pid
    → IsAsleep s slot
    → IsAsleep (record s { processes = set s.processes s.current p }) slot
set-IsAsleep s slot p same a = record {
  waits =
      ap (λ q. q.waiting_for)
        (get_or-set_ne s.processes s.current slot p empty_process (λ z. a.elsewhere (sym z)))
      ∙ a.waits;
  elsewhere = a.elsewhere;
  pids = λ i. omega (arith, set-pid s.processes s.current p i same, a.pids i);
}

tick-IsAsleep :
    (s : Scheduler) (in_user : Bool) (slot : ℕ) {s' : Scheduler}
    → IsAsleep s slot
    → timer_tick s in_user ≡ some s'
    → IsAsleep s' slot
unfolding timer_tick
tick-IsAsleep s in_user slot a e =
    elim (Bool-cases (
      not in_user
      || (not p.active
          || (any_waiting s.processes || not (has_other_runnable s.processes s.current 0))))) [
            | inl q ↦ let x = rw q at e in subst (λ t. IsAsleep t slot) (some-injective _ _ x) a
            | inr q ↦ elim (Bool-cases (ltb (p.quantum + 1) timer_quantum_ticks)) [
              | inl r ↦
                  let x = rw (q, r) at e in
                  subst (λ t. IsAsleep t slot) (some-injective _ _ x)
                    (set-IsAsleep s slot (record p { quantum = p.quantum + 1 }) refl a)
              | inr r ↦
                  schedule-IsAsleep
                    (record s { processes = set s.processes s.current (record p { quantum = 0 }) })
                    false slot (set-IsAsleep s slot (record p { quantum = 0 }) refl a)
                    (rw (q, r) at e)
            ]
          ]
  where
    p : Process
    p = process_at s.processes s.current

event-IsAsleep :
    (s : Scheduler) (e : Event) (slot : ℕ) {s' : Scheduler}
    → IsAsleep s slot
    → event s e ≡ some s'
    → IsAsleep s' slot
unfolding event exit_current
event-IsAsleep s yield slot a h = schedule-IsAsleep s false slot a h
event-IsAsleep s (tick in_user) slot a h = tick-IsAsleep s in_user slot a h
event-IsAsleep s (end status) slot a h =
    schedule-IsAsleep _ true slot
      (set-IsAsleep s slot (record (process_at s.processes s.current) { exit_status = status }) refl
        a)
      h

events-none : (es : List Event) → events es none ≡ none
events-none [] = refl
events-none (e ∷ es) = refl

events-IsAsleep :
    (es : List Event) (s s' : Scheduler) (slot : ℕ)
    → IsAsleep s slot
    → events es (some s) ≡ some s'
    → IsAsleep s' slot
events-IsAsleep [] s s' slot a h = subst (λ t. IsAsleep t slot) (some-injective _ _ h) a
events-IsAsleep (e ∷ es) s s' slot a h =
    by_next (event s e) refl h (λ t b x. events-IsAsleep es t s' slot b x)
  where
    by_next :
        (o : Option Scheduler)
        → event s e ≡ o
        → events es o ≡ some s'
        → ((t : Scheduler) → IsAsleep t slot → events es (some t) ≡ some s' → IsAsleep s' slot)
        → IsAsleep s' slot
    by_next none q x rest = let no = sym (events-none es) ∙ x in cc
    by_next (some t) q x rest = rest t (event-IsAsleep s e slot a q) x

no_state : {s : Answer × Scheduler} → ◌≡◌ {A = Option (Answer × Scheduler)} none (some s) → ⊥
no_state e = cc

other_answer :
    {s t : Scheduler}
    → ◌≡◌ {A = Option (Answer × Scheduler)} (some (no_child, s)) (some (try_again, t))
    → ⊥
other_answer e = let x = ap (λ y. y.0) (some-injective _ _ e) in cc

collected_answer :
    {pid : ℕ} {s t : Scheduler}
    → ◌≡◌ {A = Option (Answer × Scheduler)} (some (collected pid, s)) (some (try_again, t))
    → ⊥
collected_answer e = let x = ap (λ y. y.0) (some-injective _ _ e) in cc

-- A process that waits for any child, while it has one and none has ended, never runs again: the
-- call answers "try again", and after whatever yields, ends of processes (of its children too) and
-- ticks of the timer follow, its slot is not the current one and still waits.
pub waitpid_current-IsAsleep :
    (s s1 s2 : Scheduler) (delivered : Bool) (es : List Event)
    → s.current < length s.processes
    → ArePids s.processes
    → waitpid_current s 0 false delivered ≡ some (try_again, s1)
    → events es (some s1) ≡ some s2
    → IsAsleep s2 s.current
unfolding waitpid_current answer uncollected asleep
waitpid_current-IsAsleep s s1 s2 delivered es l p e h =
    events-IsAsleep es s1 s2 s.current
      (asks delivered (any_child me.pid 0 s.processes) (dead_child me.pid 0 s.processes) e) h
  where
    me : Process
    me = process_at s.processes s.current

    asking : Process
    asking = record me { waiting_for = u64_max }

    marked : Scheduler
    marked = record s { processes = set s.processes s.current asking }

    waits : (process_at marked.processes s.current).waiting_for ≡ u64_max
    waits = ap (λ q. q.waiting_for) (get_or-set_self s.processes s.current asking empty_process l)

    slept :
        (o : Option Scheduler)
        → schedule marked false ≡ o
        → asleep o ≡ some (try_again, s1)
        → IsAsleep s1 s.current
    slept none q x = let no = x in absurd (no_state no)
    slept (some t) q x =
        subst (λ t. IsAsleep t s.current) (ap (λ y. y.1) (some-injective _ _ x))
          (chosen-IsAsleep marked false s.current waits
            (λ i. omega (arith, set-pid s.processes s.current asking i refl, p i)) q)

    unasked :
        (found : Bool) → uncollected s 0 false found ≡ some (try_again, s1) → IsAsleep s1 s.current
    unasked false x = absurd (other_answer x)
    unasked true x = slept (schedule marked false) refl x

    asks :
        (delivered found : Bool) (o : Option ℕ)
        → answer s 0 false delivered found o ≡ some (try_again, s1)
        → IsAsleep s1 s.current
    asks delivered found none x = unasked found x
    asks true found (some pid) x = absurd (collected_answer x)
    asks false found (some pid) x = unasked found x
