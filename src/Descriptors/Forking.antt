-- ===== src/Descriptors/Forking.antt =====
-- A process that begins, and `fork_current`, keep the counts of the pipes exact.
use mathlib.Core.Path.{subst}
use mathlib.Core.Option.{some-injective}
use imagineos.Base.{
  ℕ, suc, ◌+◌, ◌<◌, ◌≡◌, ◌≢◌, refl, Bool, List, [], ◌∷◌, Bool-cases, Option, none, some, true,
  false, inl, inr, arith,
}
use imagineos.Base.Lists.{length, get_or, set}
use imagineos.Ipc
use imagineos.Ipc.Counts.{Balanced, Balanced-cong}
use imagineos.Descriptors.{DescriptorTable, Files, Slot, table_at, unused, max_open_fds}
use imagineos.Descriptors.Processes.{
  free_process, take_each, begin, fork_into, fork_current, is_alive,
}
use imagineos.Descriptors.References.{take_each-Balanced}
use imagineos.Descriptors.Weights.{
  reads, writes, sum, sum-set, sum-get_or, sum_bound, end_reads-le, end_writes-le, readers_in,
  writers_in, IsSlot, IsSlots, readers_in_bound, writers_in_bound, slot_readers, slot_writers,
  All-get_or,
}
use imagineos.Descriptors.Places.{current-IsSlot, current-lt}
use imagineos.Descriptors.Counted.{IsCounted, nothing}
use imagineos.Descriptors.Lifecycle.{set_slot, not_current}

pub free_process_lem :
    (ss : List Slot) (i n : ℕ)
    → free_process ss i ≡ some n
    → (k : ℕ) × (n ≡ i + k) × (k < length ss) × (is_alive (get_or ss k unused) ≡ false)
unfolding free_process is_alive
free_process_lem [] i n e = cc
free_process_lem (s ∷ ss) i n e = elim (Bool-cases s.active) [
  | inl c ↦
      let (k, a, b, q) = free_process_lem ss (i + 1) n (rw c at e) in
      (suc k, omega arith, omega arith, q)
  | inr c ↦ let x = rw c at e in (0, omega (arith, some-injective _ _ x), omega arith, rw c refl)
]

-- A process begins in a slot that held no pipe; the references of its table are counted.
pub begin-IsCounted :
    (f : Files) (slot : ℕ) (t : DescriptorTable) (pipes : Ipc.Table)
    → IsSlots f.slots f.current
    → slot < length f.slots
    → is_alive (get_or f.slots slot unused) ≡ false
    → length t ≡ max_open_fds
    → Balanced pipes
        (λ j. readers_in f.slots j + sum (reads j) t)
        (λ j. writers_in f.slots j + sum (writes j) t)
    → IsCounted (begin f slot t pipes)
unfolding is_alive
begin-IsCounted f slot t pipes p l dead n b = record {
  places = set_slot f.slots f.current slot new p l other (n, λ h. cc);
  balance =
      Balanced-cong pipes (λ j. readers_in f.slots j + sum (reads j) t)
        (λ j. writers_in f.slots j + sum (writes j) t)
        (λ j. readers_in (set f.slots slot new) j + nothing j)
        (λ j. writers_in (set f.slots slot new) j + nothing j)
        (λ j. omega (arith, sum-set (slot_readers j) f.slots slot new unused l, (empty_before j).0))
        (λ j. omega (arith, sum-set (slot_writers j) f.slots slot new unused l, (empty_before j).1))
        b;
}
  where
    new : Slot
    new = record { active = true; zombie = false; table = t }

    other : slot ≢ f.current
    other = not_current f slot p dead

    empty_before :
        (j : ℕ)
        → (slot_readers j (get_or f.slots slot unused) ≡ 0)
          × (slot_writers j (get_or f.slots slot unused) ≡ 0)
    empty_before j = (All-get_or IsSlot f.slots slot unused p.each l).1 dead j

fork_into-IsCounted :
    (f : Files) (o : Option ℕ)
    → IsCounted f
    → free_process f.slots 0 ≡ o
    → IsCounted (fork_into f o).1
fork_into-IsCounted f none c e = c
fork_into-IsCounted f (some slot) c e =
    let (k, a, l, dead) = free_process_lem f.slots 0 slot e in
    let t = table_at f f.current in
    let n = (current-IsSlot f c.places).0 in
    let lt = current-lt f c.places in
    let count = c.places.count in
    begin-IsCounted f slot t (take_each t f.pipes) c.places (omega arith)
      (subst (λ i. is_alive (get_or f.slots i unused) ≡ false) (omega arith) dead) n
      (take_each-Balanced t f.pipes (λ j. readers_in f.slots j + nothing j)
        (λ j. writers_in f.slots j + nothing j) (λ j. readers_in f.slots j + sum (reads j) t)
        (λ j. writers_in f.slots j + sum (writes j) t) c.balance
        (λ j. (
          omega (arith, sum-get_or (slot_readers j) f.slots f.current unused lt),
          omega (arith, sum-get_or (slot_writers j) f.slots f.current unused lt),
        ))
        (λ j. (
          omega (
            arith,
            readers_in_bound f.slots j c.places.each,
            sum_bound (reads j) t (λ d. end_reads-le d.kind d.pipe j),
          ),
          omega (
            arith,
            writers_in_bound f.slots j c.places.each,
            sum_bound (writes j) t (λ d. end_writes-le d.kind d.pipe j),
          ),
        ))
        (λ j. omega arith) (λ j. omega arith))

pub fork_current-IsCounted :
    (f : Files) (cloned : Bool) → IsCounted f → IsCounted (fork_current f cloned).1
unfolding fork_current
fork_current-IsCounted f true c = fork_into-IsCounted f (free_process f.slots 0) c refl
fork_current-IsCounted f false c = c
