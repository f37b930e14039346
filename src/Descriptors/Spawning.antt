-- ===== src/Descriptors/Spawning.antt =====
-- A process that is spawned with ends of its parent's pipes keeps the counts exact.
use mathlib.Core.Path.{subst}
use imagineos.Base.{
  ℕ, zero, suc, ◌+◌, ◌≤◌, ◌<◌, ◌≡◌, refl, ap, ◌∙◌, Bool, Bool-cases, Option, none, some, true,
  false, inl, inr, leb, ◌||◌, arith,
}
use imagineos.Base.Lists.{length, replicate, get_or, set, get_or-set_ne, length-set}
use imagineos.Ipc
use imagineos.Ipc.Counts.{Balanced}
use imagineos.Descriptors.{
  DescriptorTable, Files, held, table_at, unused, is_closed, closed_descriptor, max_open_fds,
  new_table, take_reference,
}
use imagineos.Descriptors.Processes.{
  free_process, is_alive, install, apply_spawn_io, spawn_into, spawn_current,
}
use imagineos.Descriptors.References.{take_end-Balanced}
use imagineos.Descriptors.Weights.{
  reads, writes, sum, sum-set, sum_bound, end_reads-le, end_writes-le, readers_in, writers_in,
  readers_in_bound, writers_in_bound,
}
use imagineos.Descriptors.Places.{held_reads, held_writes}
use imagineos.Descriptors.Counted.{IsCounted}
use imagineos.Descriptors.Forking.{begin-IsCounted, free_process_lem}

get_or-replicate : {A : Type 0} (n i : ℕ) (x : A) → get_or (replicate n x) i x ≡ x
get_or-replicate zero i x = refl
get_or-replicate (suc n) zero x = refl
get_or-replicate (suc n) (suc i) x = get_or-replicate n i x

module _ (f : Files) (c : IsCounted f) where
  -- The table of the child while it is filled: the places from `k` on hold no pipe.
  record Filling (k : ℕ) (s : DescriptorTable × Ipc.Table) : Type 0 where
    pub size : length s.0 ≡ max_open_fds
    pub fresh :
        (i j : ℕ)
        → k ≤ i
        → (reads j (get_or s.0 i closed_descriptor) ≡ 0)
          × (writes j (get_or s.0 i closed_descriptor) ≡ 0)
    pub balance :
        Balanced s.1
          (λ j. readers_in f.slots j + sum (reads j) s.0)
          (λ j. writers_in f.slots j + sum (writes j) s.0)

  skipped : (k : ℕ) (s : DescriptorTable × Ipc.Table) → Filling k s → Filling (k + 1) s
  skipped k s x = record {
    size = x.size;
    fresh = λ i j h. x.fresh i j (omega arith);
    balance = x.balance;
  }

  installed :
      (k source : ℕ) (child : DescriptorTable) (pipes : Ipc.Table)
      → k < max_open_fds
      → source < max_open_fds
      → Filling k (child, pipes)
      → Filling (k + 1) (set child k (held f source), (take_reference (held f source) pipes).1)
  unfolding take_reference
  installed k source child pipes h l x =
      let d = held f source in
      let n = x.size in
      let (r, b) =
        take_end-Balanced d.kind d.pipe pipes (λ j. readers_in f.slots j + sum (reads j) child)
          (λ j. writers_in f.slots j + sum (writes j) child)
          (λ j. readers_in f.slots j + sum (reads j) (set child k d))
          (λ j. writers_in f.slots j + sum (writes j) (set child k d)) x.balance
          (omega
            (arith, held_reads f c.places source d.pipe l, held_writes f c.places source d.pipe l))
          (omega (
            arith,
            c.places.count,
            readers_in_bound f.slots d.pipe c.places.each,
            sum_bound (reads d.pipe) child (λ e. end_reads-le e.kind e.pipe d.pipe),
          ))
          (omega (
            arith,
            c.places.count,
            writers_in_bound f.slots d.pipe c.places.each,
            sum_bound (writes d.pipe) child (λ e. end_writes-le e.kind e.pipe d.pipe),
          ))
          (λ j. omega (
            arith,
            sum-set (reads j) child k d closed_descriptor (omega arith),
            (x.fresh k j (omega arith)).0,
          ))
          (λ j. omega (
            arith,
            sum-set (writes j) child k d closed_descriptor (omega arith),
            (x.fresh k j (omega arith)).1,
          )) in
      record {
        size = length-set child k d ∙ n;
        fresh = λ i j m.
            let e = get_or-set_ne child k i d closed_descriptor (λ z. omega arith) in
            (
              ap (reads j) e ∙ (x.fresh i j (omega arith)).0,
              ap (writes j) e ∙ (x.fresh i j (omega arith)).1,
            );
        balance = b;
      }

  install-Filling :
      (k : ℕ) (source : Option ℕ) (s : DescriptorTable × Ipc.Table)
      → k < max_open_fds
      → Filling k s
      → Filling (k + 1) (install (table_at f f.current) k source s)
  unfolding install
  install-Filling k none (child, pipes) h x = skipped k (child, pipes) x
  install-Filling k (some source) (child, pipes) h x =
      elim (Bool-cases (leb max_open_fds source || is_closed (held f source))) [
        | inl a ↦ rw a (skipped k (child, pipes) x)
        | inr a ↦ rw a (installed k source child pipes h (inside a) x)
      ]
    where
      inside :
          (leb max_open_fds source || is_closed (held f source)) ≡ false → source < max_open_fds
      inside a = ground arith

  new_table-Filling : Filling 0 (new_table, f.pipes)
  new_table-Filling = record { size = refl; fresh = λ i j h. fresh_table i j; balance = c.balance }
    where
      fresh_table :
          (i j : ℕ)
          → (reads j (get_or new_table i closed_descriptor) ≡ 0)
            × (writes j (get_or new_table i closed_descriptor) ≡ 0)
      fresh_table zero j = (refl, refl)
      fresh_table (suc zero) j = (refl, refl)
      fresh_table (suc (suc zero)) j = (refl, refl)
      fresh_table (suc (suc (suc i))) j =
          let e = get_or-replicate 21 i closed_descriptor in (ap (reads j) e, ap (writes j) e)

  apply_spawn_io-Filling :
      (io0 io1 io2 : Option ℕ)
      → Filling 3 (apply_spawn_io (table_at f f.current) io0 io1 io2 (new_table, f.pipes))
  unfolding apply_spawn_io
  apply_spawn_io-Filling io0 io1 io2 =
      let s0 = install-Filling 0 io0 (new_table, f.pipes) (omega arith) new_table-Filling in
      let s1 = install-Filling 1 io1 _ (omega arith) s0 in install-Filling 2 io2 _ (omega arith) s1

  spawn_into-IsCounted :
      (io0 io1 io2 o : Option ℕ)
      → free_process f.slots 0 ≡ o
      → IsCounted (spawn_into f io0 io1 io2 o).1
  spawn_into-IsCounted io0 io1 io2 none e = c
  spawn_into-IsCounted io0 io1 io2 (some slot) e =
      let (k, a, l, dead) = free_process_lem f.slots 0 slot e in
      let x = apply_spawn_io-Filling io0 io1 io2 in
      begin-IsCounted f slot
        (apply_spawn_io (table_at f f.current) io0 io1 io2 (new_table, f.pipes)).0
        (apply_spawn_io (table_at f f.current) io0 io1 io2 (new_table, f.pipes)).1 c.places
        (omega arith) (subst (λ i. is_alive (get_or f.slots i unused) ≡ false) (omega arith) dead)
        x.size x.balance

pub spawn_current-IsCounted :
    (f : Files) (loaded : Bool) (io0 io1 io2 : Option ℕ)
    → IsCounted f
    → IsCounted (spawn_current f loaded io0 io1 io2).1
unfolding spawn_current
spawn_current-IsCounted f true io0 io1 io2 c =
    spawn_into-IsCounted f c io0 io1 io2 (free_process f.slots 0) refl
spawn_current-IsCounted f false io0 io1 io2 c = c
