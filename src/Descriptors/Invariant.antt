-- ===== src/Descriptors/Invariant.antt =====
-- Under any calls of any processes the counts of the pipes are exact.
use mathlib.Core.Path.{subst}
use imagineos.Base.{
  min, ℕ, zero, suc, ◌+◌, ◌≡◌, refl, sym, ap, ◌∙◌, List, [], ◌∷◌, Option, none, some, true, inl,
  inr, ◌==◌, if◌then◌else◌, arith,
}
use imagineos.Base.Lists.{length, get_elem?, replicate, All}
use imagineos.Ipc
use imagineos.Ipc.Counts.{Holds, Balanced-at}
use imagineos.Ipc.Traffic.{read-Balanced, write-Balanced, read-empty, write-empty}
use imagineos.Ipc.Creation.{Balanced-replicate}
use imagineos.Descriptors.{unused, Descriptor, Files, held, file_at, allocate_descriptor}
use imagineos.Descriptors.Processes.{
  Call, open_file, seek, close, duplicate, duplicate_to, make_pipe, fork, spawn, exit, collect,
  resume, receive, send, is_alive, step, run, booted,
}
use imagineos.Descriptors.Weights.{IsSlot, reads, writes, readers_in, writers_in}
use imagineos.Descriptors.Counted.{
  IsCounted, nothing, Owes-cong, close-Owes, Placed, allocate-Placed,
}
use imagineos.Descriptors.Calls.{
  duplicate_descriptor-IsCounted, duplicate_descriptor_to-IsCounted, update_descriptor-IsCounted,
}
use imagineos.Descriptors.Creation.{create_pipe-IsCounted}
use imagineos.Descriptors.Forking.{fork_current-IsCounted}
use imagineos.Descriptors.Lifecycle.{exit_to-IsCounted, reap-IsCounted, switch-IsCounted}
use imagineos.Descriptors.Spawning.{spawn_current-IsCounted}

open_file-IsCounted :
    (f : Files) (r : Option ℕ × Files)
    → IsCounted f
    → (d : Descriptor) → Placed f d nothing nothing r
    → IsCounted r.1
open_file-IsCounted f (none, f') o d (e, x) = subst IsCounted (sym e) o
open_file-IsCounted f (some fd, f') o d p = p.0

step-IsCounted : (f : Files) (c : Call) → IsCounted f → IsCounted (step f c)
unfolding step
step-IsCounted f (open_file path flags offset) o =
    let d = file_at path flags offset in
    open_file-IsCounted f (allocate_descriptor f d) o d (
      allocate-Placed f d nothing nothing (
        Owes-cong f nothing nothing (λ j. nothing j + reads j d) (λ j. nothing j + writes j d)
          (λ j. refl) (λ j. refl) o))
step-IsCounted f (seek fd offset input input_offset) o =
    update_descriptor-IsCounted f fd
      (record (held f fd) { offset = offset; input = input; input_offset = input_offset }) o
      (λ j. (refl, refl))
step-IsCounted f (close fd) o = close-Owes f fd nothing nothing o
step-IsCounted f (duplicate fd) o = duplicate_descriptor-IsCounted f fd o
step-IsCounted f (duplicate_to source target) o =
    duplicate_descriptor_to-IsCounted f source target o
step-IsCounted f (make_pipe delivered) o = create_pipe-IsCounted f delivered o
step-IsCounted f (fork cloned) o = fork_current-IsCounted f cloned o
step-IsCounted f (spawn loaded io0 io1 io2) o = spawn_current-IsCounted f loaded io0 io1 io2 o
step-IsCounted f (exit next) o = exit_to-IsCounted f next o
step-IsCounted f (collect slot) o = reap-IsCounted f slot o
step-IsCounted f (resume slot) o = switch-IsCounted f slot o
step-IsCounted f (receive id output) o = record {
  places = o.places;
  balance = read-Balanced f.pipes id output _ _ o.balance;
}
step-IsCounted f (send id input) o = record {
  places = o.places;
  balance = write-Balanced f.pipes id input _ _ o.balance;
}

-- Whatever calls the processes make, starting from a state in which the counts are exact: the two
-- counts of each pipe stay the numbers of descriptors, in the tables of all processes, that hold its
-- reading end and its writing end, and a pipe that no descriptor holds is free.
pub run-IsCounted : (f : Files) (calls : List Call) → IsCounted f → IsCounted (run f calls)
unfolding run
run-IsCounted f [] o = o
run-IsCounted f (c ∷ calls) o = run-IsCounted (step f c) calls (step-IsCounted f c o)

All-replicate : {A : Type 0} (P : A → Type 0) (n : ℕ) (x : A) → P x → All P (replicate n x)
All-replicate P zero x h = tt
All-replicate P (suc n) x h = (h, All-replicate P n x h)

unused-IsSlot : IsSlot unused
unused-IsSlot = (refl, λ h j. (refl, refl))

pub booted-IsCounted : IsCounted booted
unfolding is_alive
booted-IsCounted = record {
  places = record {
    count = refl;
    each = ((refl, λ h j. (refl, refl)), All-replicate IsSlot 15 unused unused-IsSlot);
    running = refl;
  };
  balance =
      Balanced-replicate Ipc.max_pipes (λ j. readers_in booted.slots j + nothing j)
        (λ j. writers_in booted.slots j + nothing j) (λ j. (refl, refl));
}

-- From the start of the system on, under any calls of the processes: reading from an empty pipe is
-- answered with the end of file if no descriptor of any process holds its writing end, and with
-- "would block" if one does; writing to it is answered with "broken pipe" if no descriptor of any
-- process holds its reading end, and with the number of bytes that fit if one does.
pub end_of_file :
    (calls : List Call) (id : ℕ) (p : Ipc.Pipe) (output input : List ℕ)
    → get_elem? (run booted calls).pipes id ≡ some p
    → p.is_open ≡ true
    → p.length ≡ 0
    → ((Ipc.read (run booted calls).pipes id output).0 ≡ (
        if writers_in (run booted calls).slots id == 0
        then Ipc.Result.ok (0, output)
        else Ipc.Result.err Ipc.PipeError.would_block))
      × ((Ipc.write (run booted calls).pipes id input).0 ≡ (
          if readers_in (run booted calls).slots id == 0
          then Ipc.Result.err Ipc.PipeError.broken
          else Ipc.Result.ok (min (length input) Ipc.pipe_capacity)))
end_of_file calls id p output input e o n =
    let f = run booted calls in
    let c = run-IsCounted booted calls booted-IsCounted in
    let (r, w) = counts (Balanced-at f.pipes id _ _ c.balance e) in
    (
      read-empty f.pipes id p output e o n
          ∙ ap
              (λ k.
                if k == 0
                then Ipc.Result.ok (0, output)
                else Ipc.Result.err Ipc.PipeError.would_block)
              w,
      write-empty f.pipes id p input e o n
          ∙ ap
              (λ k.
                if k == 0
                then Ipc.Result.err Ipc.PipeError.broken
                else Ipc.Result.ok (min (length input) Ipc.pipe_capacity))
              r,
    )
  where
    counts :
        Holds p
          (readers_in (run booted calls).slots id + 0)
          (writers_in (run booted calls).slots id + 0)
        → (p.readers ≡ readers_in (run booted calls).slots id)
          × (p.writers ≡ writers_in (run booted calls).slots id)
    counts (inl (x, r, w, m)) = (omega (arith, r), omega (arith, w))
    counts (inr (x, r, w)) = cc
