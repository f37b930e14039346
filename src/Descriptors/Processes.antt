-- ===== src/Descriptors/Processes.antt =====
-- kernel/src/exec/process.rs: what becomes of the descriptor tables when processes begin and end,
-- and the calls that change them, in any order.
use imagineos.Base.{
  ℕ, ◌+◌, Bool, true, false, not, ◌&&◌, ◌||◌, Option, none, some, List, [], ◌∷◌, leb, if◌then◌else◌,
}
use imagineos.Base.Lists.{get_or, set, replicate}
use imagineos.Ipc
use imagineos.Descriptors.{
  Descriptor, DescriptorTable, Slot, Files, max_open_fds, new_table, closed_descriptor, file_at,
  unused, table_at, held, is_closed, allocate_descriptor, update_descriptor, take_reference,
  release_descriptors, close_descriptor, duplicate_descriptor, duplicate_descriptor_to, create_pipe,
}

-- `processes.iter().position(|process| !process.active)`, from slot `i` on.
unfoldable pub free_process : List Slot → ℕ → Option ℕ
free_process [] i = none
free_process (s ∷ ss) i =
    let rest = free_process ss (i + 1) in if not s.active then some i else rest

-- A reference for each descriptor of a copied table; what the pipes answer is dropped.
unfoldable pub take_each : List Descriptor → Ipc.Table → Ipc.Table
take_each [] pipes = pipes
take_each (d ∷ ds) pipes = take_each ds (take_reference d pipes).1

-- A process begins in a slot, with this table.
abbrev pub begin : Files → ℕ → DescriptorTable → Ipc.Table → Files
begin f slot t pipes = record f {
  slots = set f.slots slot (record { active = true; zombie = false; table = t });
  pipes = pipes;
}

abbrev pub fork_into : Files → Option ℕ → Option ℕ × Files
fork_into f none = (none, f)
fork_into f (some slot) =
    (some slot, begin f slot (table_at f f.current) (take_each (table_at f f.current) f.pipes))

-- `fork_current`; `cloned` is whether the address space could be copied.
unfoldable pub fork_current : Files → Bool → Option ℕ × Files
fork_current f cloned = if cloned then fork_into f (free_process f.slots 0) else (none, f)

-- One round of `apply_spawn_io`. The source is a number that is not negative; `INHERIT` and the
-- other negative numbers are none.
unfoldable pub install :
    DescriptorTable → ℕ → Option ℕ → DescriptorTable × Ipc.Table → DescriptorTable × Ipc.Table
install parent target none (child, pipes) = (child, pipes)
install parent target (some source) (child, pipes) =
    let d = get_or parent source closed_descriptor in
    if leb max_open_fds source || is_closed d
    then (child, pipes)
    else (set child target d, (take_reference d pipes).1)

unfoldable pub apply_spawn_io :
    DescriptorTable
    → Option ℕ
    → Option ℕ
    → Option ℕ
    → DescriptorTable × Ipc.Table
    → DescriptorTable × Ipc.Table
apply_spawn_io parent io0 io1 io2 s =
    install parent 2 io2 (install parent 1 io1 (install parent 0 io0 s))

abbrev pub spawn_into : Files → Option ℕ → Option ℕ → Option ℕ → Option ℕ → Option ℕ × Files
spawn_into f io0 io1 io2 none = (none, f)
spawn_into f io0 io1 io2 (some slot) =
    let (t, pipes) = apply_spawn_io (table_at f f.current) io0 io1 io2 (new_table, f.pipes) in
    (some slot, begin f slot t pipes)

-- `spawn_current_with_io`; `loaded` is whether there is such a program and it could be loaded.
unfoldable pub spawn_current : Files → Bool → Option ℕ → Option ℕ → Option ℕ → Option ℕ × Files
spawn_current f loaded io0 io1 io2 =
    if loaded then spawn_into f io0 io1 io2 (free_process f.slots 0) else (none, f)

-- What `schedule` does to the tables when the current process ends.
unfoldable pub exit_current : Files → Files
exit_current f =
    let f' = release_descriptors f f.current in
    record f' {
      slots =
          set f'.slots f'.current (record (get_or f'.slots f'.current unused) { zombie = true });
    }

unfoldable pub is_alive : Slot → Bool
is_alive s = s.active && not s.zombie

-- The kernel goes on with another process, any that is left. Where none is left it halts, and there
-- is no state after that: the step is none.
unfoldable pub exit_to : Files → Files → ℕ → Files
exit_to before f next =
    if is_alive (get_or f.slots next unused) then record f { current = next } else before

-- What `reap_child` does to the slot that it collects: a zombie's.
unfoldable pub reap : Files → ℕ → Files
reap f slot =
    let s = get_or f.slots slot unused in
    if s.active && s.zombie
    then record f { slots = set f.slots slot (record s { active = false; zombie = false }) }
    else f

-- The kernel goes on with another process: any that is active and no zombie, so that every choice of
-- the scheduler is covered.
unfoldable pub switch : Files → ℕ → Files
switch f slot = if is_alive (get_or f.slots slot unused) then record f { current = slot } else f

-- The calls of all processes and the steps of the kernel between them. `seek` stands for the
-- calls that move the offset or the input of an open descriptor.
pub data Call : Type 0 where
  open_file : List ℕ → ℕ → ℕ → Call
  seek : ℕ → ℕ → List ℕ → ℕ → Call
  close duplicate : ℕ → Call
  duplicate_to : ℕ → ℕ → Call
  make_pipe fork : Bool → Call
  spawn : Bool → Option ℕ → Option ℕ → Option ℕ → Call
  exit collect resume : ℕ → Call
  receive send : ℕ → List ℕ → Call

unfoldable pub step : Files → Call → Files
step f (open_file path flags offset) = (allocate_descriptor f (file_at path flags offset)).1
step f (seek fd offset input input_offset) =
    (update_descriptor f fd
      (record (held f fd) { offset = offset; input = input; input_offset = input_offset })).1
step f (close fd) = (close_descriptor f fd).1
step f (duplicate fd) = (duplicate_descriptor f fd).1
step f (duplicate_to source target) = (duplicate_descriptor_to f source target).1
step f (make_pipe delivered) = (create_pipe f delivered).1
step f (fork cloned) = (fork_current f cloned).1
step f (spawn loaded io0 io1 io2) = (spawn_current f loaded io0 io1 io2).1
step f (exit next) = exit_to f (exit_current f) next
step f (collect slot) = reap f slot
step f (resume slot) = switch f slot
step f (receive id output) = record f { pipes = (Ipc.read f.pipes id output).1 }
step f (send id input) = record f { pipes = (Ipc.write f.pipes id input).1 }

unfoldable pub run : Files → List Call → Files
run f [] = f
run f (c ∷ cs) = run (step f c) cs

-- After `init`, with a process in the first slot.
abbrev pub booted : Files
booted = record {
  slots = record unused { active = true } ∷ replicate 15 unused;
  pipes = replicate Ipc.max_pipes Ipc.empty;
  current = 0;
}
