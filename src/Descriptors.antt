-- ===== src/Descriptors.antt =====
-- The descriptor tables of kernel/src/exec/process.rs, with `create_pipe` of
-- kernel/src/abi/syscall.rs: which process holds which end of which pipe. A slot has the two flags
-- of its process and its table; the pipes are the table of Ipc.
pub mod Processes
pub mod Weights
pub mod References
pub mod Places
pub mod Counted
pub mod Calls
pub mod Creation
pub mod Lifecycle
pub mod Forking
pub mod Spawning
pub mod Invariant
mod Tests
use imagineos.Base.{
  ℕ, zero, suc, ◌+◌, Bool, true, false, not, ◌&&◌, ◌||◌, Option, none, some, List, [], ◌∷◌, ltb,
  leb, ◌==◌, if◌then◌else◌,
}
use imagineos.Base.Lists.{length, get_elem?, get_or, set, replicate}
use imagineos.Base.Outcome.{Outcome, ok, err}
use imagineos.Ipc

abbrev pub max_processes : ℕ
max_processes = 16

abbrev pub max_open_fds : ℕ
max_open_fds = 24

pub data DescriptorKind : Type 0 where
  closed stdin stdout stderr file pipe_read pipe_write : DescriptorKind

-- The path and the input are the parts in use.
pub record Descriptor : Type 0 where
  pub kind : DescriptorKind
  pub path : List ℕ
  pub offset : ℕ
  pub flags : ℕ
  pub input : List ℕ
  pub input_offset : ℕ
  pub pipe : ℕ

-- `Descriptor::new`
abbrev pub plain : DescriptorKind → Descriptor
plain kind = record {
  kind = kind;
  path = [];
  offset = 0;
  flags = 0;
  input = [];
  input_offset = 0;
  pipe = 0;
}

-- `Descriptor::CLOSED`
abbrev pub closed_descriptor : Descriptor
closed_descriptor = plain closed

-- `Descriptor::pipe`
abbrev pub pipe_end : DescriptorKind → ℕ → Descriptor
pipe_end kind id = record (plain kind) { pipe = id }

-- `Descriptor::file`
abbrev pub file_at : List ℕ → ℕ → ℕ → Descriptor
file_at path flags offset = record (plain file) { path = path; flags = flags; offset = offset }

abbrev pub DescriptorTable : Type 0
DescriptorTable = List Descriptor

-- `DescriptorTable::new`
abbrev pub new_table : DescriptorTable
new_table = plain stdin ∷ plain stdout ∷ plain stderr ∷ replicate 21 closed_descriptor

pub is_closed : Descriptor → Bool
is_closed d = elim d.kind [ closed ↦ true | _ ↦ false ]

-- The first closed descriptor of the list, whose first has index `i`.
pub find_closed : List Descriptor → ℕ → Option ℕ
find_closed [] i = none
find_closed (d ∷ ds) i = let rest = find_closed ds (i + 1) in if is_closed d then some i else rest

abbrev pub after_standard : DescriptorTable → List Descriptor
after_standard (a ∷ b ∷ c ∷ rest) = rest
after_standard _ = []

-- What follows the search of `allocate`.
pub place : DescriptorTable → Descriptor → Option ℕ → Option (ℕ × DescriptorTable)
place t d none = none
place t d (some slot) = some (slot, set t slot d)

-- `DescriptorTable::allocate`
pub allocate : DescriptorTable → Descriptor → Option (ℕ × DescriptorTable)
allocate t d = place t d (find_closed (after_standard t) 3)

pub record Slot : Type 0 where
  pub active : Bool
  pub zombie : Bool
  pub table : DescriptorTable

pub record Files : Type 0 where
  pub slots : List Slot
  pub pipes : Ipc.Table
  pub current : ℕ

-- A slot that no process has had.
abbrev pub unused : Slot
unused = record { active = false; zombie = false; table = new_table }

abbrev pub table_at : Files → ℕ → DescriptorTable
table_at f slot = (get_or f.slots slot unused).table

abbrev pub with_table : Files → ℕ → DescriptorTable → Files
with_table f slot t = record f {
  slots = set f.slots slot (record (get_or f.slots slot unused) { table = t });
}

-- `descriptor`, for a number that is not open too: the closed descriptor.
abbrev pub held : Files → ℕ → Descriptor
held f fd = get_or (table_at f f.current) fd closed_descriptor

pub descriptor : Files → ℕ → Option Descriptor
descriptor f fd = if is_closed (held f fd) then none else some (held f fd)

pub allocated : Files → Option (ℕ × DescriptorTable) → Option ℕ × Files
allocated f none = (none, f)
allocated f (some (slot, t)) = (some slot, with_table f f.current t)

pub allocate_descriptor : Files → Descriptor → Option ℕ × Files
allocate_descriptor f d = allocated f (allocate (table_at f f.current) d)

pub update_descriptor : Files → ℕ → Descriptor → Bool × Files
update_descriptor f fd d =
    if is_closed (held f fd)
    then (false, f)
    else (true, with_table f f.current (set (table_at f f.current) fd d))

pub release_end : DescriptorKind → ℕ → Ipc.Table → Ipc.Table
release_end pipe_read id pipes = Ipc.close_reader pipes id
release_end pipe_write id pipes = Ipc.close_writer pipes id
release_end _ id pipes = pipes

pub release_pipe_reference : Descriptor → Ipc.Table → Ipc.Table
release_pipe_reference d pipes = release_end d.kind d.pipe pipes

pub take_end : DescriptorKind → ℕ → Ipc.Table → Ipc.Result Unit × Ipc.Table
take_end pipe_read id pipes = Ipc.add_reader pipes id
take_end pipe_write id pipes = Ipc.add_writer pipes id
take_end _ id pipes = (Ipc.Result.ok tt, pipes)

-- The reference that a copy of a descriptor takes.
pub take_reference : Descriptor → Ipc.Table → Ipc.Result Unit × Ipc.Table
take_reference d pipes = take_end d.kind d.pipe pipes

-- The loop of `release_descriptors`.
pub release_each : List Descriptor → Ipc.Table → Ipc.Table
release_each [] pipes = pipes
release_each (d ∷ ds) pipes = release_each ds (release_pipe_reference d pipes)

abbrev pub all_closed : List Descriptor → List Descriptor
all_closed [] = []
all_closed (d ∷ ds) = closed_descriptor ∷ all_closed ds

pub release_descriptors : Files → ℕ → Files
release_descriptors f slot = record (with_table f slot (all_closed (table_at f slot))) {
  pipes = release_each (table_at f slot) f.pipes;
}

pub close_descriptor : Files → ℕ → Bool × Files
close_descriptor f fd = if is_closed (held f fd) then (false, f) else (
  true,
  record (with_table f f.current (set (table_at f f.current) fd closed_descriptor)) {
    pipes = release_pipe_reference (held f fd) f.pipes;
  },
)

-- An errno, without its sign.
abbrev pub Errno : Type 0
Errno = ℕ

-- `allocate_descriptor(..).ok_or_else(..)` of `duplicate_descriptor`.
pub or_give_back : Descriptor → Option ℕ × Files → Outcome Errno ℕ × Files
or_give_back d (some slot, f) = (ok slot, f)
or_give_back d (none, f) = (err 24, record f { pipes = release_pipe_reference d f.pipes })

-- What follows the reference.
pub duplicate_with : Files → Descriptor → Ipc.Result Unit × Ipc.Table → Outcome Errno ℕ × Files
duplicate_with f d (Ipc.Result.err e, pipes) = (err (Ipc.to_errno e), record f { pipes = pipes })
duplicate_with f d (Ipc.Result.ok u, pipes) =
    or_give_back d (allocate_descriptor (record f { pipes = pipes }) d)

pub duplicate_descriptor : Files → ℕ → Outcome Errno ℕ × Files
duplicate_descriptor f fd =
    if is_closed (held f fd)
    then (err 9, f)
    else duplicate_with f (held f fd) (take_reference (held f fd) f.pipes)

pub replace_with : Files → Descriptor → ℕ → Ipc.Result Unit × Ipc.Table → Outcome Errno ℕ × Files
replace_with f d target (Ipc.Result.err e, pipes) =
    (err (Ipc.to_errno e), record f { pipes = pipes })
replace_with f d target (Ipc.Result.ok u, pipes) = (
  ok target,
  record (with_table f f.current (set (table_at f f.current) target d)) {
    pipes = release_pipe_reference (held f target) pipes;
  },
)

pub duplicate_descriptor_to : Files → ℕ → ℕ → Outcome Errno ℕ × Files
duplicate_descriptor_to f source target =
    if leb max_open_fds target
    then (err 9, f)
    else if is_closed (held f source)
    then (err 9, f)
    else if source == target
    then (ok target, f)
    else replace_with f (held f source) target (take_reference (held f source) f.pipes)

-- The end that was allocated, if any, is closed again.
pub close_end : Option ℕ → Files → Files
close_end none f = f
close_end (some fd) f = (close_descriptor f fd).1

-- `create_pipe` once the ends are asked for; `delivered` is what the copy to the caller answers.
pub deliver_ends : ℕ → Bool → Option ℕ → Option ℕ × Files → Outcome Errno (ℕ × ℕ) × Files
deliver_ends id delivered (some r) (some w, f) =
    if delivered then (ok (r, w), f) else (err 14, close_end (some w) (close_end (some r) f))
deliver_ends id delivered r (w, f) =
    let f' = close_end w (close_end r f) in
    (err 24, record f' { pipes = Ipc.close_writer (Ipc.close_reader f'.pipes id) id })

pub create_ends : Files → Bool → Ipc.Result ℕ × Ipc.Table → Outcome Errno (ℕ × ℕ) × Files
create_ends f delivered (Ipc.Result.err e, pipes) =
    (err (Ipc.to_errno e), record f { pipes = pipes })
create_ends f delivered (Ipc.Result.ok id, pipes) =
    let (r, f1) = allocate_descriptor (record f { pipes = pipes }) (pipe_end pipe_read id) in
    deliver_ends id delivered r (allocate_descriptor f1 (pipe_end pipe_write id))

pub create_pipe : Files → Bool → Outcome Errno (ℕ × ℕ) × Files
create_pipe f delivered = create_ends f delivered (Ipc.create f.pipes)
