-- ===== src/Ipc.antt =====
-- kernel/src/ipc.rs: the pipes of the kernel. The global table `PIPES` is a list of pipes that
-- every operation takes and gives back; a `PipeId` is an index into it.
pub mod Channel
pub mod Invariant
pub mod Lift
pub mod Transfer
pub mod Refinement
pub mod Counts
pub mod Ends
pub mod Creation
pub mod Traffic
mod Tests
use imagineos.Base.{
  ℕ, zero, suc, ◌+◌, ◌-◌, ◌%◌, min, Bool, true, false, not, ◌&&◌, Option, none, some, List, [], ◌∷◌,
  ltb, leb, ◌==◌, if◌then◌else◌, u64_max, saturating_add,
}
use imagineos.Base.Lists.{length, get_elem?, get_or, set, take, replicate}

-- PIPE_CAPACITY and MAX_PIPES of shared/abi.
abbrev pub pipe_capacity : ℕ
pipe_capacity = 4096

abbrev pub max_pipes : ℕ
max_pipes = 8

pub data PipeError : Type 0 where
  too_many invalid would_block broken : PipeError

-- The errno, without its sign.
unfoldable pub to_errno : PipeError → ℕ
to_errno PipeError.too_many = 23
to_errno PipeError.invalid = 9
to_errno PipeError.would_block = 11
to_errno PipeError.broken = 32

pub data Result (A : Type 0) : Type 0 where
  ok : A → Result A
  err : PipeError → Result A

pub record Pipe : Type 0 where
  pub is_open : Bool
  pub readers : ℕ
  pub writers : ℕ
  pub head : ℕ
  pub tail : ℕ
  pub length : ℕ
  pub buffer : List ℕ

-- `Pipe::EMPTY`. A block of the buffer is left shut, so that proofs do not count its cells.
pub zeros : List ℕ
zeros = replicate pipe_capacity 0

abbrev pub empty : Pipe
empty = record {
  is_open = false;
  readers = 0;
  writers = 0;
  head = 0;
  tail = 0;
  length = 0;
  buffer = zeros;
}

abbrev pub Table : Type 0
Table = List Pipe

-- `pipes.iter().position(|pipe| !pipe.open)`, from index `i` on.
unfoldable pub free_slot : Table → ℕ → Option ℕ
free_slot [] i = none
free_slot (p ∷ ps) i = let rest = free_slot ps (i + 1) in if not p.is_open then some i else rest

unfoldable pub created : Pipe
created = record empty { is_open = true; readers = 1; writers = 1 }

unfoldable pub create_at : Table → Option ℕ → Result ℕ × Table
create_at pipes none = (err PipeError.too_many, pipes)
create_at pipes (some id) = (ok id, set pipes id created)

unfoldable pub create : Table → Result ℕ × Table
unfolding create_at
create pipes = create_at pipes (free_slot pipes 0)

unfoldable pub when_open : Option Pipe → Result Pipe
when_open none = err PipeError.invalid
when_open (some p) = if not p.is_open then err PipeError.invalid else ok p

-- The lookup that every operation begins with.
unfoldable pub pipe : Table → ℕ → Result Pipe
unfolding when_open
pipe pipes id = when_open (get_elem? pipes id)

-- An update in place of the pipe that the lookup gave: `f` gives the reply and the new pipe.
unfoldable pub update :
    {A : Type 0} → Table → ℕ → (Pipe → Result A × Pipe) → Result Pipe → Result A × Table
update pipes id f (ok p) = let (reply, p') = f p in (reply, set pipes id p')
update pipes id f (err e) = (err e, pipes)

-- `let pipe = pipe(id)?` and what follows it.
unfoldable pub with_pipe : {A : Type 0} → Table → ℕ → (Pipe → Result A × Pipe) → Result A × Table
unfolding update pipe
with_pipe pipes id f = update pipes id f (pipe pipes id)

unfoldable pub add_reader : Table → ℕ → Result Unit × Table
unfolding with_pipe
add_reader pipes id =
    with_pipe pipes id (λ p. (ok tt, record p { readers = saturating_add p.readers 1 }))

unfoldable pub add_writer : Table → ℕ → Result Unit × Table
unfolding with_pipe
add_writer pipes id =
    with_pipe pipes id (λ p. (ok tt, record p { writers = saturating_add p.writers 1 }))

-- The pipe is recycled once both counts are zero.
unfoldable pub recycle : Pipe → Pipe
recycle p = if p.readers == 0 && p.writers == 0 then empty else p

unfoldable pub release_reader : Pipe → Pipe
unfolding recycle
release_reader p = recycle (record p { readers = p.readers - 1 })

unfoldable pub release_writer : Pipe → Pipe
unfolding recycle
release_writer p = recycle (record p { writers = p.writers - 1 })

-- These return nothing: on a bad id they do nothing.
unfoldable pub close_reader : Table → ℕ → Table
unfolding with_pipe release_reader
close_reader pipes id = (with_pipe pipes id (λ p. (ok tt, release_reader p))).1

unfoldable pub close_writer : Table → ℕ → Table
unfolding with_pipe release_writer
close_writer pipes id = (with_pipe pipes id (λ p. (ok tt, release_writer p))).1

-- The loop of `read`: `n` rounds are left and `offset` is the next cell of `output`.
pub take_out : ℕ → ℕ → Pipe → List ℕ → Pipe × List ℕ
take_out zero offset p output = (p, output)
take_out (suc n) offset p output =
    take_out n (offset + 1) (record p { head = (p.head + 1) % pipe_capacity })
      (set output offset (get_or p.buffer p.head 0))

-- One open pipe: the reply with the bytes of the caller's buffer after the call, and the pipe.
-- `pipe.length -= length` runs only at `length ≤ pipe.length`.
pub read_pipe : Pipe → List ℕ → Result (ℕ × List ℕ) × Pipe
unfolding take_out
read_pipe p output =
    let n = min (length output) p.length in
    let (p', output') = take_out n 0 p output in
    if p.length == 0
    then (if p.writers == 0 then (ok (0, output), p) else (err PipeError.would_block, p))
    else (ok (n, output'), record p' { length = p.length - n })

pub read : Table → ℕ → List ℕ → Result (ℕ × List ℕ) × Table
unfolding with_pipe read_pipe
read pipes id output = with_pipe pipes id (λ p. read_pipe p output)

-- The loop of `write`, over the bytes that fit.
pub put_in : List ℕ → Pipe → Pipe
put_in [] p = p
put_in (byte ∷ bytes) p =
    put_in bytes
      (record p { buffer = set p.buffer p.tail byte; tail = (p.tail + 1) % pipe_capacity })

pub write_pipe : Pipe → List ℕ → Result ℕ × Pipe
unfolding put_in
write_pipe p input =
    let n = min (length input) (pipe_capacity - p.length) in
    let p' = put_in (take n input) p in
    if p.readers == 0
    then (err PipeError.broken, p)
    else if length input == 0
    then (ok 0, p)
    else if p.length == pipe_capacity
    then (err PipeError.would_block, p)
    else (ok n, record p' { length = p.length + n })

pub write : Table → ℕ → List ℕ → Result ℕ × Table
unfolding with_pipe write_pipe
write pipes id input = with_pipe pipes id (λ p. write_pipe p input)

-- A client's calls in any order, with what each returns.
pub data Call : Type 0 where
  new : Call
  open_reader open_writer drop_reader drop_writer : ℕ → Call
  receive send : ℕ → List ℕ → Call

pub data Reply : Type 0 where
  id_of : Result ℕ → Reply
  status : Result Unit → Reply
  nothing : Reply
  received : Result (ℕ × List ℕ) → Reply
  sent : Result ℕ → Reply

pub step : Table → Call → Reply × Table
step t new = let (r, t') = create t in (id_of r, t')
step t (open_reader id) = let (r, t') = add_reader t id in (status r, t')
step t (open_writer id) = let (r, t') = add_writer t id in (status r, t')
step t (drop_reader id) = (nothing, close_reader t id)
step t (drop_writer id) = (nothing, close_writer t id)
step t (receive id output) = let (r, t') = read t id output in (received r, t')
step t (send id input) = let (r, t') = write t id input in (sent r, t')

pub run : Table → List Call → List Reply × Table
run t [] = ([], t)
run t (c ∷ cs) = let (r, t') = step t c in let (rs, t'') = run t' cs in (r ∷ rs, t'')
