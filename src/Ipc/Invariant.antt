-- ===== src/Ipc/Invariant.antt =====
-- The representation invariant of a pipe, and its content as a queue.
use mathlib.Core.Path.{◌≡◌}
use imagineos.Base.{ℕ, ◌+◌, ◌%◌, ◌≤◌, ◌<◌, true, List, arith}
use imagineos.Base.Lists.{length, length-replicate, All}
use imagineos.Base.Ring.{span, length-span}
use imagineos.Ipc.{Pipe, Table, pipe_capacity, empty, zeros, created}

-- The indices stay inside the array, `tail` is `length` cells behind `head`, and an open pipe has
-- a descriptor left.
pub record IsPipe (p : Pipe) : Type 0 where
  pub cells : length p.buffer ≡ pipe_capacity
  pub head_in : p.head < pipe_capacity
  pub tail_at : p.tail ≡ (p.head + p.length) % pipe_capacity
  pub fits : p.length ≤ pipe_capacity
  pub held : p.is_open ≡ true → 0 < p.readers + p.writers

abbrev pub IsTable : Table → Type 0
IsTable = All IsPipe

-- The bytes in the pipe, oldest first.
unfoldable pub queued : Pipe → List ℕ
queued p = span 0 pipe_capacity p.buffer p.head p.length

pub length-queued : (p : Pipe) → length (queued p) ≡ p.length
unfolding queued
length-queued p = length-span 0 pipe_capacity p.buffer p.head p.length

length-zeros : length zeros ≡ pipe_capacity
unfolding zeros
length-zeros = length-replicate {A = ℕ} pipe_capacity 0

pub empty-IsPipe : IsPipe empty
empty-IsPipe = record {
  cells = length-zeros;
  head_in = omega arith;
  tail_at = omega arith;
  fits = omega arith;
  held = ground arith;
}

pub created-IsPipe : IsPipe created
unfolding created
created-IsPipe = record {
  cells = length-zeros;
  head_in = omega arith;
  tail_at = omega arith;
  fits = omega arith;
  held = omega arith;
}
