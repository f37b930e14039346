-- ===== src/Ipc/Refinement.antt =====
-- The pipes refine the channels of `Ipc.Channel`.
use native.Mathlib.Decide.{ℕ_discrete}
use imagineos.Base.{
  ℕ, ◌+◌, ◌-◌, ◌%◌, ◌≤◌, ◌<◌, min, ◌≡◌, ◌≢◌, refl, sym, ap, ◌∙◌, Option, none, some, List, [], ◌∷◌,
  ◌++◌, arith, inl, inr, ◌⊎◌,
}
use imagineos.Base.Lists.{length, take, drop, length-take}
use imagineos.Base.Ring.{span, span_split, length-span, span-mod}
use imagineos.Ipc.{
  Pipe, Table, ok, pipe_capacity, created, free_slot, create_at, create, release_reader,
  release_writer, read_pipe, write_pipe, add_reader, add_writer, close_reader, close_writer, read,
  write, put_in, saturating_add, Call, new, open_reader, open_writer, drop_reader, drop_writer,
  receive, send, step, run, id_of, status, nothing, received, sent,
}
use imagineos.Ipc.Channel
use imagineos.Ipc.Channel.{Channel, Slots}
use imagineos.Ipc.Lift.{
  Refines, chan, slots, map-set, IsTable-set, with_pipe-same, with_pipe-IsTable,
}
use imagineos.Ipc.Invariant.{IsPipe, IsTable, queued, length-queued, empty-IsPipe, created-IsPipe}
use imagineos.Ipc.Transfer.{take_out_lem, overwrite-zero, Stored, put_in-Stored}

add_reader-Refines :
    Refines (λ p. (ok tt, record p { readers = saturating_add p.readers 1 })) Channel.add_reader
unfolding queued
add_reader-Refines = record {
  valid = λ p v e. record {
    cells = v.cells;
    head_in = v.head_in;
    tail_at = v.tail_at;
    fits = v.fits;
    held = λ _. omega arith;
  };
  same = λ p v e. rw e;
}

release_reader-Refines : Refines (λ p. (ok tt, release_reader p)) Channel.drop_read
unfolding queued release_reader
release_reader-Refines = record {
  valid = λ p v e. ground (arith, empty-IsPipe);
  same = λ p v e. ground arith;
}

add_writer-Refines :
    Refines (λ p. (ok tt, record p { writers = saturating_add p.writers 1 })) Channel.add_writer
unfolding queued
add_writer-Refines = record {
  valid = λ p v e. record {
    cells = v.cells;
    head_in = v.head_in;
    tail_at = v.tail_at;
    fits = v.fits;
    held = λ _. omega arith;
  };
  same = λ p v e. rw e;
}

release_writer-Refines : Refines (λ p. (ok tt, release_writer p)) Channel.drop_write
unfolding queued release_writer
release_writer-Refines = record {
  valid = λ p v e. ground (arith, empty-IsPipe);
  same = λ p v e. ground arith;
}

-- `read` on a pipe that holds something, in closed form.
read_some :
    (p : Pipe) (output : List ℕ)
    → p.head < pipe_capacity
    → p.length ≢ 0
    → let n = min (length output) p.length in
      read_pipe p output ≡ (
        ok (n, take n (queued p) ++ drop n output),
        record p { head = (p.head + n) % pipe_capacity; length = p.length - n },
      )
unfolding read_pipe queued
read_some p output h ne =
    let n : ℕ = min (length output) p.length in
    ground (
      arith,
      take_out_lem n 0 p output h,
      overwrite-zero output (span 0 pipe_capacity p.buffer p.head n),
      length-span 0 pipe_capacity p.buffer p.head n,
      (span_split 0 pipe_capacity p.buffer p.head n p.length (omega arith)).0,
    )

read_none :
    (p : Pipe) (output : List ℕ)
    → p.length ≡ 0
    → read_pipe p output ≡ ((Channel.get_in (chan p) output []).0, p)
unfolding read_pipe
read_none p output z = ground arith

-- What is left of a queue is in the pipe after a read.
queued-read :
    (p : Pipe) (n : ℕ)
    → n ≤ p.length
    → queued (record p { head = (p.head + n) % pipe_capacity; length = p.length - n })
      ≡ drop n (queued p)
unfolding queued
queued-read p n h =
    span-mod 0 pipe_capacity p.buffer (p.head + n) (p.length - n)
    ∙ sym (span_split 0 pipe_capacity p.buffer p.head n p.length h).1

get_some :
    (c : Channel) (output q : List ℕ)
    → length q ≢ 0
    → let n = min (length output) (length q) in
      Channel.get_in c output q
      ≡ (ok (n, take n q ++ drop n output), some (record c { queue = drop n q }))
get_some c output [] ne = absurd (omega arith)
get_some c output (b ∷ q) ne = refl

queued_none : (p : Pipe) → p.length ≡ 0 → queued p ≡ []
unfolding queued
queued_none p z = rw z

read-Refines : (output : List ℕ) → Refines (λ p. read_pipe p output) (λ c. Channel.get c output)
read-Refines output = record {
  valid = λ p v e. elim (ℕ_discrete p.length 0) [
    | yes z ↦ rw (read_none p output z) v
    | no ne ↦ rw (read_some p output v.head_in ne) (record {
      cells = v.cells;
      head_in = omega arith;
      tail_at = omega arith;
      fits = omega arith;
      held = v.held;
    })
  ];
  same = λ p v e. elim (ℕ_discrete p.length 0) [
    | yes z ↦ rw (read_none p output z) (ground (arith, queued_none p z))
    | no ne ↦ rw (read_some p output v.head_in ne) (
        ground (
          arith,
          get_some (chan p) output (queued p),
          queued-read p (min (length output) p.length),
          length-queued p,
        ))
  ];
}

-- A pipe after `write` stored `bytes` in it.
record Grown (p : Pipe) (bytes : List ℕ) (p' : Pipe) : Type 0 where
  valid : IsPipe p'
  still_open : p'.is_open ≡ p.is_open
  content : chan p' ≡ record (chan p) { queue = queued p ++ bytes }

put_in-Grown :
    (p : Pipe) (bytes : List ℕ)
    → IsPipe p
    → p.length + length bytes ≤ pipe_capacity
    → Grown p bytes (record (put_in bytes p) { length = p.length + length bytes })
unfolding queued
put_in-Grown p bytes v h = record {
  valid = record {
    cells = stored.cells ∙ v.cells;
    head_in = omega (arith, ap (λ (q : Pipe). q.head) stored.same, v.head_in);
    tail_at = omega (
      arith,
      ap (λ (q : Pipe). q.head) stored.same,
      ap (λ (q : Pipe). q.tail) stored.same,
      v.tail_at,
    );
    fits = h;
    held = ground (arith, stored.same, v.held);
  };
  still_open = ap (λ (q : Pipe). q.is_open) stored.same;
  content = ground (arith, stored.same, stored.content p.length v.tail_at h);
}
  where
    stored : Stored p bytes (put_in bytes p)
    stored = put_in-Stored bytes p (omega (arith, v.tail_at)) v.cells

write_some :
    (p : Pipe) (input : List ℕ)
    → p.readers ≢ 0
    → length input ≢ 0
    → p.length ≢ pipe_capacity
    → let n = min (length input) (pipe_capacity - p.length) in
      write_pipe p input ≡ (ok n, record (put_in (take n input) p) { length = p.length + n })
unfolding write_pipe
write_some p input r i f = ground arith

write_nothing :
    (p : Pipe) (input : List ℕ)
    → (p.readers ≡ 0) ⊎ (length input ≡ 0) ⊎ (p.length ≡ pipe_capacity)
    → (write_pipe p input).1 ≡ p
unfolding write_pipe
write_nothing p input r = ground arith

-- `write` stores exactly the bytes that fit.
write_Grown :
    (p : Pipe) (input : List ℕ)
    → IsPipe p
    → let n = min (length input) (pipe_capacity - p.length) in
      Grown p (take n input) (record (put_in (take n input) p) { length = p.length + n })
write_Grown p input v =
    let n : ℕ = min (length input) (pipe_capacity - p.length) in
    let e : length (take n input) ≡ n = omega (arith, length-take n input) in
    rw e at (put_in-Grown p (take n input) v (omega (arith, e)))

-- Does `write` store anything?
Blocked : Pipe → List ℕ → Type 0
Blocked p input = (p.readers ≡ 0) ⊎ (length input ≡ 0) ⊎ (p.length ≡ pipe_capacity)

blocked? : (p : Pipe) (input : List ℕ) → Dec (Blocked p input)
unfolding Blocked
blocked? p input = elim (ℕ_discrete p.readers 0) [
  | yes r ↦ yes (inl r)
  | no r ↦ elim (ℕ_discrete (length input) 0) [
    | yes i ↦ yes (inr (inl i))
    | no i ↦ elim (ℕ_discrete p.length pipe_capacity) [
      | yes f ↦ yes (inr (inr f))
      | no f ↦ no (λ h. ground arith)
    ]
  ]
]

write-Refines : (input : List ℕ) → Refines (λ p. write_pipe p input) (λ c. Channel.put c input)
unfolding Blocked
write-Refines input = record {
  valid = λ p v e. elim (blocked? p input) [
    | yes b ↦ rw (write_nothing p input b) v
    | no b ↦
        rw (write_some p input (λ r. b (inl r)) (λ i. b (inr (inl i))) (λ f. b (inr (inr f))))
          ((write_Grown p input v).valid)
  ];
  same = λ p v e. elim (blocked? p input) [
    | yes b ↦ unfold write_pipe in ground (arith, length-queued p)
    | no b ↦
        let g = write_Grown p input v in
        rw (write_some p input (λ r. b (inl r)) (λ i. b (inr (inl i))) (λ f. b (inr (inr f))))
          (ground (arith, g.still_open, g.content, length-queued p))
  ];
}

free_slot-first_free : (t : Table) (i : ℕ) → free_slot t i ≡ Channel.first_free (slots t) i
unfolding free_slot
free_slot-first_free [] i = refl
free_slot-first_free (p ∷ t) i = ground (arith, free_slot-first_free t (i + 1))

create_at-same :
    (t : Table) (o : Option ℕ)
    → let (r, t') = create_at t o in (r, slots t') ≡ Channel.create_at (slots t) o
unfolding create_at created queued
create_at-same t none = refl
create_at-same t (some id) = ap (λ s. (ok id, s)) (map-set t id created)

create-same :
    (t : Table)
    → let (r, t') = create t in
      (r, slots t') ≡ Channel.create_at (slots t) (Channel.first_free (slots t) 0)
unfolding create
create-same t = rw (← free_slot-first_free t 0) (create_at-same t (free_slot t 0))

create_at-IsTable : (t : Table) (o : Option ℕ) → IsTable t → IsTable (create_at t o).1
unfolding create_at
create_at-IsTable t none v = v
create_at-IsTable t (some id) v = IsTable-set t id v created-IsPipe

-- Every call keeps the representation of every pipe in order.
step-IsTable : (t : Table) (c : Call) → IsTable t → IsTable (step t c).1
unfolding step
step-IsTable t new v = unfold create in create_at-IsTable t (free_slot t 0) v
step-IsTable t (open_reader id) v = unfold add_reader in with_pipe-IsTable add_reader-Refines t id v
step-IsTable t (open_writer id) v = unfold add_writer in with_pipe-IsTable add_writer-Refines t id v
step-IsTable t (drop_reader id) v =
    unfold close_reader in with_pipe-IsTable release_reader-Refines t id v
step-IsTable t (drop_writer id) v =
    unfold close_writer in with_pipe-IsTable release_writer-Refines t id v
step-IsTable t (receive id output) v = unfold read in with_pipe-IsTable (read-Refines output) t id v
step-IsTable t (send id input) v = unfold write in with_pipe-IsTable (write-Refines input) t id v

-- Every call is answered as the channels answer it, and leaves what they hold.
step-same :
    (t : Table) (c : Call)
    → IsTable t
    → let (r, t') = step t c in (r, slots t') ≡ Channel.step (slots t) c
unfolding step Channel.step
step-same t new v = ap (λ o. (id_of o.0, o.1)) (create-same t)
step-same t (open_reader id) v =
    unfold add_reader in ap (λ o. (status o.0, o.1)) (with_pipe-same add_reader-Refines t id v)
step-same t (open_writer id) v =
    unfold add_writer in ap (λ o. (status o.0, o.1)) (with_pipe-same add_writer-Refines t id v)
step-same t (drop_reader id) v =
    unfold close_reader in ap (λ o. (nothing, o.1)) (with_pipe-same release_reader-Refines t id v)
step-same t (drop_writer id) v =
    unfold close_writer in ap (λ o. (nothing, o.1)) (with_pipe-same release_writer-Refines t id v)
step-same t (receive id output) v =
    unfold read in ap (λ o. (received o.0, o.1)) (with_pipe-same (read-Refines output) t id v)
step-same t (send id input) v =
    unfold write in ap (λ o. (sent o.0, o.1)) (with_pipe-same (write-Refines input) t id v)

-- From a table in order, any sequence of pipe calls gets the replies that the bounded queues with
-- descriptor counts give, ends with the same contents, and the table is in order again.
pub run_refines :
    (t : Table) (cs : List Call)
    → IsTable t
    → let (rs, t') = run t cs in ((rs, slots t') ≡ Channel.run (slots t) cs) × IsTable t'
unfolding run Channel.run
run_refines t [] v = (refl, v)
run_refines t (c ∷ cs) v =
    let (same, v') = run_refines (step t c).1 cs (step-IsTable t c v) in
    (ground (arith, same, step-same t c v), v')
