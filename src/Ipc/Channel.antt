-- ===== src/Ipc/Channel.antt =====
-- What a client may assume of the pipes: each slot is free or holds a queue of at most
-- `pipe_capacity` bytes with its two descriptor counts. No array, no indices.
use imagineos.Base.{
  ℕ, ◌+◌, ◌-◌, min, ◌&&◌, Option, none, some, List, [], ◌∷◌, ◌++◌, ◌==◌, if◌then◌else◌,
  saturating_add,
}
use imagineos.Base.Lists.{length, get_elem?, set, take, drop}
use imagineos.Ipc.{
  PipeError, Result, ok, err, pipe_capacity, Call, new, open_reader, open_writer, drop_reader,
  drop_writer, receive, send, Reply, id_of, status, nothing, received, sent,
}

pub record Channel : Type 0 where
  pub readers : ℕ
  pub writers : ℕ
  pub queue : List ℕ

abbrev pub Slots : Type 0
Slots = List (Option Channel)

abbrev pub first_free : Slots → ℕ → Option ℕ
first_free [] i = none
first_free (none ∷ ps) i = some i
first_free (some c ∷ ps) i = first_free ps (i + 1)

abbrev pub fresh : Channel
fresh = record { readers = 1; writers = 1; queue = [] }

abbrev pub create_at : Slots → Option ℕ → Result ℕ × Slots
create_at s none = (err PipeError.too_many, s)
create_at s (some id) = (ok id, set s id (some fresh))

abbrev pub on_slot :
    {A : Type 0}
    → Slots
    → ℕ
    → (Channel → Result A × Option Channel)
    → Option (Option Channel)
    → Result A × Slots
on_slot s id f none = (err PipeError.invalid, s)
on_slot s id f (some none) = (err PipeError.invalid, s)
on_slot s id f (some (some c)) = let (r, c') = f c in (r, set s id c')

abbrev pub at_slot :
    {A : Type 0} → Slots → ℕ → (Channel → Result A × Option Channel) → Result A × Slots
at_slot s id f = on_slot s id f (get_elem? s id)

-- A channel with no descriptor left is given up, with whatever it still holds.
abbrev pub keep : Channel → Option Channel
keep c = if c.readers == 0 && c.writers == 0 then none else some c

abbrev pub get_in : Channel → List ℕ → List ℕ → Result (ℕ × List ℕ) × Option Channel
get_in c output [] = (if c.writers == 0 then ok (0, output) else err PipeError.would_block, some c)
get_in c output (b ∷ q) =
    let n = min (length output) (length (b ∷ q)) in
    (ok (n, take n (b ∷ q) ++ drop n output), some (record c { queue = drop n (b ∷ q) }))

abbrev pub get : Channel → List ℕ → Result (ℕ × List ℕ) × Option Channel
get c output = get_in c output c.queue

abbrev pub put : Channel → List ℕ → Result ℕ × Option Channel
put c input =
    let room = pipe_capacity - length c.queue in
    if c.readers == 0
    then (err PipeError.broken, some c)
    else if length input == 0
    then (ok 0, some c)
    else if room == 0
    then (err PipeError.would_block, some c)
    else (let n = min (length input) room in
        (ok n, some (record c { queue = c.queue ++ take n input })))

abbrev pub add_reader : Channel → Result Unit × Option Channel
add_reader c = (ok tt, some (record c { readers = saturating_add c.readers 1 }))

abbrev pub add_writer : Channel → Result Unit × Option Channel
add_writer c = (ok tt, some (record c { writers = saturating_add c.writers 1 }))

abbrev pub drop_read : Channel → Result Unit × Option Channel
drop_read c = (ok tt, keep (record c { readers = c.readers - 1 }))

abbrev pub drop_write : Channel → Result Unit × Option Channel
drop_write c = (ok tt, keep (record c { writers = c.writers - 1 }))

unfoldable pub step : Slots → Call → Reply × Slots
step s new = let (r, s') = create_at s (first_free s 0) in (id_of r, s')
step s (open_reader id) = let (r, s') = at_slot s id add_reader in (status r, s')
step s (open_writer id) = let (r, s') = at_slot s id add_writer in (status r, s')
step s (drop_reader id) = (nothing, (at_slot s id drop_read).1)
step s (drop_writer id) = (nothing, (at_slot s id drop_write).1)
step s (receive id output) = let (r, s') = at_slot s id (λ c. get c output) in (received r, s')
step s (send id input) = let (r, s') = at_slot s id (λ c. put c input) in (sent r, s')

unfoldable pub run : Slots → List Call → List Reply × Slots
run s [] = ([], s)
run s (c ∷ cs) = let (r, s') = step s c in let (rs, s'') = run s' cs in (r ∷ rs, s'')
