-- ===== src/Ipc/Tests.antt =====
-- Runs of the pipes at fixed inputs.
use mathlib.Core.Path.{◌≡◌, refl}
use imagineos.Base.{List, [], ◌∷◌}
use imagineos.Ipc.{
  Table, empty, ok, err, PipeError, Call, new, drop_reader, drop_writer, receive, send, id_of,
  nothing, received, sent, run,
}
use imagineos.Ipc.Channel
use imagineos.Ipc.Invariant.{IsTable, empty-IsPipe}
use imagineos.Ipc.Lift.{slots}
use imagineos.Ipc.Refinement.{run_refines}

abbrev two_pipes : Table
two_pipes = empty ∷ empty ∷ []

two_pipes-IsTable : IsTable two_pipes
two_pipes-IsTable = (empty-IsPipe, (empty-IsPipe, tt))

-- A pipe that is written, read in two parts, and reports its end once the writer is gone.
abbrev talk : List Call
talk =
    new
    ∷ send 0 (1 ∷ 2 ∷ 3 ∷ [])
    ∷ receive 0 (9 ∷ 9 ∷ [])
    ∷ drop_writer 0
    ∷ receive 0 (9 ∷ 9 ∷ [])
    ∷ receive 0 (9 ∷ 9 ∷ [])
    ∷ drop_reader 0
    ∷ send 0 (1 ∷ [])
    ∷ []

answers :
    (Channel.run (slots two_pipes) talk).0
    ≡ id_of (ok 0)
      ∷ sent (ok 3)
      ∷ received (ok (2, 1 ∷ 2 ∷ []))
      ∷ nothing
      ∷ received (ok (1, 3 ∷ 9 ∷ []))
      ∷ received (ok (0, 9 ∷ 9 ∷ []))
      ∷ nothing
      ∷ sent (err PipeError.invalid)
      ∷ []
unfolding Channel.run Channel.step
answers = refl

run_refines_example :
    let (rs, t') = run two_pipes talk in
    ((rs, slots t') ≡ Channel.run (slots two_pipes) talk) × IsTable t'
run_refines_example = run_refines two_pipes talk two_pipes-IsTable
