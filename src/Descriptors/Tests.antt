-- ===== src/Descriptors/Tests.antt =====
-- Runs of the descriptor tables: a shell that joins two programs by a pipe.
use imagineos.Base.{◌≡◌, refl, List, [], ◌∷◌, none, some, true, if◌then◌else◌, ◌==◌}
use imagineos.Base.Lists.{get_elem?}
use imagineos.Ipc
use imagineos.Descriptors
use imagineos.Descriptors.Processes.{
  Call, make_pipe, spawn, close, exit, resume, run, booted, step, is_alive, switch, exit_to,
  exit_current, spawn_current, apply_spawn_io, install, free_process,
}
use imagineos.Descriptors.Weights.{readers_in, writers_in}
use imagineos.Descriptors.Counted.{IsCounted}
use imagineos.Descriptors.Invariant.{run-IsCounted, booted-IsCounted, end_of_file}

-- The shell makes a pipe, hands its writing end to one program and its reading end to another, and
-- closes its own ends; the writer ends.
abbrev pipeline : List Call
pipeline =
    make_pipe true
    ∷ spawn true none (some 4) none
    ∷ spawn true (some 3) none none
    ∷ close 3
    ∷ close 4
    ∷ resume 1
    ∷ exit 2
    ∷ []

-- The pipe of the reader, after the writer has ended.
abbrev waiting : Ipc.Pipe
waiting = record Ipc.empty { is_open = true; readers = 1 }

run-IsCounted_example : IsCounted (run booted pipeline)
run-IsCounted_example = run-IsCounted booted pipeline booted-IsCounted

pipeline_pipe : get_elem? (run booted pipeline).pipes 0 ≡ some waiting
unfolding run step is_alive switch exit_to exit_current spawn_current apply_spawn_io install
    free_process Descriptors.create_pipe Descriptors.create_ends Descriptors.deliver_ends
    Descriptors.close_end Descriptors.close_descriptor Descriptors.is_closed
    Descriptors.release_pipe_reference Descriptors.release_end Descriptors.take_reference
    Descriptors.take_end Descriptors.release_descriptors Descriptors.release_each
    Descriptors.allocate_descriptor Descriptors.allocated Descriptors.allocate Descriptors.place
    Descriptors.find_closed Ipc.create Ipc.create_at Ipc.created Ipc.free_slot Ipc.add_reader
    Ipc.add_writer Ipc.close_reader Ipc.close_writer Ipc.recycle Ipc.release_reader
    Ipc.release_writer Ipc.with_pipe Ipc.update Ipc.pipe Ipc.when_open
pipeline_pipe = refl

-- The reader sees the end of file.
end_of_file_example :
    ((Ipc.read (run booted pipeline).pipes 0 (0 ∷ [])).0 ≡ (
      if writers_in (run booted pipeline).slots 0 == 0
      then Ipc.Result.ok (0, 0 ∷ [])
      else Ipc.Result.err Ipc.PipeError.would_block))
    × ((Ipc.write (run booted pipeline).pipes 0 (7 ∷ [])).0 ≡ (
        if readers_in (run booted pipeline).slots 0 == 0
        then Ipc.Result.err Ipc.PipeError.broken
        else Ipc.Result.ok 1))
end_of_file_example = end_of_file pipeline 0 waiting (0 ∷ []) (7 ∷ []) pipeline_pipe refl refl
