-- ===== src/KernelLog/Tests.antt =====
-- Runs of the log at fixed inputs.
use imagineos.Base.{ℕ, ◌≡◌, min, [], ◌∷◌, ◌++◌, arith}
use imagineos.Base.Lists.{length, last, drop, length-replicate}
use imagineos.KernelLog.{LogBuffer, capacity, new, append, read}
use imagineos.KernelLog.Contents.{IsLog, contents, append_lem, read_lem}

new-IsLog : IsLog new
unfolding new
new-IsLog = record {
  cells = length-replicate {A = ℕ} capacity 0;
  next_in = omega arith;
  fits = omega arith;
}

abbrev log_hi : LogBuffer
log_hi = append new (104 ∷ 105 ∷ [])

append_lem_example :
    IsLog (append new (104 ∷ 105 ∷ []))
    × (contents (append new (104 ∷ 105 ∷ [])) ≡ last capacity (contents new ++ 104 ∷ 105 ∷ []))
append_lem_example = append_lem new (104 ∷ 105 ∷ []) new-IsLog

log_hi-IsLog : IsLog log_hi
log_hi-IsLog = append_lem_example.0

-- A caller with room for one byte gets the newest one.
read_lem_example :
    let n = min (length (contents log_hi)) 1 in
    read log_hi (0 ∷ []) ≡ (n, last n (contents log_hi) ++ drop n (0 ∷ []))
read_lem_example = read_lem log_hi (0 ∷ []) log_hi-IsLog
