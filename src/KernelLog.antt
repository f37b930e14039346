-- ===== src/KernelLog.antt =====
-- kernel/src/kernel_log.rs: the ring buffer with the kernel's last messages.
pub mod Contents
mod Tests
use imagineos.Base.{ℕ, zero, suc, ◌+◌, ◌-◌, ◌%◌, min, List, [], ◌∷◌, ◌++◌, ltb, if◌then◌else◌}
use imagineos.Base.Lists.{length, set, take, drop, replicate}

abbrev pub capacity : ℕ
capacity = 4096

pub record LogBuffer : Type 0 where
  pub bytes : List ℕ
  pub next : ℕ
  pub length : ℕ

unfoldable pub new : LogBuffer
new = record { bytes = replicate capacity 0; next = 0; length = 0 }

-- The body of the loop of `append`.
pub push : LogBuffer → ℕ → LogBuffer
push l byte = record {
  bytes = set l.bytes l.next byte;
  next = (l.next + 1) % capacity;
  length = min (l.length + 1) capacity;
}

pub push_all : LogBuffer → List ℕ → LogBuffer
unfolding push
push_all l [] = l
push_all l (byte ∷ bytes) = push_all (push l byte) bytes

-- Of an input longer than the buffer only the tail is stored.
unfoldable pub append : LogBuffer → List ℕ → LogBuffer
unfolding push_all
append l bytes =
    push_all l (if ltb capacity (length bytes) then drop (length bytes - capacity) bytes else bytes)

-- `output[i..i + source.len()].copy_from_slice(source)`
copy_at : List ℕ → ℕ → List ℕ → List ℕ
copy_at output i source = take i output ++ (source ++ drop (i + length source) output)

-- The two copies of `read`, from index `start` on and then from the front of the array.
copy_ring : List ℕ → ℕ → ℕ → List ℕ → List ℕ
unfolding copy_at
copy_ring bytes start count output =
    let first = min count (capacity - start) in
    let output' = copy_at output 0 (take first (drop start bytes)) in
    if ltb first count then copy_at output' first (take (count - first) bytes) else output'

-- The number of bytes copied, and the caller's buffer after the call.
unfoldable pub read : LogBuffer → List ℕ → ℕ × List ℕ
unfolding copy_ring
read l output =
    let count = min l.length (length output) in
    let skipped = l.length - count in
    let start = (l.next + capacity - l.length + skipped) % capacity in
    (count, copy_ring l.bytes start count output)
