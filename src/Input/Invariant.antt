-- ===== src/Input/Invariant.antt =====
-- The representation invariant of the input queue.
use imagineos.Base.{◌+◌, ◌%◌, ◌≤◌, ◌<◌, ◌≡◌, List, arith}
use imagineos.Base.Lists.{length, length-replicate}
use imagineos.Base.Ring.{span, length-span}
use imagineos.Base.Int.{pos, ◌≤ℤ◌}
use imagineos.Input.{Queue, InputEvent, capacity, empty, new}

-- The ring is in order.
pub record IsRing (q : Queue) : Type 0 where
  pub cells : length q.events ≡ capacity
  pub head_in : q.head < capacity
  pub tail_at : q.tail ≡ (q.head + q.length) % capacity
  pub fits : q.length ≤ capacity

-- The pointer is on the screen.
pub record IsOnScreen (q : Queue) : Type 0 where
  pub left : pos 0 ≤ℤ q.pointer_x
  pub right : q.pointer_x ≤ℤ q.pointer_max_x
  pub top : pos 0 ≤ℤ q.pointer_y
  pub bottom : q.pointer_y ≤ℤ q.pointer_max_y

-- The waiting events, oldest first.
unfoldable pub waiting : Queue → List InputEvent
waiting q = span empty capacity q.events q.head q.length

pub length-waiting : (q : Queue) → length (waiting q) ≡ q.length
unfolding waiting
length-waiting q = length-span empty capacity q.events q.head q.length

pub new-IsRing : IsRing new
unfolding new
new-IsRing = record {
  cells = length-replicate capacity empty;
  head_in = omega arith;
  tail_at = omega arith;
  fits = omega arith;
}

pub new-IsOnScreen : IsOnScreen new
unfolding new
new-IsOnScreen = omega arith
