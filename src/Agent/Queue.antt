-- ===== src/Agent/Queue.antt =====
-- internal/agent/queue.go: the bounded FIFO of steering and follow-up messages.
pub mod Fifo
mod Samples
use mixi.Base.{
  ℕ, ◌≡◌, Bool, true, Option, none, some, List, [], ◌∷◌, ◌++◌, length, take, drop, leb, ◌==◌,
  if◌then◌else◌,
}

pub data DrainMode : Type 0 where
  drain_all drain_one : DrainMode

pub data QueueError : Type 0 where
  queue_full : QueueError

abbrev pub default_queue_cap : ℕ
default_queue_cap = 64

-- The mutex makes each method one step. `cap` is never negative here: `new_bounded_queue` reads a
-- capacity that is not positive as 0.
pub record BoundedQueue {ℓ} (T : Type ℓ) : Type ℓ where
  pub items : List T
  pub cap : ℕ
  pub mode : DrainMode

module _ {ℓ} {T : Type ℓ} where
  pub new_bounded_queue : ℕ → DrainMode → BoundedQueue T
  new_bounded_queue capacity mode = record {
    items = [];
    cap = if capacity == 0 then default_queue_cap else capacity;
    mode = mode;
  }

  pub push : T → BoundedQueue T → Option QueueError × BoundedQueue T
  push item q =
      if leb q.cap (length q.items)
      then (some queue_full, q)
      else (none, record q { items = q.items ++ item ∷ [] })

  -- how many items one Drain takes
  drain_count : DrainMode → List T → ℕ
  drain_count drain_one items = 1
  drain_count drain_all items = length items

  pub drain : BoundedQueue T → List T × BoundedQueue T
  unfolding drain_count
  drain q =
      if length q.items == 0
      then ([], q)
      else (let n = drain_count q.mode q.items in
          (take n q.items, record q { items = drop n q.items }))

  pub len : BoundedQueue T → ℕ
  len q = length q.items
