-- ===== src/Agent/Queue/Samples.antt =====
-- internal/agent/queue.go: the queue at concrete inputs.
use mixi.Base.{ℕ, ◌≡◌, refl, List, [], ◌∷◌, ◌++◌}
use mixi.Agent.Queue.{drain_one, BoundedQueue}
use mixi.Agent.Queue.Fifo.{Op, push_op, drain_op, start, run, run_fifo}

abbrev pair_queue : BoundedQueue ℕ
pair_queue = record { items = 7 ∷ []; cap = 2; mode = drain_one }

abbrev traffic : List (Op ℕ)
traffic = push_op 8 ∷ push_op 9 ∷ drain_op ∷ push_op 10 ∷ []

-- 9 is refused at capacity, one item is drained, and then there is room again.
traffic_runs : (run traffic (start pair_queue)).accepted ≡ 8 ∷ 10 ∷ []
unfolding run
traffic_runs = refl

run_fifo_example :
    pair_queue.items ++ (run traffic (start pair_queue)).accepted
    ≡ (run traffic (start pair_queue)).drained ++ (run traffic (start pair_queue)).queue.items
run_fifo_example = run_fifo traffic pair_queue
