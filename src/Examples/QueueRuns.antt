-- ===== src/Examples/QueueRuns.antt =====
-- The queue of the logging threads at concrete calls.
use kv.Prelude.{ℕ, ◌≡◌, some, List, [], ◌∷◌, false}
use kv.Prelude.Int.{pos}
use kv.Log.BlockQueue.{BlockQueue, block_queue}
use kv.Log.BlockQueue.Bounded.{
  Operation, push_item, pop_item, pop_in_time, close_queue, see_back, performed, promised, results,
}
use kv.Log.BlockQueue.Refinement.{results-block_queue}

-- The ring turns round, and the queue is full once.
abbrev calls : List (Operation ℕ)
calls =
    push_item 1
    ∷ push_item 2
    ∷ push_item 3
    ∷ pop_item
    ∷ push_item 4
    ∷ see_back
    ∷ pop_item
    ∷ pop_item
    ∷ pop_item
    ∷ close_queue
    ∷ push_item 5
    ∷ pop_in_time
    ∷ []

results-block_queue_example :
    (q : BlockQueue ℕ) × (block_queue 0 (pos 2) ≡ some q)
    × (results performed calls q
        ≡ results promised calls (record { items = []; capacity = 2; closed = false }))
results-block_queue_example = results-block_queue 0 1 calls
