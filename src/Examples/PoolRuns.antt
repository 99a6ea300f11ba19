-- ===== src/Examples/PoolRuns.antt =====
-- A pool of one worker that is stopped while a task waits.
use mathlib.Core.List.{Perm}
use kv.Prelude.{ℕ, ◌≡◌, refl, true, some, List, [], ◌∷◌}
use kv.Net.ThreadPool.{
  ThreadPool, Worker, returned, thread_pool, start, submit, begin_stop, end_stop, take_task,
  finish_task, next_task, all_returned, new_workers,
}
use kv.Net.ThreadPool.Steps.{
  History, begun, starts, submits, takes, finishes, begins_stop, Steps, none_yet, one_more,
}
use kv.Net.ThreadPool.Completion.{end_stop_completes}

abbrev pool : List ℕ → List (Worker ℕ) → ThreadPool ℕ
pool tasks workers = record {
  m_thread_count = 1;
  m_tasks = tasks;
  m_workers = workers;
  m_stopping = true;
}

abbrev at_end : History ℕ
at_end = record {
  pool = pool [] (returned ∷ []);
  accepted = 7 ∷ 8 ∷ [];
  taken = 7 ∷ 8 ∷ [];
  ended = 7 ∷ 8 ∷ [];
}

run : Steps (begun 4 1) at_end
unfolding thread_pool start submit begin_stop take_task finish_task next_task new_workers
run =
    one_more
      (one_more
        (one_more
          (one_more
            (one_more
              (one_more
                (one_more (one_more (one_more (none_yet (begun 4 1)) (submits 7 _)) (starts 1 _))
                  (submits 8 _))
                (takes 0 _ _ refl))
              (begins_stop _))
            (finishes 0 _ _ 7 refl))
          (takes 0 _ _ refl))
        (finishes 0 _ _ 8 refl))
      (takes 0 _ _ refl)

stops : end_stop at_end.pool ≡ some (pool [] [])
unfolding end_stop all_returned
stops = refl

end_stop_completes_example : (at_end.accepted ≡ at_end.taken) × Perm at_end.accepted at_end.ended
end_stop_completes_example = end_stop_completes 4 1 at_end returned [] (pool [] []) run refl stops
