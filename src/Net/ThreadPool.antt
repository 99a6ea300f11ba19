-- ===== src/Net/ThreadPool.antt =====
-- src/net/thread_pool.{h,cpp}: `ThreadPool`. A definition is a critical section, or what a thread does
-- between two of them.
pub mod Workers
pub mod Steps
pub mod Taking
pub mod Completion
use kv.Prelude.{
  ℕ, zero, suc, Bool, true, false, ◌&&◌, ◌||◌, not, Option, none, some, List, [], ◌∷◌, ◌++◌,
  if◌then◌else◌, is_empty, ltb, get_elem?, set, max,
}

-- Where a worker is in `worker_loop`.
pub data Worker {ℓ} (T : Type ℓ) : Type ℓ where
  waiting : Worker T
  running : T → Worker T
  returned : Worker T

pub record ThreadPool {ℓ} (T : Type ℓ) : Type ℓ where
  pub m_thread_count : ℕ
  pub m_tasks : List T
  pub m_workers : List (Worker T)
  pub m_stopping : Bool

module _ {ℓ} {T : Type ℓ} where
  -- The constructor; `hardware` is what `std::thread::hardware_concurrency` answers.
  unfoldable pub thread_pool : ℕ → ℕ → ThreadPool T
  thread_pool hardware thread_count = record {
    m_thread_count = elim thread_count [ zero ↦ max 1 hardware | suc n ↦ suc n ];
    m_tasks = [];
    m_workers = [];
    m_stopping = false;
  }

  unfoldable pub new_workers : ℕ → List (Worker T)
  new_workers zero = []
  new_workers (suc n) = waiting ∷ new_workers n

  -- `started` is how many threads the system starts before it throws an exception; it throws none if
  -- they are enough.
  unfoldable pub start : ℕ → ThreadPool T → ThreadPool T × Bool
  unfolding new_workers
  start started p =
      if not (is_empty p.m_workers)
      then (p, true)
      else if ltb started p.m_thread_count
      then (record p { m_stopping = true; m_workers = new_workers started }, false)
      else (record p { m_stopping = false; m_workers = new_workers p.m_thread_count }, true)

  unfoldable pub submit : T → ThreadPool T → ThreadPool T × Bool
  submit task p =
      if p.m_stopping then (p, false) else (record p { m_tasks = p.m_tasks ++ task ∷ [] }, true)

  -- The critical section of `stop`.
  unfoldable pub begin_stop : ThreadPool T → ThreadPool T
  begin_stop p = record p { m_stopping = true }

  unfoldable pub all_returned : List (Worker T) → Bool
  all_returned [] = true
  all_returned (w ∷ ws) = let rest = all_returned ws in elim w [ returned ↦ rest | _ ↦ false ]

  -- `m_workers.clear()` joins the threads: it waits until all have returned.
  unfoldable pub end_stop : ThreadPool T → Option (ThreadPool T)
  unfolding all_returned
  end_stop p = if all_returned p.m_workers then some (record p { m_workers = [] }) else none

  -- The critical section of a worker; `none` means that it waits.
  unfoldable pub next_task : ThreadPool T → Option (ThreadPool T × Worker T)
  next_task p = elim p.m_tasks [
    | [] ↦ if p.m_stopping then some (p, returned) else none
    | task ∷ tasks ↦ some (record p { m_tasks = tasks }, running task)
  ]

  -- The worker of a number takes a task, or returns.
  unfoldable pub take_task : ℕ → ThreadPool T → Option (ThreadPool T)
  unfolding next_task
  take_task i p = elim (get_elem? p.m_workers i) [
    | some waiting ↦ elim (next_task p) [
      | none ↦ none
      | some (p', w) ↦ some (record p' { m_workers = set p.m_workers i w })
    ]
    | _ ↦ none
  ]

  -- The task of a worker ends, and it is given back.
  unfoldable pub finish_task : ℕ → ThreadPool T → Option (ThreadPool T × T)
  finish_task i p = elim (get_elem? p.m_workers i) [
    | some (running task) ↦ some (record p { m_workers = set p.m_workers i waiting }, task)
    | _ ↦ none
  ]
