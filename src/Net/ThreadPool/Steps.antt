-- ===== src/Net/ThreadPool/Steps.antt =====
-- What the threads that use a pool, and its workers, do one after another.
use kv.Prelude.{ℕ, ◌≡◌, some, List, [], ◌∷◌, ◌++◌, if◌then◌else◌}
use kv.Net.ThreadPool.{
  ThreadPool, thread_pool, start, submit, begin_stop, end_stop, take_task, finish_task,
}

-- A pool with the tasks that it has accepted, those that its workers have taken and those that they
-- have done, each in their order.
pub record History {ℓ} (T : Type ℓ) : Type ℓ where
  pub pool : ThreadPool T
  pub accepted : List T
  pub taken : List T
  pub ended : List T

module _ {ℓ} {T : Type ℓ} where
  abbrev pub begun : ℕ → ℕ → History T
  begun hardware thread_count = record {
    pool = thread_pool hardware thread_count;
    accepted = [];
    taken = [];
    ended = [];
  }

  abbrev pub submitted : T → History T → History T
  submitted task h = record h {
    pool = (submit task h.pool).0;
    accepted = if (submit task h.pool).1 then h.accepted ++ task ∷ [] else h.accepted;
  }

  -- With the first of the tasks, if there is one.
  abbrev pub with_first : List T → List T → List T
  with_first taken [] = taken
  with_first taken (task ∷ tasks) = taken ++ task ∷ []

  pub data Step : History T → History T → Type ℓ where
    starts : (started : ℕ) (h : History T) → Step h (record h { pool = (start started h.pool).0 })
    submits : (task : T) (h : History T) → Step h (submitted task h)
    takes :
        (i : ℕ) (h : History T) (p : ThreadPool T)
        → take_task i h.pool ≡ some p
        → Step h (record h { pool = p; taken = with_first h.taken h.pool.m_tasks })
    finishes :
        (i : ℕ) (h : History T) (p : ThreadPool T) (task : T)
        → finish_task i h.pool ≡ some (p, task)
        → Step h (record h { pool = p; ended = h.ended ++ task ∷ [] })
    begins_stop : (h : History T) → Step h (record h { pool = begin_stop h.pool })
    ends_stop :
        (h : History T) (p : ThreadPool T)
        → end_stop h.pool ≡ some p
        → Step h (record h { pool = p })

  pub data Steps : History T → History T → Type ℓ where
    none_yet : (h : History T) → Steps h h
    one_more : {h h' h'' : History T} → Steps h h' → Step h' h'' → Steps h h''
