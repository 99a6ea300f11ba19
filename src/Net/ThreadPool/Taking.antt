-- ===== src/Net/ThreadPool/Taking.antt =====
-- What a worker of a pool takes.
use kv.Prelude.{
  ℕ, ◌≡◌, ◌≢◌, refl, ap, sym, ◌∙◌, true, false, Option, none, some, List, [], ◌∷◌, get_elem?, set,
  Bool-cases, Option-cases, List-cases, inl, inr, ◌⊎◌,
}
use kv.Net.ThreadPool.{ThreadPool, Worker, waiting, running, returned, take_task, next_task}

module _ {ℓ} {T : Type ℓ} where
  -- What a worker takes.
  abbrev pub Takes : ℕ → ThreadPool T → ThreadPool T → Type ℓ
  Takes i p p' =
      (get_elem? p.m_workers i ≡ some waiting)
      × (((p.m_tasks ≡ [])
            × (p.m_stopping ≡ true)
            × (record p { m_workers = set p.m_workers i returned } ≡ p'))
          ⊎ ((task : T) × (tasks : List T) × (p.m_tasks ≡ task ∷ tasks)
              × (record p { m_tasks = tasks; m_workers = set p.m_workers i (running task) } ≡ p')))

  abbrev pub pool_or : ThreadPool T → Option (ThreadPool T) → ThreadPool T
  pool_or p none = p
  pool_or p (some p') = p'

  module _ (i : ℕ) (p : ThreadPool T) where
    takes_nothing :
        (w : Worker T) → get_elem? p.m_workers i ≡ some w → w ≢ waiting → take_task i p ≡ none
    unfolding take_task
    takes_nothing waiting e ne = absurd (ne refl)
    takes_nothing (running task) e ne = rw (take_task, e) refl
    takes_nothing returned e ne = rw (take_task, e) refl

    takes_none : get_elem? p.m_workers i ≡ none → take_task i p ≡ none
    unfolding take_task
    takes_none e = rw (take_task, e) refl

    next_first :
        (task : T) (tasks : List T)
        → p.m_tasks ≡ task ∷ tasks
        → next_task p ≡ some (record p { m_tasks = tasks }, running task)
    unfolding next_task
    next_first task tasks first = rw first refl

    next_none : p.m_tasks ≡ [] → p.m_stopping ≡ true → next_task p ≡ some (p, returned)
    unfolding next_task
    next_none none_left stops = rw (none_left, stops) refl

    next_waits : p.m_tasks ≡ [] → p.m_stopping ≡ false → next_task p ≡ none
    unfolding next_task
    next_waits none_left goes = rw (none_left, goes) refl

    takes_task :
        (task : T) (tasks : List T)
        → get_elem? p.m_workers i ≡ some waiting
        → p.m_tasks ≡ task ∷ tasks
        → take_task i p
          ≡ some (record p { m_tasks = tasks; m_workers = set p.m_workers i (running task) })
    unfolding take_task
    takes_task task tasks e first = rw (take_task, e, next_first task tasks first) refl

    takes_leave :
        get_elem? p.m_workers i ≡ some waiting
        → p.m_tasks ≡ []
        → p.m_stopping ≡ true
        → take_task i p ≡ some (record p { m_workers = set p.m_workers i returned })
    unfolding take_task
    takes_leave e none_left stops = rw (take_task, e, next_none none_left stops) refl

    takes_wait :
        get_elem? p.m_workers i ≡ some waiting
        → p.m_tasks ≡ []
        → p.m_stopping ≡ false
        → take_task i p ≡ none
    unfolding take_task
    takes_wait e none_left goes = rw (take_task, e, next_waits none_left goes) refl

    pub take_task-Takes : (p' : ThreadPool T) → take_task i p ≡ some p' → Takes i p p'
    take_task-Takes p' h = elim (Option-cases (get_elem? p.m_workers i)) [
      | inl out ↦ cc (takes_none out)
      | inr (returned, e) ↦ cc (takes_nothing returned e (λ d. cc))
      | inr (running task, e) ↦ cc (takes_nothing (running task) e (λ d. cc))
      | inr (waiting, e) ↦ elim (List-cases p.m_tasks) [
        | inl none_left ↦ elim (Bool-cases p.m_stopping) [
          | inl stops ↦
              (e, inl (none_left, stops, ap (pool_or p) (sym (takes_leave e none_left stops) ∙ h)))
          | inr goes ↦ cc (takes_wait e none_left goes)
        ]
        | inr (task, tasks, first) ↦
            (e, inr (task, tasks, first, ap (pool_or p) (sym (takes_task task tasks e first) ∙ h)))
      ]
    ]
