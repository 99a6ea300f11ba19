-- ===== src/Net/ThreadPool/Completion.antt =====
-- The workers of a pool do what it accepts.
use mathlib.Core.List.Perm
use mathlib.Core.List.{Perm, perm_append_singleton, perm_middle}
use kv.Prelude.{
  ℕ, ◌≡◌, ◌≢◌, refl, ap, sym, ◌∙◌, subst, Bool, true, false, Option, none, some, List, [], ◌∷◌,
  ◌++◌, append_assoc, append-nil, get_elem?, set, is_empty, ltb, Bool-cases, Option-cases,
  List-cases, inl, inr,
}
use kv.Net.ThreadPool.{
  ThreadPool, Worker, waiting, running, returned, thread_pool, start, submit, begin_stop, end_stop,
  finish_task, all_returned, new_workers,
}
use kv.Net.ThreadPool.Workers.{
  running_tasks, any_returned, running-set_running, running-set_returned, running-set_waiting,
  running-all_returned, any_returned-set, any_returned-all_returned, running-new_workers,
  any_returned-new_workers,
}
use kv.Net.ThreadPool.Taking.{Takes, pool_or, take_task-Takes}
use kv.Net.ThreadPool.Steps.{
  History, begun, submitted, with_first, Step, starts, submits, takes, finishes, begins_stop,
  ends_stop, Steps, none_yet, one_more,
}

module _ {ℓ} {T : Type ℓ} where
  -- The tasks are taken in the order in which they were accepted, each once; those that were taken are
  -- done, or a worker is at them; and no worker returns before the tasks are all taken and the pool is
  -- to stop.
  pub record IsOrderly (h : History T) : Type ℓ where
    pub in_order : h.accepted ≡ h.taken ++ h.pool.m_tasks
    pub accounted : Perm h.taken (h.ended ++ running_tasks h.pool.m_workers)
    pub quiet :
        any_returned h.pool.m_workers ≡ true → (h.pool.m_stopping ≡ true) × (h.pool.m_tasks ≡ [])

  begun-IsOrderly : (hardware thread_count : ℕ) → IsOrderly (begun hardware thread_count)
  unfolding thread_pool
  begun-IsOrderly hardware thread_count = record {
    in_order = refl;
    accounted = Perm.nil;
    quiet = λ e. cc;
  }

  submitted-IsOrderly : (task : T) (h : History T) → IsOrderly h → IsOrderly (submitted task h)
  unfolding submit
  submitted-IsOrderly task h o = elim (Bool-cases h.pool.m_stopping) [
    | inl stops ↦ rw stops (record {
      in_order = o.in_order;
      accounted = o.accounted;
      quiet = λ e. (refl, (o.quiet e).1);
    })
    | inr goes ↦ rw goes (record {
      in_order =
          ap (λ l. l ++ task ∷ []) o.in_order ∙ append_assoc h.taken h.pool.m_tasks (task ∷ []);
      accounted = o.accounted;
      quiet = λ e. (let (stops, _) = o.quiet e in cc);
    })
  ]

  new-IsOrderly :
      (n : ℕ) (stops : Bool) (h : History T)
      → IsOrderly h
      → h.pool.m_workers ≡ []
      → IsOrderly
          (record h { pool = record h.pool { m_stopping = stops; m_workers = new_workers n } })
  new-IsOrderly n stops h o e = record {
    in_order = o.in_order;
    accounted =
        subst (λ l. Perm h.taken (h.ended ++ l)) (ap running_tasks e ∙ sym (running-new_workers n))
          o.accounted;
    quiet = λ some_returned. (let no = any_returned-new_workers T n in cc);
  }

  start-again :
      (started : ℕ) (p : ThreadPool T) → is_empty p.m_workers ≡ false → (start started p).0 ≡ p
  unfolding start
  start-again started p e = rw e refl

  start-IsOrderly :
      (started : ℕ) (h : History T)
      → IsOrderly h
      → IsOrderly (record h { pool = (start started h.pool).0 })
  unfolding start
  start-IsOrderly started h o = elim (List-cases h.pool.m_workers) [
    | inl none_there ↦ elim (Bool-cases (ltb started h.pool.m_thread_count)) [
      | inl few ↦ rw (none_there, few) (new-IsOrderly started true h o none_there)
      | inr enough ↦
          rw (none_there, enough) (new-IsOrderly h.pool.m_thread_count false h o none_there)
    ]
    | inr (w, ws, e) ↦
        subst (λ p. IsOrderly (record h { pool = p }))
          (sym (start-again started h.pool (ap is_empty e))) o
  ]

  module _ (h : History T) (o : IsOrderly h) where
    take-IsOrderly :
        (i : ℕ) (p : ThreadPool T)
        → Takes i h.pool p
        → IsOrderly (record h { pool = p; taken = with_first h.taken h.pool.m_tasks })
    take-IsOrderly i p (e, inl (none_left, stops, same)) =
        subst (λ p. IsOrderly (record h { pool = p; taken = with_first h.taken h.pool.m_tasks }))
          same
          (record {
            in_order = o.in_order ∙ ap (λ l. l ++ h.pool.m_tasks) (sym nobody);
            accounted =
                subst (λ l. Perm l (h.ended ++ running_tasks (set h.pool.m_workers i returned)))
                  (sym nobody)
                  (subst (λ l. Perm h.taken (h.ended ++ l))
                    (sym (running-set_returned h.pool.m_workers i e)) o.accounted);
            quiet = λ some_returned. (stops, none_left);
          })
      where
        nobody : with_first h.taken h.pool.m_tasks ≡ h.taken
        nobody = ap (with_first h.taken) none_left
    take-IsOrderly i p (e, inr (task, tasks, first, same)) =
        subst (λ p. IsOrderly (record h { pool = p; taken = with_first h.taken h.pool.m_tasks }))
          same
          (record {
            in_order =
                o.in_order
                ∙ ap (λ l. h.taken ++ l) first
                ∙ sym (append_assoc h.taken (task ∷ []) tasks)
                ∙ ap (λ l. l ++ tasks) (sym somebody);
            accounted =
                subst
                  (λ l. Perm l (h.ended ++ running_tasks (set h.pool.m_workers i (running task))))
                  (sym somebody)
                  (Perm.trans (perm_append_singleton task h.taken) (
                    Perm.trans (Perm.cons task o.accounted) (
                      Perm.trans (Perm.symm (perm_middle h.ended (running_tasks h.pool.m_workers)))
                        (Perm.append_left h.ended
                          (Perm.symm (running-set_running h.pool.m_workers i task e))))));
            quiet = λ some_returned.
                (let (_, none_left) =
                    o.quiet
                      (any_returned-set h.pool.m_workers i (running task) refl some_returned) in
                  cc);
          })
      where
        somebody : with_first h.taken h.pool.m_tasks ≡ h.taken ++ task ∷ []
        somebody = ap (with_first h.taken) first

    finished-IsOrderly :
        (i : ℕ) (task : T)
        → get_elem? h.pool.m_workers i ≡ some (running task)
        → IsOrderly (record h {
          pool = record h.pool { m_workers = set h.pool.m_workers i waiting };
          ended = h.ended ++ task ∷ [];
        })
    finished-IsOrderly i task e = record {
      in_order = o.in_order;
      accounted =
          subst (Perm h.taken)
            (sym
              (append_assoc h.ended (task ∷ []) (running_tasks (set h.pool.m_workers i waiting))))
            (Perm.trans o.accounted
              (Perm.append_left h.ended (running-set_waiting h.pool.m_workers i task e)));
      quiet =
          λ some_returned. o.quiet (any_returned-set h.pool.m_workers i waiting refl some_returned);
    }

    finish-IsOrderly :
        (i : ℕ) (p : ThreadPool T) (task : T)
        → finish_task i h.pool ≡ some (p, task)
        → IsOrderly (record h { pool = p; ended = h.ended ++ task ∷ [] })
    unfolding finish_task
    finish-IsOrderly i p task f = elim (Option-cases (get_elem? h.pool.m_workers i)) [
      | inl out ↦ cc (finishes_none out)
      | inr (returned, e) ↦ cc (finishes_nothing returned e (λ t d. cc))
      | inr (waiting, e) ↦ cc (finishes_nothing waiting e (λ t d. cc))
      | inr (running t, e) ↦
          subst
            (λ (r : ThreadPool T × T).
              IsOrderly (record h { pool = r.0; ended = h.ended ++ r.1 ∷ [] }))
            (ap (result_or (h.pool, t)) (sym (finishes_task t e) ∙ f)) (finished-IsOrderly i t e)
    ]
      where
        result_or : ThreadPool T × T → Option (ThreadPool T × T) → ThreadPool T × T
        result_or r none = r
        result_or r (some r') = r'

        finishes_none : get_elem? h.pool.m_workers i ≡ none → finish_task i h.pool ≡ none
        finishes_none e = rw (finish_task, e) refl

        finishes_nothing :
            (w : Worker T)
            → get_elem? h.pool.m_workers i ≡ some w
            → ((t : T) → w ≢ running t)
            → finish_task i h.pool ≡ none
        finishes_nothing waiting e ne = rw (finish_task, e) refl
        finishes_nothing returned e ne = rw (finish_task, e) refl
        finishes_nothing (running t) e ne = absurd (ne t refl)

        finishes_task :
            (t : T)
            → get_elem? h.pool.m_workers i ≡ some (running t)
            → finish_task i h.pool
              ≡ some (record h.pool { m_workers = set h.pool.m_workers i waiting }, t)
        finishes_task t e = rw (finish_task, e) refl

    end_stop-IsOrderly :
        (p : ThreadPool T) → end_stop h.pool ≡ some p → IsOrderly (record h { pool = p })
    unfolding end_stop
    end_stop-IsOrderly p e = elim (Bool-cases (all_returned h.pool.m_workers)) [
      | inr busy ↦ cc (waits busy)
      | inl idle ↦
          subst (λ p. IsOrderly (record h { pool = p }))
            (ap (pool_or h.pool) (sym (joins idle) ∙ e))
            (record {
              in_order = o.in_order;
              accounted =
                  subst (λ l. Perm h.taken (h.ended ++ l))
                    (running-all_returned h.pool.m_workers idle) o.accounted;
              quiet = λ some_returned. cc;
            })
    ]
      where
        waits : all_returned h.pool.m_workers ≡ false → end_stop h.pool ≡ none
        waits busy = rw busy refl

        joins :
            all_returned h.pool.m_workers ≡ true
            → end_stop h.pool ≡ some (record h.pool { m_workers = [] })
        joins idle = rw idle refl

  step-IsOrderly : {h h' : History T} → Step h h' → IsOrderly h → IsOrderly h'
  unfolding begin_stop
  step-IsOrderly (starts started h) o = start-IsOrderly started h o
  step-IsOrderly (submits task h) o = submitted-IsOrderly task h o
  step-IsOrderly (takes i h p e) o = take-IsOrderly h o i p (take_task-Takes i h.pool p e)
  step-IsOrderly (finishes i h p task e) o = finish-IsOrderly h o i p task e
  step-IsOrderly (begins_stop h) o = record {
    in_order = o.in_order;
    accounted = o.accounted;
    quiet = λ e. (refl, (o.quiet e).1);
  }
  step-IsOrderly (ends_stop h p e) o = end_stop-IsOrderly h o p e

  steps-IsOrderly : {h h' : History T} → Steps h h' → IsOrderly h → IsOrderly h'
  steps-IsOrderly (none_yet h) o = o
  steps-IsOrderly (one_more before step) o = step-IsOrderly step (steps-IsOrderly before o)

  end_stop-idle : (p p' : ThreadPool T) → end_stop p ≡ some p' → all_returned p.m_workers ≡ true
  unfolding end_stop
  end_stop-idle p p' e = elim (Bool-cases (all_returned p.m_workers)) [
    | inl idle ↦ idle
    | inr busy ↦ cc (waits busy)
  ]
    where
      waits : all_returned p.m_workers ≡ false → end_stop p ≡ none
      waits busy = rw busy refl

  -- However the threads follow one another, the tasks of a new pool are taken in the order in which
  -- they were accepted; and when a stop of a pool that has workers ends, all the tasks that it
  -- accepted are done.
  pub end_stop_completes :
      (hardware thread_count : ℕ) (h : History T) (w : Worker T) (ws : List (Worker T))
      (p : ThreadPool T)
      → Steps (begun hardware thread_count) h
      → h.pool.m_workers ≡ w ∷ ws
      → end_stop h.pool ≡ some p
      → (h.accepted ≡ h.taken) × Perm h.accepted h.ended
  end_stop_completes hardware thread_count h w ws p before there e = (
    all_taken,
    subst (λ l. Perm l h.ended) (sym all_taken)
        (subst (Perm h.taken)
          (ap (λ l. h.ended ++ l) (running-all_returned h.pool.m_workers idle) ∙ append-nil h.ended)
          o.accounted),
  )
    where
      o : IsOrderly h
      o = steps-IsOrderly before (begun-IsOrderly hardware thread_count)

      idle : all_returned h.pool.m_workers ≡ true
      idle = end_stop-idle h.pool p e

      one : any_returned h.pool.m_workers ≡ true
      one =
          ap any_returned there
          ∙ any_returned-all_returned w ws (sym (ap all_returned there) ∙ idle)

      all_taken : h.accepted ≡ h.taken
      all_taken = o.in_order ∙ ap (λ l. h.taken ++ l) (o.quiet one).1 ∙ append-nil h.taken
