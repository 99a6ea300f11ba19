-- ===== src/Net/ThreadPool/Workers.antt =====
-- The tasks that the workers of a pool are at.
use mathlib.Core.List.Perm
use mathlib.Core.List.{Perm}
use kv.Prelude.{
  ℕ, zero, suc, ◌≡◌, refl, ap, subst, Bool, true, false, some, List, [], ◌∷◌, get_elem?, set,
}
use kv.Net.ThreadPool.{Worker, waiting, running, returned, all_returned, new_workers}

module _ {ℓ} {T : Type ℓ} where
  abbrev pub running_tasks : List (Worker T) → List T
  running_tasks [] = []
  running_tasks (running t ∷ ws) = t ∷ running_tasks ws
  running_tasks (waiting ∷ ws) = running_tasks ws
  running_tasks (returned ∷ ws) = running_tasks ws

  -- Some worker has returned.
  abbrev pub any_returned : List (Worker T) → Bool
  any_returned [] = false
  any_returned (returned ∷ ws) = true
  any_returned (waiting ∷ ws) = any_returned ws
  any_returned (running t ∷ ws) = any_returned ws

  pub running-set_running :
      (ws : List (Worker T)) (i : ℕ) (t : T)
      → get_elem? ws i ≡ some waiting
      → Perm (running_tasks (set ws i (running t))) (t ∷ running_tasks ws)
  running-set_running [] i t e = cc
  running-set_running (waiting ∷ ws) zero t e = Perm.refl _
  running-set_running (running u ∷ ws) zero t e = cc
  running-set_running (returned ∷ ws) zero t e = cc
  running-set_running (waiting ∷ ws) (suc i) t e = running-set_running ws i t e
  running-set_running (returned ∷ ws) (suc i) t e = running-set_running ws i t e
  running-set_running (running u ∷ ws) (suc i) t e =
      Perm.trans (Perm.cons u (running-set_running ws i t e)) (Perm.swap t u (running_tasks ws))

  pub running-set_returned :
      (ws : List (Worker T)) (i : ℕ)
      → get_elem? ws i ≡ some waiting
      → running_tasks (set ws i returned) ≡ running_tasks ws
  running-set_returned [] i e = cc
  running-set_returned (waiting ∷ ws) zero e = refl
  running-set_returned (running u ∷ ws) zero e = cc
  running-set_returned (returned ∷ ws) zero e = refl
  running-set_returned (waiting ∷ ws) (suc i) e = running-set_returned ws i e
  running-set_returned (returned ∷ ws) (suc i) e = running-set_returned ws i e
  running-set_returned (running u ∷ ws) (suc i) e = ap (◌∷◌ u) (running-set_returned ws i e)

  same_task : (u t : T) → some (running u) ≡ some (running t) → u ≡ t
  same_task u t e = cc

  pub running-set_waiting :
      (ws : List (Worker T)) (i : ℕ) (t : T)
      → get_elem? ws i ≡ some (running t)
      → Perm (running_tasks ws) (t ∷ running_tasks (set ws i waiting))
  running-set_waiting [] i t e = cc
  running-set_waiting (running u ∷ ws) zero t e =
      subst (λ v. Perm (u ∷ running_tasks ws) (v ∷ running_tasks ws)) (same_task u t e)
        (Perm.refl _)
  running-set_waiting (waiting ∷ ws) zero t e = cc
  running-set_waiting (returned ∷ ws) zero t e = cc
  running-set_waiting (waiting ∷ ws) (suc i) t e = running-set_waiting ws i t e
  running-set_waiting (returned ∷ ws) (suc i) t e = running-set_waiting ws i t e
  running-set_waiting (running u ∷ ws) (suc i) t e =
      Perm.trans (Perm.cons u (running-set_waiting ws i t e))
        (Perm.swap t u (running_tasks (set ws i waiting)))

  pub running-all_returned : (ws : List (Worker T)) → all_returned ws ≡ true → running_tasks ws ≡ []
  unfolding all_returned
  running-all_returned [] e = refl
  running-all_returned (returned ∷ ws) e = running-all_returned ws e
  running-all_returned (waiting ∷ ws) e = cc
  running-all_returned (running t ∷ ws) e = cc

  pub any_returned-all_returned :
      (w : Worker T) (ws : List (Worker T))
      → all_returned (w ∷ ws) ≡ true
      → any_returned (w ∷ ws) ≡ true
  unfolding all_returned
  any_returned-all_returned returned ws e = refl
  any_returned-all_returned waiting ws e = cc
  any_returned-all_returned (running t) ws e = cc

  pub any_returned-set :
      (ws : List (Worker T)) (i : ℕ) (w : Worker T)
      → any_returned (w ∷ []) ≡ false
      → any_returned (set ws i w) ≡ true
      → any_returned ws ≡ true
  any_returned-set [] i w e h = h
  any_returned-set (returned ∷ ws) i w e h = refl
  any_returned-set (waiting ∷ ws) zero waiting e h = h
  any_returned-set (waiting ∷ ws) zero (running t) e h = h
  any_returned-set (waiting ∷ ws) zero returned e h = cc
  any_returned-set (running u ∷ ws) zero waiting e h = h
  any_returned-set (running u ∷ ws) zero (running t) e h = h
  any_returned-set (running u ∷ ws) zero returned e h = cc
  any_returned-set (waiting ∷ ws) (suc i) w e h = any_returned-set ws i w e h
  any_returned-set (running u ∷ ws) (suc i) w e h = any_returned-set ws i w e h

  pub running-new_workers : (n : ℕ) → running_tasks (new_workers n) ≡ []
  unfolding new_workers
  running-new_workers zero = refl
  running-new_workers (suc n) = running-new_workers n

pub any_returned-new_workers {ℓ} :
    (T : Type ℓ) (n : ℕ) → any_returned {T = T} (new_workers n) ≡ false
unfolding new_workers
any_returned-new_workers T zero = refl
any_returned-new_workers T (suc n) = any_returned-new_workers T n
