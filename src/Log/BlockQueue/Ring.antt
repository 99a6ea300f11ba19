-- ===== src/Log/BlockQueue/Ring.antt =====
-- Positions in the array of a queue.
use kv.Prelude.{
  ℕ, suc, ◌+◌, ◌-◌, ◌%◌, ◌≤◌, ◌<◌, ◌≡◌, ◌≢◌, ap, ◌∙◌, false, if◌then◌else◌, ltb, arith, Bool-cases,
  inl, inr,
}
use native.Mathlib.Nat.{mod_self, mod-eq_of_lt}
use kv.Prelude.Int.{pos, negsuc, ◌+ℤ◌, pos_part, pos-add}
use kv.Log.BlockQueue.{next_index}

-- Where the `n`-th item stands, counted from `first`.
abbrev pub position : ℕ → ℕ → ℕ → ℕ
position max_size first n = if ltb (first + n) max_size then first + n else first + n - max_size

pub next_index-pos :
    (i max_size : ℕ) → i < max_size → next_index (pos i) max_size ≡ position max_size i 1
unfolding next_index
next_index-pos i max_size h = elim (Bool-cases (ltb (suc i) max_size)) [
  | inl below ↦ shifted ∙ mod-eq_of_lt (ground arith) ∙ ground arith
  | inr last ↦ shifted ∙ ap (λ n. (i + 1) % n) (last_index last) ∙ mod_self (i + 1) ∙ ground arith
]
  where
    last_index : ltb (suc i) max_size ≡ false → max_size ≡ i + 1
    last_index last = ground arith

    shifted : next_index (pos i) max_size ≡ (i + 1) % max_size
    shifted = ap (λ z. pos_part z % max_size) (pos-add i 1)

pub next_index-start : (max_size : ℕ) → 0 < max_size → next_index (negsuc 0) max_size ≡ 0
unfolding next_index ◌+ℤ◌
next_index-start max_size h = mod-eq_of_lt h

pub position_in :
    (max_size first n : ℕ) → first < max_size → n ≤ max_size → position max_size first n < max_size
position_in max_size first n h le = ground arith

pub position_ne :
    (max_size first n i : ℕ)
    → first < max_size
    → i < n
    → n < max_size
    → position max_size first n ≢ position max_size first i
position_ne max_size first n i h less below e = ground arith

pub position_next :
    (max_size first n : ℕ)
    → first < max_size
    → n < max_size
    → position max_size (position max_size first 1) n ≡ position max_size first (suc n)
position_next max_size first n h le = ground arith

pub position-suc :
    (max_size first n : ℕ)
    → first < max_size
    → n < max_size
    → position max_size (position max_size first n) 1 ≡ position max_size first (suc n)
position-suc max_size first n h le = ground arith
