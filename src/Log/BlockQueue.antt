-- ===== src/Log/BlockQueue.antt =====
-- src/log/block_queue.h: `block_queue`. A method is one critical section; `notify_one` and `notify_all`
-- only wake the threads that wait in `pop`.
pub mod Ring
pub mod Bounded
pub mod Stands
pub mod Refinement
use kv.Prelude.{
  ℕ, zero, suc, ◌-◌, ◌%◌, Bool, true, false, Option, none, some, List, [], ◌∷◌, if◌then◌else◌, leb,
  get_elem?, set,
}
use kv.Prelude.Int.{ℤ, pos, negsuc, ◌+ℤ◌, pos_part}

pub record BlockQueue {ℓ} (A : Type ℓ) : Type ℓ where
  pub m_array : List A
  pub m_size : ℕ
  pub m_max_size : ℕ
  pub m_front : ℤ
  pub m_back : ℤ
  pub m_closed : Bool

-- What `pop` does: it waits, it returns false, or it returns true with an item.
pub data Popped {ℓ} (A : Type ℓ) : Type ℓ where
  waits : Popped A
  nothing : Popped A
  item : Option A → Popped A

-- `(index + 1) % m_max_size`, for an index that is not below -1.
unfoldable pub next_index : ℤ → ℕ → ℕ
next_index index max_size = pos_part (index +ℤ pos 1) % max_size

module _ {ℓ} {A : Type ℓ} where
  unfoldable pub blanks : ℕ → A → List A
  blanks zero blank = []
  blanks (suc n) blank = blank ∷ blanks n blank

  -- The constructor; `none` is `exit(-1)`. The array begins with the default value of the items.
  unfoldable pub block_queue : A → ℤ → Option (BlockQueue A)
  unfolding blanks
  block_queue blank (pos (suc n)) = some (record {
    m_array = blanks (suc n) blank;
    m_size = 0;
    m_max_size = suc n;
    m_front = negsuc 0;
    m_back = negsuc 0;
    m_closed = false;
  })
  block_queue blank _ = none

  unfoldable pub clear : BlockQueue A → BlockQueue A
  clear q = record q { m_size = 0; m_front = negsuc 0; m_back = negsuc 0 }

  unfoldable pub close : BlockQueue A → BlockQueue A
  close q = record q { m_closed = true }

  unfoldable pub full : BlockQueue A → Bool
  full q = leb q.m_max_size q.m_size

  unfoldable pub empty : BlockQueue A → Bool
  empty q = elim q.m_size [ zero ↦ true | suc n ↦ false ]

  -- `none` is false, and `some` an item, which is none out of the array.
  unfoldable pub front : BlockQueue A → Option (Option A)
  unfolding next_index
  front q = elim q.m_size [
    | zero ↦ none
    | suc n ↦ some (get_elem? q.m_array (next_index q.m_front q.m_max_size))
  ]

  unfoldable pub back : BlockQueue A → Option (Option A)
  back q = elim q.m_size [
    | zero ↦ none
    | suc n ↦ some (elim q.m_back [ pos i ↦ get_elem? q.m_array i | negsuc i ↦ none ])
  ]

  unfoldable pub push : A → BlockQueue A → BlockQueue A × Bool
  unfolding next_index
  push x q =
      let index = next_index q.m_back q.m_max_size in
      if q.m_closed then (q, false) else if leb q.m_max_size q.m_size then (q, false) else (
        record q { m_back = pos index; m_array = set q.m_array index x; m_size = suc q.m_size },
        true,
      )

  -- From where the condition to wake up holds.
  unfoldable pub take_front : BlockQueue A → BlockQueue A × Popped A
  unfolding next_index
  take_front q =
      let index = next_index q.m_front q.m_max_size in
      (record q { m_front = pos index; m_size = q.m_size - 1 }, item (get_elem? q.m_array index))

  unfoldable pub pop : BlockQueue A → BlockQueue A × Popped A
  unfolding take_front
  pop q = elim q.m_size [ zero ↦ (q, if q.m_closed then nothing else waits) | suc n ↦ take_front q ]

  -- `pop` with a time limit that has passed, or where it need not wait.
  unfoldable pub pop_for : BlockQueue A → BlockQueue A × Popped A
  unfolding take_front
  pop_for q = elim q.m_size [ zero ↦ (q, nothing) | suc n ↦ take_front q ]
