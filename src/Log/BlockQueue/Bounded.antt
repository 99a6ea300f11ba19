-- ===== src/Log/BlockQueue/Bounded.antt =====
-- A bounded queue that can be closed, and the calls of src/log/block_queue.h as its users make them.
use kv.Prelude.{
  ℕ, ◌≡◌, refl, Bool, true, false, ◌||◌, Option, none, some, List, [], ◌∷◌, ◌++◌, if◌then◌else◌,
  leb, is_empty, length, get_elem?,
}
use kv.Log.BlockQueue.{
  BlockQueue, Popped, waits, nothing, item, clear, close, full, empty, front, back, push, pop,
  pop_for,
}

module _ {ℓ} (A : Type ℓ) where
  -- The calls of the threads, and what they get.
  pub data Operation : Type ℓ where
    push_item : A → Operation
    pop_item pop_in_time clear_items close_queue see_front see_back full_now empty_now count_items :
        Operation

  pub data Reply : Type ℓ where
    done : Reply
    says : Bool → Reply
    popped : Popped A → Reply
    shows : Option (Option A) → Reply
    counts : ℕ → Reply

  -- A bounded queue that can be closed.
  pub record Bounded : Type ℓ where
    pub items : List A
    pub capacity : ℕ
    pub closed : Bool

module _ {ℓ} {A : Type ℓ} where
  abbrev pub first_of : List A → Option (Option A)
  first_of [] = none
  first_of (x ∷ l) = some (some x)

  abbrev pub last_of : List A → Option (Option A)
  last_of [] = none
  last_of (x ∷ []) = some (some x)
  last_of (x ∷ y ∷ l) = last_of (y ∷ l)

  pub last_of-cons : (x : A) (l : List A) → last_of (x ∷ l) ≡ some (get_elem? (x ∷ l) (length l))
  last_of-cons x [] = refl
  last_of-cons x (y ∷ l) = last_of-cons y l

  abbrev pub taken : Bool → Bounded A → Bounded A × Popped A
  taken patient b = elim b.items [
    | [] ↦ (b, if b.closed then nothing else if patient then waits else nothing)
    | x ∷ l ↦ (record b { items = l }, item (some x))
  ]

  -- What a bounded queue does.
  abbrev pub promised : Operation A → Bounded A → Bounded A × Reply A
  promised (push_item x) b =
      if b.closed || leb b.capacity (length b.items)
      then (b, says false)
      else (record b { items = b.items ++ x ∷ [] }, says true)
  promised pop_item b = let (b', p) = taken true b in (b', popped p)
  promised pop_in_time b = let (b', p) = taken false b in (b', popped p)
  promised clear_items b = (record b { items = [] }, done)
  promised close_queue b = (record b { closed = true }, done)
  promised see_front b = (b, shows (first_of b.items))
  promised see_back b = (b, shows (last_of b.items))
  promised full_now b = (b, says (leb b.capacity (length b.items)))
  promised empty_now b = (b, says (is_empty b.items))
  promised count_items b = (b, counts (length b.items))

  -- What the code does.
  abbrev pub performed : Operation A → BlockQueue A → BlockQueue A × Reply A
  performed (push_item x) q = let (q', ok) = push x q in (q', says ok)
  performed pop_item q = let (q', p) = pop q in (q', popped p)
  performed pop_in_time q = let (q', p) = pop_for q in (q', popped p)
  performed clear_items q = (clear q, done)
  performed close_queue q = (close q, done)
  performed see_front q = (q, shows (front q))
  performed see_back q = (q, shows (back q))
  performed full_now q = (q, says (full q))
  performed empty_now q = (q, says (empty q))
  performed count_items q = (q, counts q.m_size)

  -- The results of a sequence of calls.
  abbrev pub results {ℓ'} :
      {Q : Type ℓ'} → (Operation A → Q → Q × Reply A) → List (Operation A) → Q → List (Reply A)
  results does [] q = []
  results does (o ∷ os) q = let (q', r) = does o q in r ∷ results does os q'
