-- ===== src/Storage/Memory/Linked.antt =====
-- The invariant of `MemoryStore` on its map and its recency list, and what keeps it.
use kv.Prelude.{
  ℕ, suc, ◌<◌, ◌≡◌, none, some, List, [], ◌∷◌, Bytes, length, subst, inl, inr, Option-cases, arith,
  bytes_beq_iff, nat_beq_cases, bytes_eq, nat_eq, beq_refl,
}
use kv.Prelude.Int.{ℤ}
use kv.Prelude.Assoc.{
  empty_of_find-none, find, insert, without, find-insert, find-without, find-head, without-head,
  length-without, Distinct, insert-Distinct, without-Distinct,
}
use kv.Storage.Memory.{Entry}

-- Keys and nodes are distinct, each entry's iterator points at the node of its key, each node has
-- the entry that points at it, and no node is yet to be made.
pub record Linked (m : List (Bytes × Entry)) (lru : List (ℕ × Bytes)) (next : ℕ) : Type 0 where
  pub keys_distinct : Distinct m
  pub nodes_distinct : Distinct lru
  pub node_of_key : (k : Bytes) (e : Entry) → find k m ≡ some e → find e.lru_it lru ≡ some k
  pub key_of_node :
      (i : ℕ) (k : Bytes) → find i lru ≡ some k → (e : Entry) × (find k m ≡ some e) × (e.lru_it ≡ i)
  pub made : (i : ℕ) (k : Bytes) → find i lru ≡ some k → i < next

module _ {m : List (Bytes × Entry)} {lru : List (ℕ × Bytes)} {next : ℕ}
    (h : Linked m lru next) where
  -- Two entries with one iterator are one entry.
  pub iterator_unique :
      (j k : Bytes) (d e : Entry)
      → find j m ≡ some d
      → find k m ≡ some e
      → d.lru_it ≡ e.lru_it
      → j ≡ k
  iterator_unique j k d e p q r = ground (arith, h.node_of_key j d p, h.node_of_key k e q)

  module _ (k : Bytes) (e : Entry) (at : find k m ≡ some e) where
    erase-node_of_key :
        (j : Bytes) (d : Entry)
        → find j (without k m) ≡ some d
        → find d.lru_it (without e.lru_it lru) ≡ some j
    erase-node_of_key j d p = ground (
      arith,
      find-without k j m,
      find-without e.lru_it d.lru_it lru,
      bytes_beq_iff k j,
      h.node_of_key j d,
      iterator_unique j k d e,
    )

    erase-key_of_node :
        (i : ℕ) (j : Bytes)
        → find i (without e.lru_it lru) ≡ some j
        → (d : Entry) × (find j (without k m) ≡ some d) × (d.lru_it ≡ i)
    erase-key_of_node i j p =
        let old : find i lru ≡ some j = ground (arith, find-without e.lru_it i lru) in
        let (d, found, ptr) = h.key_of_node i j old in
        (d, ground (arith, find-without e.lru_it i lru, find-without k j m, bytes_beq_iff k j), ptr)

    pub Linked-erase : Linked (without k m) (without e.lru_it lru) next
    Linked-erase = record {
      keys_distinct = without-Distinct k m h.keys_distinct;
      nodes_distinct = without-Distinct e.lru_it lru h.nodes_distinct;
      node_of_key = erase-node_of_key;
      key_of_node = erase-key_of_node;
      made = λ i j p. ground (arith, find-without e.lru_it i lru, h.made i j);
    }

  -- A new node at the front for a key that the map does not hold.
  module _ (k v : Bytes) (x : ℤ) (absent : find k m ≡ none) where
    abbrev new_entry : Entry
    new_entry = record { value = v; expire_at_ms = x; lru_it = next }

    fresh-node_of_key :
        (j : Bytes) (d : Entry)
        → find j (insert k new_entry m) ≡ some d
        → find d.lru_it ((next, k) ∷ lru) ≡ some j
    unfolding find
    fresh-node_of_key j d p = ground (
      arith,
      find-insert k j new_entry m,
      bytes_beq_iff k j,
      h.node_of_key j d,
      h.made d.lru_it j,
    )

    fresh-key_of_node :
        (i : ℕ) (j : Bytes)
        → find i ((next, k) ∷ lru) ≡ some j
        → (d : Entry) × (find j (insert k new_entry m) ≡ some d) × (d.lru_it ≡ i)
    unfolding find
    fresh-key_of_node i j p = elim (nat_beq_cases next i) [
      | inl e ↦ (new_entry, ground (arith, find-insert k j new_entry m, beq_refl j), e)
      | inr ne ↦
          let (d, found, ptr) = h.key_of_node i j (ground arith) in
          (d, ground (arith, find-insert k j new_entry m, bytes_beq_iff k j), ptr)
    ]

    pub Linked-fresh : Linked (insert k new_entry m) ((next, k) ∷ lru) (suc next)
    unfolding find
    Linked-fresh = record {
      keys_distinct = insert-Distinct k new_entry m h.keys_distinct;
      nodes_distinct = (not_made, h.nodes_distinct);
      node_of_key = fresh-node_of_key;
      key_of_node = fresh-key_of_node;
      made = λ i j p. ground (arith, h.made i j);
    }
      where
        not_made : find next lru ≡ none
        not_made = elim (Option-cases (find next lru)) [
          | inl e ↦ e
          | inr (j, e) ↦ absurd (omega (arith, h.made next j e))
        ]

  -- The node of a key moves to the front, and its entry's data change.
  module _ (k v : Bytes) (x : ℤ) (e : Entry) (at : find k m ≡ some e) where
    abbrev moved_entry : Entry
    moved_entry = record { value = v; expire_at_ms = x; lru_it = next }

    touch-node_of_key :
        (j : Bytes) (d : Entry)
        → find j (insert k moved_entry m) ≡ some d
        → find d.lru_it ((next, k) ∷ without e.lru_it lru) ≡ some j
    unfolding find
    touch-node_of_key j d p = ground (
      arith,
      find-insert k j moved_entry m,
      bytes_beq_iff k j,
      h.node_of_key j d,
      h.made d.lru_it j,
      find-without e.lru_it d.lru_it lru,
      iterator_unique j k d e,
    )

    touch-key_of_node :
        (i : ℕ) (j : Bytes)
        → find i ((next, k) ∷ without e.lru_it lru) ≡ some j
        → (d : Entry) × (find j (insert k moved_entry m) ≡ some d) × (d.lru_it ≡ i)
    unfolding find
    touch-key_of_node i j p = elim (nat_beq_cases next i) [
      | inl same ↦ (moved_entry, ground (arith, find-insert k j moved_entry m, beq_refl j), same)
      | inr ne ↦
          let old : find i lru ≡ some j = ground (arith, find-without e.lru_it i lru) in
          let (d, found, ptr) = h.key_of_node i j old in
          (
            d,
            ground (
              arith,
              find-insert k j moved_entry m,
              bytes_beq_iff k j,
              find-without e.lru_it i lru,
            ),
            ptr,
          )
    ]

    pub Linked-touch : Linked (insert k moved_entry m) ((next, k) ∷ without e.lru_it lru) (suc next)
    unfolding find
    Linked-touch = record {
      keys_distinct = insert-Distinct k moved_entry m h.keys_distinct;
      nodes_distinct = (not_made, without-Distinct e.lru_it lru h.nodes_distinct);
      node_of_key = touch-node_of_key;
      key_of_node = touch-key_of_node;
      made = λ i j p. ground (arith, h.made i j, find-without e.lru_it i lru);
    }
      where
        not_made : find next (without e.lru_it lru) ≡ none
        not_made = elim (Option-cases (find next lru)) [
          | inl none_there ↦ ground (arith, find-without e.lru_it next lru)
          | inr (j, there) ↦ absurd (omega (arith, h.made next j there))
        ]

pub Linked-empty : (next : ℕ) → Linked [] [] next
unfolding find
Linked-empty next = record {
  keys_distinct = tt;
  nodes_distinct = tt;
  node_of_key = λ k e p. absurd (cc);
  key_of_node = λ i k p. absurd (cc);
  made = λ i k p. absurd (cc);
}

-- The map and the list have one length.
pub length-Linked :
    (m : List (Bytes × Entry)) (lru : List (ℕ × Bytes)) {next : ℕ}
    → Linked m lru next
    → length m ≡ length lru
length-Linked [] lru h = rw (empty_of_find-none lru no_node)
  where
    no_node : (i : ℕ) → find i lru ≡ none
    no_node i = elim (Option-cases (find i lru)) [
      | inl e ↦ e
      | inr (k, e) ↦ let (d, p, _) = h.key_of_node i k e in absurd (unfold find in cc)
    ]
length-Linked ((k, e) ∷ m) lru {next} h = omega (
  arith,
  length-Linked m (without e.lru_it lru)
      (subst (λ r. Linked r (without e.lru_it lru) next) tail erased),
  length-without e.lru_it k lru h.nodes_distinct (h.node_of_key k e here),
)
  where
    here : find k ((k, e) ∷ m) ≡ some e
    here = find-head k e m

    tail : without k ((k, e) ∷ m) ≡ m
    tail = without-head k e m h.keys_distinct.0

    erased : Linked (without k ((k, e) ∷ m)) (without e.lru_it lru) next
    erased = Linked-erase h k e here
