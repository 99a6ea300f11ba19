-- ===== src/Storage/Memory/Moves.antt =====
-- How the view changes with the map and the list: a key dropped, moved to the front, or added.
use kv.Prelude.{
  ℕ, ◌≡◌, ◌≢◌, none, some, List, [], ◌∷◌, Bytes, arith, bytes_beq_iff, nat_beq_iff, bytes_eq,
  nat_eq, ap, sym, ◌∙◌, beq_refl,
}
use kv.Prelude.Assoc.{find, insert, without, find-insert, find-without, without_absent, Distinct}
use kv.Storage.Memory.{Entry}
use kv.Storage.Memory.Linked.{Linked}
use kv.Storage.Memory.View.{
  content, view_of, find-view, AgreeBut, OnlyNode, view_of-without, view_of-unlisted,
  find-view_of_unlisted,
}

insert-AgreeBut : (k : Bytes) (e : Entry) (m : List (Bytes × Entry)) → AgreeBut k (insert k e m) m
insert-AgreeBut k e m j h = ground (arith, find-insert k j e m, bytes_beq_iff k j)

without-AgreeBut : (k : Bytes) (m : List (Bytes × Entry)) → AgreeBut k (without k m) m
without-AgreeBut k m j h = ground (arith, find-without k j m, bytes_beq_iff k j)

view-cons :
    (k : Bytes) (e : Entry) (m : List (Bytes × Entry)) (n : ℕ) (lru : List (ℕ × Bytes))
    → view_of (insert k e m) ((n, k) ∷ lru) ≡ (k, content e) ∷ view_of (insert k e m) lru
unfolding view_of
view-cons k e m n lru = ground (arith, find-insert k k e m, beq_refl k)

module _ {m : List (Bytes × Entry)} {lru : List (ℕ × Bytes)} {next : ℕ}
    (h : Linked m lru next) where
  pub only_node : (k : Bytes) (e : Entry) → find k m ≡ some e → OnlyNode e.lru_it k lru
  only_node k e at i j p =
      let (d, there, ptr) = h.key_of_node i j p in
      (λ q. ground arith, λ q. ground (arith, h.node_of_key k e at))

  pub unlisted : (k : Bytes) → find k m ≡ none → (i : ℕ) → find i lru ≢ some k
  unlisted k absent i p = let (d, there, _) = h.key_of_node i k p in cc

  pub view-erase :
      (k : Bytes) (e : Entry)
      → find k m ≡ some e
      → view_of (without k m) (without e.lru_it lru) ≡ without k (view_of m lru)
  view-erase k e at =
      view_of-without (without k m) m lru e.lru_it k h.nodes_distinct (only_node k e at)
        (without-AgreeBut k m)

  pub view-touch :
      (k : Bytes) (e e' : Entry) (n : ℕ)
      → find k m ≡ some e
      → view_of (insert k e' m) ((n, k) ∷ without e.lru_it lru)
        ≡ (k, content e') ∷ without k (view_of m lru)
  view-touch k e e' n at =
      view-cons k e' m n (without e.lru_it lru)
      ∙ ap (◌∷◌ (k, content e')) (
          view_of-without (insert k e' m) m lru e.lru_it k h.nodes_distinct (only_node k e at)
            (insert-AgreeBut k e' m))

  pub view-fresh :
      (k : Bytes) (e' : Entry) (n : ℕ)
      → find k m ≡ none
      → view_of (insert k e' m) ((n, k) ∷ lru) ≡ (k, content e') ∷ without k (view_of m lru)
  view-fresh k e' n absent =
      view-cons k e' m n lru
      ∙ ap (◌∷◌ (k, content e')) (
          view_of-unlisted (insert k e' m) m lru k h.nodes_distinct (unlisted k absent)
            (insert-AgreeBut k e' m)
          ∙ sym (without_absent k (view_of m lru) (rw (find-view h k, absent))))

  -- No two nodes hold one key.
  pub one_node : (k : Bytes) (i j : ℕ) → find i lru ≡ some k → find j lru ≡ some k → i ≡ j
  one_node k i j p q =
      let (d, there, ptr) = h.key_of_node i k p in
      let (d', there', ptr') = h.key_of_node j k q in ground arith

view_of-Distinct :
    (m : List (Bytes × Entry)) (lru : List (ℕ × Bytes))
    → Distinct lru
    → ((k : Bytes) (i j : ℕ) → find i lru ≡ some k → find j lru ≡ some k → i ≡ j)
    → Distinct (view_of m lru)
unfolding view_of
view_of-Distinct m [] d one = tt
view_of-Distinct m ((i, k) ∷ lru) (d, ds) one =
    ground (arith, view_of-Distinct m lru ds rest, find-view_of_unlisted m lru k ds alone)
  where
    alone : (n : ℕ) → find n lru ≢ some k
    alone n p = unfold find in ground (arith, nat_beq_iff i n, one k n i, beq_refl i)

    rest : (o : Bytes) (n j : ℕ) → find n lru ≡ some o → find j lru ≡ some o → n ≡ j
    rest o n j p q = unfold find in ground (arith, nat_beq_iff i n, nat_beq_iff i j, one o n j)

-- No key stands twice in the view.
pub view-Distinct :
    {m : List (Bytes × Entry)} {lru : List (ℕ × Bytes)} {next : ℕ}
    → Linked m lru next
    → Distinct (view_of m lru)
view-Distinct {m} {lru} h = view_of-Distinct m lru h.nodes_distinct (one_node h)
