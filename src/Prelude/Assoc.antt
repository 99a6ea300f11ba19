-- ===== src/Prelude/Assoc.antt =====
-- `std::unordered_map` and keyed lists: association lists with the laws of their lookups. The order
-- of the entries stands for the unspecified order of the source's map.
use kv.Prelude.Tests.{Eq, ◌==◌, if◌then◌else◌, beq_refl}
use kv.Prelude.Lists.{length, keep}
use Prim.Native.Nat.{◌≤◌, ◌+◌}
use mathlib.Core.Path.{◌≡◌, refl}
use mathlib.Core.Bool.{Bool, false}
use mathlib.Core.List.{List, [], ◌∷◌, ◌++◌}
use mathlib.Core.Option.{Option, none, some}
use native.Mathlib.Omega.{arith}

module _ {ℓ κ} {K : Type ℓ} {V : Type κ} ⦃e : Eq K⦄ where
  -- m.find(k)
  unfoldable pub find : K → List (K × V) → Option V
  find k [] = none
  find k ((j, v) ∷ m) = if j == k then some v else find k m

  -- m[k] = v
  unfoldable pub insert : K → V → List (K × V) → List (K × V)
  insert k v [] = (k, v) ∷ []
  insert k v ((j, w) ∷ m) = if j == k then (k, v) ∷ m else (j, w) ∷ insert k v m

  -- m.erase(k)
  unfoldable pub without : K → List (K × V) → List (K × V)
  without k [] = []
  without k ((j, v) ∷ m) = let rest = without k m in if j == k then rest else (j, v) ∷ rest

  pub find-insert :
      (k j : K) (v : V) (m : List (K × V))
      → find j (insert k v m) ≡ (if k == j then some v else find j m)
  unfolding find insert
  find-insert k j v [] = refl
  find-insert k j v ((i, w) ∷ m) =
      ground (arith, e.test_iff k j, e.test_iff i k, e.test_iff i j, find-insert k j v m)

  pub find-without :
      (k j : K) (m : List (K × V)) → find j (without k m) ≡ (if k == j then none else find j m)
  unfolding find without
  find-without k j [] = ground arith
  find-without k j ((i, w) ∷ m) =
      ground (arith, e.test_iff k j, e.test_iff i k, e.test_iff i j, find-without k j m)

  pub length-without-le : (k : K) (m : List (K × V)) → length (without k m) ≤ length m
  unfolding without
  length-without-le k [] = omega arith
  length-without-le k ((j, v) ∷ m) = ground (arith, length-without-le k m)

  -- A map in which nothing is found is empty.
  pub empty_of_find-none : (m : List (K × V)) → ((k : K) → find k m ≡ none) → m ≡ []
  unfolding find
  empty_of_find-none [] h = refl
  empty_of_find-none ((j, v) ∷ m) h = ground (arith, h j, beq_refl j)

  pub insert-insert :
      (k : K) (v w : V) (m : List (K × V)) → insert k v (insert k w m) ≡ insert k v m
  unfolding insert
  insert-insert k v w [] = ground (arith, beq_refl k)
  insert-insert k v w ((j, x) ∷ m) = ground (arith, beq_refl k, insert-insert k v w m)

  -- No key stands twice.
  abbrev pub Distinct : List (K × V) → Type κ
  Distinct [] = Unit
  Distinct ((k, v) ∷ m) = (find k m ≡ none) × Distinct m

  pub insert-Distinct : (k : K) (v : V) (m : List (K × V)) → Distinct m → Distinct (insert k v m)
  unfolding insert
  insert-Distinct k v [] d = (unfold find in refl, tt)
  insert-Distinct k v ((j, x) ∷ m) (d, ds) =
      ground (arith, e.test_iff j k, e.test_iff k j, find-insert k j v m, insert-Distinct k v m ds)

  pub without-Distinct : (k : K) (m : List (K × V)) → Distinct m → Distinct (without k m)
  unfolding without
  without-Distinct k [] d = tt
  without-Distinct k ((j, x) ∷ m) (d, ds) =
      ground (arith, find-without k j m, without-Distinct k m ds)

  pub without_absent : (k : K) (m : List (K × V)) → find k m ≡ none → without k m ≡ m
  unfolding find without
  without_absent k [] h = refl
  without_absent k ((j, x) ∷ m) h = ground (arith, without_absent k m)

  pub length-without :
      (k : K) (v : V) (m : List (K × V))
      → Distinct m
      → find k m ≡ some v
      → length (without k m) + 1 ≡ length m
  unfolding find without
  length-without k v [] d h = cc
  length-without k v ((j, x) ∷ m) (d, ds) h =
      ground (arith, e.test_iff j k, length-without k v m ds, without_absent k m)

  pub length-insert_absent :
      (k : K) (v : V) (m : List (K × V)) → find k m ≡ none → length (insert k v m) ≡ length m + 1
  unfolding find insert
  length-insert_absent k v [] h = omega arith
  length-insert_absent k v ((j, x) ∷ m) h = ground (arith, length-insert_absent k v m)

  pub length-insert_present :
      (k : K) (v w : V) (m : List (K × V)) → find k m ≡ some w → length (insert k v m) ≡ length m
  unfolding find insert
  length-insert_present k v w [] h = cc
  length-insert_present k v w ((j, x) ∷ m) h = ground (arith, length-insert_present k v w m)

  pub find-head : (k : K) (v : V) (m : List (K × V)) → find k ((k, v) ∷ m) ≡ some v
  unfolding find
  find-head k v m = ground (arith, beq_refl k)

  pub without-head :
      (k : K) (v : V) (m : List (K × V)) → find k m ≡ none → without k ((k, v) ∷ m) ≡ m
  unfolding without
  without-head k v m h = ground (arith, beq_refl k, without_absent k m h)

  pub find-middle :
      (pre : List (K × V)) (k : K) (v : V) (m : List (K × V))
      → Distinct (pre ++ (k, v) ∷ m)
      → find k (pre ++ (k, v) ∷ m) ≡ some v
  unfolding find
  find-middle [] k v m d = find-head k v m
  find-middle ((j, w) ∷ pre) k v m (d, ds) =
      ground (arith, find-middle pre k v m ds, e.test_iff j k)

  pub without-middle :
      (pre : List (K × V)) (k : K) (v : V) (m : List (K × V))
      → Distinct (pre ++ (k, v) ∷ m)
      → without k (pre ++ (k, v) ∷ m) ≡ pre ++ m
  unfolding without
  without-middle [] k v m (d, ds) = without-head k v m d
  without-middle ((j, w) ∷ pre) k v m (d, ds) =
      ground (arith, find-middle pre k v m ds, without-middle pre k v m ds, e.test_iff j k)

  -- Dropping a key whose entry fails the test makes no difference to what passes.
  pub keep-without :
      (p : K × V → Bool) (k : K) (v : V) (m : List (K × V))
      → Distinct m
      → find k m ≡ some v
      → p (k, v) ≡ false
      → keep p (without k m) ≡ keep p m
  unfolding keep find without
  keep-without p k v [] d f h = cc
  keep-without p k v ((j, w) ∷ m) (d, ds) f h =
      ground (arith, e.test_iff j k, keep-without p k v m ds, without_absent k m)

  pub find-append :
      (k : K) (a b : List (K × V))
      → find k (a ++ b) ≡ elim (find k a) [ none ↦ find k b | some v ↦ some v ]
  unfolding find
  find-append k [] b = refl
  find-append k ((j, w) ∷ a) b = ground (arith, find-append k a b)

  pub find-insert_self : (k : K) (v : V) (m : List (K × V)) → find k (insert k v m) ≡ some v
  find-insert_self k v m = ground (arith, find-insert k k v m, beq_refl k)
