-- ===== src/Storage/Memory/View.antt =====
-- What a client of `MemoryStore` can tell: the keys with their values and deadlines, the most
-- recently used first.
use kv.Prelude.{
  ℕ, ◌≡◌, ◌≢◌, refl, Option, none, some, List, [], ◌∷◌, Bytes, ◌↔◌, inl, inr, Option-cases, arith,
  bytes_beq_iff, nat_beq_iff, bytes_eq, nat_eq, beq_refl,
}
use kv.Prelude.Int.{ℤ}
use kv.Prelude.Assoc.{find, without, find-head, Distinct}
use kv.Storage.Memory.{Entry, MemoryStore}
use kv.Storage.Memory.Linked.{Linked}

abbrev pub Content : Type 0
Content = Bytes × ℤ

abbrev pub content : Entry → Content
content e = (e.value, e.expire_at_ms)

unfoldable pub view_of : List (Bytes × Entry) → List (ℕ × Bytes) → List (Bytes × Content)
view_of m [] = []
view_of m ((i, k) ∷ lru) =
    let rest = view_of m lru in elim (find k m) [ none ↦ rest | some e ↦ (k, content e) ∷ rest ]

abbrev pub view : MemoryStore → List (Bytes × Content)
view s = view_of s.m_data s.m_lru

find-view_of_absent :
    (m : List (Bytes × Entry)) (lru : List (ℕ × Bytes)) (k : Bytes)
    → find k m ≡ none
    → find k (view_of m lru) ≡ none
unfolding view_of find
find-view_of_absent m [] k h = refl
find-view_of_absent m ((i, j) ∷ lru) k h =
    ground (arith, find-view_of_absent m lru k h, bytes_beq_iff j k)

find-view_of_present :
    (m : List (Bytes × Entry)) (lru : List (ℕ × Bytes)) (i : ℕ) (k : Bytes) (e : Entry)
    → find i lru ≡ some k
    → find k m ≡ some e
    → find k (view_of m lru) ≡ some (content e)
unfolding view_of find
find-view_of_present m [] i k e p q = cc
find-view_of_present m ((h, j) ∷ lru) i k e p q =
    ground (arith, find-view_of_present m lru i k e, bytes_beq_iff j k, beq_refl k)

-- A key that no node of the list holds is not in the view.
pub find-view_of_unlisted :
    (m : List (Bytes × Entry)) (lru : List (ℕ × Bytes)) (k : Bytes)
    → Distinct lru
    → ((i : ℕ) → find i lru ≢ some k)
    → find k (view_of m lru) ≡ none
unfolding view_of find
find-view_of_unlisted m [] k d h = refl
find-view_of_unlisted m ((i, j) ∷ lru) k (d, ds) h =
    ground (arith, find-view_of_unlisted m lru k ds rest, bytes_beq_iff j k, h i, beq_refl i)
  where
    rest : (n : ℕ) → find n lru ≢ some k
    rest n p = ground (arith, h n, nat_beq_iff i n)

abbrev pub found : Option Entry → Option Content
found none = none
found (some e) = some (content e)

module _ {m : List (Bytes × Entry)} {lru : List (ℕ × Bytes)} {next : ℕ}
    (h : Linked m lru next) where
  -- The view holds what the map holds.
  pub find-view : (k : Bytes) → find k (view_of m lru) ≡ found (find k m)
  find-view k = elim (Option-cases (find k m)) [
    | inl none_there ↦ rw (none_there) (find-view_of_absent m lru k none_there)
    | inr (e, there) ↦
        rw there (find-view_of_present m lru e.lru_it k e (h.node_of_key k e there) there)
  ]

-- The maps `m'` and `m` agree but for the key `k`.
abbrev pub AgreeBut : Bytes → List (Bytes × Entry) → List (Bytes × Entry) → Type 0
AgreeBut k m' m = (j : Bytes) → k ≢ j → find j m' ≡ find j m

-- The node `it` is the only one that holds the key `k`.
abbrev pub OnlyNode : ℕ → Bytes → List (ℕ × Bytes) → Type 0
OnlyNode it k lru = (i : ℕ) (j : Bytes) → find i lru ≡ some j → (j ≡ k) ↔ (i ≡ it)

pub view_of-without :
    (m' m : List (Bytes × Entry)) (lru : List (ℕ × Bytes)) (it : ℕ) (k : Bytes)
    → Distinct lru
    → OnlyNode it k lru
    → AgreeBut k m' m
    → view_of m' (without it lru) ≡ without k (view_of m lru)
unfolding view_of without
view_of-without m' m [] it k d only agree = refl
view_of-without m' m ((i, j) ∷ lru) it k (d, ds) only agree = ground (
  arith,
  only i j (find-head i j lru),
  view_of-without m' m lru it k ds rest agree,
  agree j,
  bytes_beq_iff j k,
)
  where
    rest : OnlyNode it k lru
    rest n o p = only n o (unfold find in ground (arith, nat_beq_iff i n))

-- A key that no node holds does not matter.
pub view_of-unlisted :
    (m' m : List (Bytes × Entry)) (lru : List (ℕ × Bytes)) (k : Bytes)
    → Distinct lru
    → ((i : ℕ) → find i lru ≢ some k)
    → AgreeBut k m' m
    → view_of m' lru ≡ view_of m lru
unfolding view_of
view_of-unlisted m' m [] k d h agree = refl
view_of-unlisted m' m ((i, j) ∷ lru) k (d, ds) h agree =
    ground (arith, h i, find-head i j lru, view_of-unlisted m' m lru k ds rest agree, agree j)
  where
    rest : (n : ℕ) → find n lru ≢ some k
    rest n p = unfold find in ground (arith, h n, nat_beq_iff i n)
