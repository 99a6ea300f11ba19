-- ===== src/Storage/Persistent/Effects.antt =====
-- What a log does to the contents of a calm store, applied once or twice.
use kv.Prelude.{
  ℕ, suc, ◌≡◌, refl, true, Option, none, some, List, [], ◌∷◌, ◌++◌, Bytes, inl, inr, Bool-cases,
  arith, bytes_eq, bytes_beq_iff, ◌==◌, ◌∙◌, sym, ap,
}
use kv.Prelude.Int.{ℤ, ◌≤ℤ◌}
use kv.Prelude.Assoc.{find, Distinct, find-head}
use kv.Text.Lacks.{All}
use kv.Storage.Memory.{StoreEntry, MemoryStore}
use kv.Storage.Memory.View.{Content}
use kv.Storage.Memory.Recency.{pairs, KeysNotEmpty}
use kv.Storage.Wal.{Outcome, finished, apply_parsed}
use kv.Storage.Wal.Records
use kv.Storage.Wal.Records.{Entry, put, expire, del, asks, apply_entries}
use kv.Storage.Snapshot.RoundTrip
use kv.Storage.Snapshot.RoundTrip.{put_all}
use kv.Storage.Persistent.{memory_kv}
use kv.Storage.Persistent.Calm.{
  Lasts, Holds, effect, IsCalm, applied, applied-Holds, applied-finished,
}

abbrev pub effects : List Entry → Bytes → Option Content → Option Content
effects [] j c = c
effects (e ∷ es) j c = effects es j (effect e j c)

pub effects-append :
    (a b : List Entry) (j : Bytes) (c : Option Content)
    → effects (a ++ b) j c ≡ effects b j (effects a j c)
effects-append [] b j c = refl
effects-append (e ∷ a) b j c = effects-append a b j (effect e j c)

abbrev with_deadline : ℤ → Option Content → Option Content
with_deadline x none = none
with_deadline x (some (v, old)) = some (v, x)

-- A log fixes what a key holds, or leaves it alone, or changes its deadline.
data Shape (f : Option Content → Option Content) : Type 0 where
  fixed : (d : Option Content) → ((c : Option Content) → f c ≡ d) → Shape f
  same : ((c : Option Content) → f c ≡ c) → Shape f
  deadline : (x : ℤ) → ((c : Option Content) → f c ≡ with_deadline x c) → Shape f

Shape-of : (e : Entry) (j : Bytes) → Shape (effect e j)
Shape-of (put k v x) j = elim (Bool-cases (k == j)) [
  | inl e ↦ fixed (some (v, x)) λ c. rw e refl
  | inr e ↦ same λ c. rw e refl
]
Shape-of (expire k x) j = elim (Bool-cases (k == j)) [
  | inl e ↦ deadline x (at e)
  | inr e ↦ same λ c. rw e refl
]
  where
    at : (k == j) ≡ true → (c : Option Content) → effect (expire k x) j c ≡ with_deadline x c
    at e none = rw e refl
    at e (some (v, old)) = rw e refl
Shape-of (del k) j = elim (Bool-cases (k == j)) [
  | inl e ↦ fixed none λ c. rw e refl
  | inr e ↦ same λ c. rw e refl
]

deadline-deadline :
    (x y : ℤ) (c : Option Content) → with_deadline y (with_deadline x c) ≡ with_deadline y c
deadline-deadline x y none = refl
deadline-deadline x y (some (v, old)) = refl

compose-Shape : (f g : Option Content → Option Content) → Shape f → Shape g → Shape (λ c. g (f c))
compose-Shape f g _ (fixed d p) = fixed d λ c. p (f c)
compose-Shape f g (fixed d p) _ = fixed (g d) λ c. ap g (p c)
compose-Shape f g (same p) (same q) = same λ c. q (f c) ∙ p c
compose-Shape f g (same p) (deadline y q) = deadline y λ c. q (f c) ∙ ap (with_deadline y) (p c)
compose-Shape f g (deadline x p) (same q) = deadline x λ c. q (f c) ∙ p c
compose-Shape f g (deadline x p) (deadline y q) =
    deadline y λ c. q (f c) ∙ ap (with_deadline y) (p c) ∙ deadline-deadline x y c

Shape-of_all : (es : List Entry) (j : Bytes) → Shape (effects es j)
Shape-of_all [] j = same λ c. refl
Shape-of_all (e ∷ es) j = compose-Shape _ _ (Shape-of e j) (Shape-of_all es j)

-- A log that is applied to what it left changes nothing.
pub effects-twice :
    (es : List Entry) (j : Bytes) (c : Option Content)
    → effects es j (effects es j c) ≡ effects es j c
effects-twice es j c = twice (effects es j) (Shape-of_all es j)
  where
    twice : (f : Option Content → Option Content) → Shape f → f (f c) ≡ f c
    twice f (fixed d p) = p (f c) ∙ sym (p c)
    twice f (same p) = p (f c)
    twice f (deadline x p) =
        p (f c) ∙ ap (with_deadline x) (p c) ∙ deadline-deadline x x c ∙ sym (p c)

-- The entries of a snapshot, as the puts that loading it makes.
abbrev pub puts_of : List StoreEntry → List Entry
puts_of [] = []
puts_of (x ∷ xs) = put x.key x.value x.expire_at_ms ∷ puts_of xs

pub effects-puts_of :
    (xs : List StoreEntry) (j : Bytes) (c : Option Content)
    → Distinct (pairs xs)
    → effects (puts_of xs) j c ≡ elim (find j (pairs xs)) [ none ↦ c | some d ↦ some d ]
unfolding find
effects-puts_of [] j c _ = refl
effects-puts_of (x ∷ xs) j c (d, ds) = ground (
  arith,
  effects-puts_of xs j (effect (put x.key x.value x.expire_at_ms) j c) ds,
  bytes_beq_iff x.key j,
)

pub puts_of-IsCalm :
    (h : ℤ) (xs : List StoreEntry)
    → KeysNotEmpty xs
    → Distinct (pairs xs)
    → ((j : Bytes) (d : Content) → find j (pairs xs) ≡ some d → Lasts h d)
    → All (IsCalm h) (puts_of xs)
puts_of-IsCalm h [] _ _ _ = tt
puts_of-IsCalm h (x ∷ xs) (ne, nes) (d, ds) lasting = (
  (ne, lasting x.key (x.value, x.expire_at_ms) (find-head x.key _ (pairs xs))),
  puts_of-IsCalm h xs nes ds (λ j c p. lasting j c (behind j c p)),
)
  where
    behind :
        (j : Bytes) (c : Content) → find j (pairs xs) ≡ some c → find j (pairs (x ∷ xs)) ≡ some c
    behind j c p = unfold find in ground (arith, bytes_beq_iff x.key j)

module _ (h : ℤ) where
  pub IsCalm-IsWide : (es : List Entry) → All (IsCalm h) es → All Records.IsWide es
  IsCalm-IsWide [] _ = tt
  IsCalm-IsWide (put k v x ∷ es) ((_, (_, w)), cs) = (w, IsCalm-IsWide es cs)
  IsCalm-IsWide (expire k x ∷ es) ((_, w), cs) = (w, IsCalm-IsWide es cs)
  IsCalm-IsWide (del k ∷ es) (_, cs) = (tt, IsCalm-IsWide es cs)

  pub puts_of-IsWide :
      (xs : List StoreEntry) → All (IsCalm h) (puts_of xs) → All RoundTrip.IsWide xs
  puts_of-IsWide [] _ = tt
  puts_of-IsWide (x ∷ xs) ((_, (_, w)), cs) = (w, puts_of-IsWide xs cs)

  -- The log `es` was applied to its end to a store that held `f`.
  pub record Applied (es : List Entry) (f : Bytes → Option Content) (o : Outcome MemoryStore)
      : Type 0 where
    pub store : MemoryStore
    pub ends : o ≡ finished store
    pub holds : Holds h store (λ j. effects es j (f j))

  module _ (clock : ℕ → ℤ) (le : (n : ℕ) → clock n ≤ℤ h) where
    -- Loading a snapshot is applying its puts.
    pub put_all-puts_of :
        (n : ℕ) (xs : List StoreEntry) (s : MemoryStore)
        → put_all memory_kv clock n xs s ≡ apply_entries memory_kv clock n (puts_of xs) s
    unfolding apply_parsed
    put_all-puts_of n [] s = refl
    put_all-puts_of n (x ∷ xs) s = ground (
      arith,
      put_all-puts_of (suc n) xs
          (memory_kv.put_with_expire_at (clock n) x.key x.value x.expire_at_ms s).0,
    )

    -- A calm log is applied to its end, and has its effects.
    pub apply_entries-Holds :
        (n : ℕ) (es : List Entry) (s : MemoryStore) (f : Bytes → Option Content)
        → Holds h s f
        → All (IsCalm h) es
        → Applied es f (apply_entries memory_kv clock n es s)
    apply_entries-Holds n [] s f holds _ = record { store = s; ends = refl; holds = holds }
    apply_entries-Holds n (e ∷ es) s f holds (c, cs) =
        let s' = applied h (clock n) (le n) s holds.calm e in
        let moved = applied-Holds h (clock n) (le n) s holds.calm e c in
        let rest =
          apply_entries-Holds (suc n) es s' (λ j. effect e j (f j))
            (record {
              calm = moved.calm;
              contents = λ j. moved.contents j ∙ ap (effect e j) (holds.contents j);
            })
            cs in
        rw (apply_entries, applied-finished h (clock n) (le n) s holds.calm e c)
          (record { store = rest.store; ends = rest.ends; holds = rest.holds })
