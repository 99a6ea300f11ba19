-- ===== src/Storage/Memory/Eviction.antt =====
-- `evict_expired_locked` keeps the invariant, and drops exactly the expired keys from the view.
use kv.Prelude.{
  ℕ, ◌≡◌, refl, Bool, true, false, not, some, List, [], ◌∷◌, ◌++◌, Bytes, inl, inr, Bool-cases,
  Option-cases, arith, bytes_beq_iff, bytes_eq, nat_eq, ap, sym, ◌∙◌, subst, keep, append_assoc,
  append-nil, ◌&&◌,
}
use kv.Prelude.Int.{ℤ, pos, ltb_ℤ, leb_ℤ}
use kv.Prelude.Assoc.{find, without, find-middle, without-middle, keep-without, find-append}
use kv.Storage.Memory.{Entry, MemoryStore, expired, evict_from, evict_expired_locked}
use kv.Storage.Memory.Linked.{Linked, Linked-erase}
use kv.Storage.Memory.View.{Content, content, view_of, view, find-view}
use kv.Storage.Memory.Moves.{view-erase, view-Distinct}

-- The deadline of an entry of the view has passed.
abbrev pub dead : ℤ → Content → Bool
dead now (v, x) = ltb_ℤ (pos 0) x && leb_ℤ x now

abbrev pub alive : ℤ → Bytes × Content → Bool
alive now (k, c) = not (dead now c)

AllAlive : ℤ → List (Bytes × Entry) → Type 0
AllAlive now m = (k : Bytes) (e : Entry) → find k m ≡ some e → expired e now ≡ false

keep-view_of :
    (now : ℤ) (m : List (Bytes × Entry)) (lru : List (ℕ × Bytes))
    → AllAlive now m
    → keep (alive now) (view_of m lru) ≡ view_of m lru
unfolding AllAlive keep view_of expired
keep-view_of now m [] h = refl
keep-view_of now m ((i, k) ∷ lru) h = elim (Option-cases (find k m)) [
  | inl e ↦ ground (arith, keep-view_of now m lru h)
  | inr (e, p) ↦ ground (arith, keep-view_of now m lru h, h k e p)
]

-- The map from the start up to the iterator, the entry that it points at, and the rest.
module _ (now : ℤ) (kept : List (Bytes × Entry)) (k : Bytes) (e : Entry)
    (m : List (Bytes × Entry)) where
  snoc-AllAlive : AllAlive now kept → expired e now ≡ false → AllAlive now (kept ++ (k, e) ∷ [])
  unfolding AllAlive find
  snoc-AllAlive h live j d p =
      ground (arith, find-append j kept ((k, e) ∷ []), h j d, bytes_beq_iff k j)

  module _ {lru : List (ℕ × Bytes)} {next : ℕ} (h : Linked (kept ++ (k, e) ∷ m) lru next) where
    there : find k (kept ++ (k, e) ∷ m) ≡ some e
    there = find-middle kept k e m h.keys_distinct

    gone : without k (kept ++ (k, e) ∷ m) ≡ kept ++ m
    gone = without-middle kept k e m h.keys_distinct

    drop-Linked : Linked (kept ++ m) (without e.lru_it lru) next
    drop-Linked = subst (λ r. Linked r (without e.lru_it lru) next) gone (Linked-erase h k e there)

    drop-view :
        expired e now ≡ true
        → keep (alive now) (view_of (kept ++ m) (without e.lru_it lru))
          ≡ keep (alive now) (view_of (kept ++ (k, e) ∷ m) lru)
    unfolding expired
    drop-view old =
        ap (λ r. keep (alive now) (view_of r (without e.lru_it lru))) (sym gone)
        ∙ ap (keep (alive now)) (view-erase h k e there)
        ∙ keep-without (alive now) k (content e) (view_of (kept ++ (k, e) ∷ m) lru)
            (view-Distinct h) (rw (find-view h k, there)) (ground arith)

evict_from-Linked :
    (now : ℤ) (kept m : List (Bytes × Entry)) (lru : List (ℕ × Bytes)) {next : ℕ}
    → Linked (kept ++ m) lru next
    → Linked (kept ++ (evict_from now m lru).0) (evict_from now m lru).1 next
unfolding evict_from
evict_from-Linked now kept [] lru h = h
evict_from-Linked now kept ((k, e) ∷ m) lru {next} h = elim (Bool-cases (expired e now)) [
  | inl old ↦
      rw (old, evict_from)
        (evict_from-Linked now kept m (without e.lru_it lru) (drop-Linked now kept k e m h))
  | inr live ↦
      let ih =
        evict_from-Linked now (kept ++ (k, e) ∷ []) m lru {next = next} (rw append_assoc h) in
      rw (live, evict_from) (rw append_assoc at ih)
]

evict_from-view :
    (now : ℤ) (kept m : List (Bytes × Entry)) (lru : List (ℕ × Bytes)) {next : ℕ}
    → AllAlive now kept
    → Linked (kept ++ m) lru next
    → view_of (kept ++ (evict_from now m lru).0) (evict_from now m lru).1
      ≡ keep (alive now) (view_of (kept ++ m) lru)
unfolding evict_from
evict_from-view now kept [] lru all h = sym (rw append-nil (keep-view_of now kept lru all))
evict_from-view now kept ((k, e) ∷ m) lru {next} all h = elim (Bool-cases (expired e now)) [
  | inl old ↦
      rw (old, evict_from)
        (evict_from-view now kept m (without e.lru_it lru) all (drop-Linked now kept k e m h)
          ∙ drop-view now kept k e m h old)
  | inr live ↦
      let ih =
        evict_from-view now (kept ++ (k, e) ∷ []) m lru {next = next}
          (snoc-AllAlive now kept k e m all live) (rw append_assoc h) in
      rw (live, evict_from) (simp append_assoc at ih)
]

module _ (now : ℤ) (s : MemoryStore) (h : Linked s.m_data s.m_lru s.next_node) where
  pub evict_expired_locked-Linked :
      Linked (evict_expired_locked now s).m_data (evict_expired_locked now s).m_lru s.next_node
  unfolding evict_expired_locked
  evict_expired_locked-Linked = evict_from-Linked now [] s.m_data s.m_lru h

  pub evict_expired_locked-view : view (evict_expired_locked now s) ≡ keep (alive now) (view s)
  unfolding evict_expired_locked AllAlive find
  evict_expired_locked-view = evict_from-view now [] s.m_data s.m_lru (λ k e p. absurd (cc)) h
