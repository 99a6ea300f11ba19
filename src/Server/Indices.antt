-- ===== src/Server/Indices.antt =====
-- A log whose indices follow one another from the snapshot on, and where its entries stand.
use kv.Prelude.{
  ℕ, zero, suc, ◌+◌, ◌≡◌, refl, false, none, some, List, [], ◌∷◌, ◌++◌, if◌then◌else◌, leb, length,
  take, get_elem?, arith, ap, subst, sym, ◌∙◌, length-append,
}
use kv.Prelude.Int.{ℤ, pos, negsuc, ◌-ℤ◌, pos-sub}
use kv.Server.{
  RaftLogEntry, RaftLog, last_entry, raft_last_log_index_locked, raft_log_offset_locked, entry_at,
  raft_term_at_locked,
}

-- The first entry stands after the index `b`.
abbrev pub Contiguous : ℕ → List RaftLogEntry → Type 0
Contiguous b [] = Unit
Contiguous b (e ∷ es) = (e.index ≡ pos (suc b)) × Contiguous (suc b) es

add_none : (b : ℕ) → b + 0 ≡ b
add_none b = omega arith

pub Contiguous-append :
    (b : ℕ) (es fs : List RaftLogEntry)
    → Contiguous b es
    → Contiguous (b + length es) fs
    → Contiguous b (es ++ fs)
Contiguous-append b [] fs h h' = subst (λ n. Contiguous n fs) (add_none b) h'
Contiguous-append b (e ∷ es) fs (i, h) h' = (i, Contiguous-append (suc b) es fs h (rw shift h'))
  where
    shift : suc b + length es ≡ b + suc (length es)
    shift = omega arith

pub Contiguous-prefix :
    (b : ℕ) (es fs : List RaftLogEntry) → Contiguous b (es ++ fs) → Contiguous b es
Contiguous-prefix b [] fs h = tt
Contiguous-prefix b (e ∷ es) fs (i, h) = (i, Contiguous-prefix (suc b) es fs h)

pub Contiguous-suffix :
    (b : ℕ) (es fs : List RaftLogEntry) → Contiguous b (es ++ fs) → Contiguous (b + length es) fs
Contiguous-suffix b [] fs h = subst (λ n. Contiguous n fs) (sym (add_none b)) h
Contiguous-suffix b (e ∷ es) fs (i, h) = rw shift (Contiguous-suffix (suc b) es fs h)
  where
    shift : b + suc (length es) ≡ suc b + length es
    shift = omega arith

pub Contiguous-take :
    (b n : ℕ) (es : List RaftLogEntry) → Contiguous b es → Contiguous b (take n es)
Contiguous-take b zero es h = tt
Contiguous-take b (suc n) [] h = tt
Contiguous-take b (suc n) (e ∷ es) (i, h) = (i, Contiguous-take (suc b) n es h)

last_entry-Contiguous :
    (b : ℕ) (e : RaftLogEntry) (es : List RaftLogEntry)
    → Contiguous b (e ∷ es)
    → (f : RaftLogEntry) × (last_entry (e ∷ es) ≡ some f) × (f.index ≡ pos (b + length (e ∷ es)))
unfolding last_entry
last_entry-Contiguous b e [] (i, _) = (e, refl, i ∙ ap pos (omega arith))
last_entry-Contiguous b e (e' ∷ es) (i, h) =
    let (f, p, q) = last_entry-Contiguous (suc b) e' es h in (f, p, q ∙ ap pos (omega arith))

get_elem?-append {ℓ} :
    {A : Type ℓ} (xs ys : List A) (y : A) → get_elem? (xs ++ y ∷ ys) (length xs) ≡ some y
get_elem?-append [] ys y = refl
get_elem?-append (x ∷ xs) ys y = get_elem?-append xs ys y

less_one : (k : ℕ) → pos (suc k) -ℤ pos 1 ≡ pos k
unfolding ◌-ℤ◌
less_one k = ground arith

module _ (r : RaftLog) (b : ℕ) (base : r.m_raft_last_included_index ≡ pos b) where
  pub raft_log_offset-at :
      (k : ℕ)
      → raft_log_offset_locked (pos (b + suc k)) r
        ≡ (if leb (length r.m_raft_log) k then none else some k)
  unfolding raft_log_offset_locked
  raft_log_offset-at k =
      rw (raft_log_offset_locked, base, pos-sub b (suc k), less_one k) (ground arith)

  pub raft_last_log_index-Contiguous :
      Contiguous b r.m_raft_log → raft_last_log_index_locked r ≡ pos (b + length r.m_raft_log)
  unfolding raft_last_log_index_locked
  raft_last_log_index-Contiguous h = from r.m_raft_log h
    where
      from :
          (es : List RaftLogEntry)
          → Contiguous b es
          → elim (last_entry es) as (λ _. ℤ) [
            | none ↦ r.m_raft_last_included_index
            | some e ↦ e.index
          ]
            ≡ pos (b + length es)
      from [] h = unfold last_entry in (base ∙ ap pos (sym (add_none b)))
      from (e ∷ es) h = let (f, p, q) = last_entry-Contiguous b e es h in rw p q

  -- The entry after those of `done`.
  pub entry_at-append :
      (done : List RaftLogEntry) (e : RaftLogEntry) (rest : List RaftLogEntry)
      → r.m_raft_log ≡ done ++ e ∷ rest
      → entry_at (pos (b + suc (length done))) r ≡ some e
  unfolding entry_at
  entry_at-append done e rest log =
      rw (entry_at, raft_log_offset-at (length done), log, inside)
        (ap (λ l. get_elem? l (length done)) log ∙ get_elem?-append done rest e)
    where
      inside : leb (length (done ++ e ∷ rest)) (length done) ≡ false
      inside = ground (arith, length-append done (e ∷ rest))

  pub raft_term_at-append :
      (done : List RaftLogEntry) (e : RaftLogEntry) (rest : List RaftLogEntry)
      → r.m_raft_log ≡ done ++ e ∷ rest
      → raft_term_at_locked (pos (b + suc (length done))) r ≡ e.term
  unfolding raft_term_at_locked
  raft_term_at-append done e rest log =
      rw (raft_term_at_locked, entry_at-append done e rest log, base) (ground arith)

  -- The index after the last entry.
  pub raft_term_at-end : raft_term_at_locked (pos (b + suc (length r.m_raft_log))) r ≡ negsuc 0
  unfolding raft_term_at_locked entry_at
  raft_term_at-end =
      rw (raft_term_at_locked, entry_at, raft_log_offset-at (length r.m_raft_log), base)
        (ground arith)
