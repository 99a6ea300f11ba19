-- ===== src/Server/Append/Merge.antt =====
-- A batch of entries goes into the log by the rule of Raft: what agrees with the log is kept, and from
-- the first entry of another term on, the batch replaces the log.
use kv.Prelude.{
  ℕ, suc, ◌+◌, ◌≡◌, refl, Bool, true, false, List, [], ◌∷◌, ◌++◌, if◌then◌else◌, leb, length, take,
  arith, ap, subst, sym, ◌∙◌, append_assoc, append-nil, length-append, take-append_length, inl, inr,
  Bool-cases,
}
use kv.Prelude.Int.{pos, negsuc, ◌+ℤ◌, eqb_ℤ, ltb_ℤ, pos-add}
use kv.Text.Lacks.{All}
use kv.Server.{
  RaftLogEntry, RaftLog, raft_last_log_index_locked, raft_term_at_locked, erase_from, push_entry,
}
use kv.Server.Indices.{
  Contiguous, Contiguous-append, Contiguous-prefix, raft_log_offset-at,
  raft_last_log_index-Contiguous, raft_term_at-append, raft_term_at-end,
}
use kv.Server.Append.{is_next, place_entry, append_batch}

-- The rule.
pub merge : List RaftLogEntry → List RaftLogEntry → List RaftLogEntry
merge log [] = log
merge [] (e ∷ es) = e ∷ es
merge (x ∷ xs) (e ∷ es) = let rest = merge xs es in if eqb_ℤ x.term e.term then x ∷ rest else e ∷ es

-- -1 is not the term of an entry.
abbrev pub HasTerm : RaftLogEntry → Type 0
HasTerm e = eqb_ℤ e.term (negsuc 0) ≡ false

module _ (r : RaftLog) (b : ℕ) (done : List RaftLogEntry) (e : RaftLogEntry)
    (base : r.m_raft_last_included_index ≡ pos b)
    (index : e.index ≡ pos (b + suc (length done))) where
  is_next_iff :
      (n : ℕ)
      → raft_last_log_index_locked r ≡ pos (b + n)
      → is_next e.index r ≡ eqb_ℤ (pos (b + suc (length done))) (pos (b + suc n))
  is_next_iff n last =
      ap (λ z. eqb_ℤ z (raft_last_log_index_locked r +ℤ pos 1)) index
      ∙ ap (λ z. eqb_ℤ (pos (b + suc (length done))) z)
          (ap (λ z. z +ℤ pos 1) last ∙ pos-add (b + n) 1 ∙ ap pos (omega arith))

  place_entry-end :
      r.m_raft_log ≡ done
      → Contiguous b r.m_raft_log
      → place_entry e r ≡ record r { m_raft_log = done ++ e ∷ [] }
  unfolding place_entry
  place_entry-end log h =
      rw (place_entry, free, next)
        (unfold push_entry in ap (λ l. record r { m_raft_log = l ++ e ∷ [] }) log)
    where
      free : raft_term_at_locked e.index r ≡ negsuc 0
      free =
          ap (λ z. raft_term_at_locked z r) (index ∙ ap (λ l. pos (b + suc (length l))) (sym log))
          ∙ raft_term_at-end r b base

      next : is_next e.index r ≡ true
      next =
          is_next_iff (length done)
            (raft_last_log_index-Contiguous r b base h ∙ ap (λ l. pos (b + length l)) log)
          ∙ ground arith

module _ (r : RaftLog) (b : ℕ) (done : List RaftLogEntry) (x : RaftLogEntry)
    (xs : List RaftLogEntry) (e : RaftLogEntry) (base : r.m_raft_last_included_index ≡ pos b)
    (index : e.index ≡ pos (b + suc (length done))) (log : r.m_raft_log ≡ done ++ x ∷ xs)
    (h : Contiguous b r.m_raft_log) (has_term : HasTerm x) where
  found : raft_term_at_locked e.index r ≡ x.term
  found = ap (λ z. raft_term_at_locked z r) index ∙ raft_term_at-append r b base done x xs log

  place_entry-agree : eqb_ℤ x.term e.term ≡ true → place_entry e r ≡ r
  unfolding place_entry
  place_entry-agree agree = rw (place_entry, found, has_term, agree, not_next) refl
    where
      not_next : is_next e.index r ≡ false
      not_next =
          is_next_iff r b done e base index (length (done ++ x ∷ xs))
            (raft_last_log_index-Contiguous r b base h ∙ ap (λ l. pos (b + length l)) log)
          ∙ ground (arith, length-append done (x ∷ xs))

  erase_from-append : erase_from e.index r ≡ record r { m_raft_log = done }
  unfolding erase_from
  erase_from-append =
      rw (erase_from, index, raft_log_offset-at r b base (length done), log_inside)
        (ap (λ l. record r { m_raft_log = l })
          (ap (take (length done)) log ∙ take-append_length done (x ∷ xs)))
    where
      log_inside : leb (length r.m_raft_log) (length done) ≡ false
      log_inside =
          ap (λ l. leb (length l) (length done)) log ∙ ground (arith, length-append done (x ∷ xs))

  place_entry-conflict :
      eqb_ℤ x.term e.term ≡ false → place_entry e r ≡ record r { m_raft_log = done ++ e ∷ [] }
  unfolding place_entry
  place_entry-conflict differ =
      rw (place_entry, found, has_term, differ, erase_from-append, next) (unfold push_entry in refl)
    where
      next : is_next e.index (record r { m_raft_log = done }) ≡ true
      next =
          is_next_iff (record r { m_raft_log = done }) b done e base index (length done)
            (raft_last_log_index-Contiguous (record r { m_raft_log = done }) b base
              (Contiguous-prefix b done (x ∷ xs) (subst (Contiguous b) log h)))
          ∙ ground arith

merge-nil : (log : List RaftLogEntry) → merge log [] ≡ log
unfolding merge
merge-nil [] = refl
merge-nil (x ∷ xs) = refl

merge_empty : (es : List RaftLogEntry) → merge [] es ≡ es
unfolding merge
merge_empty [] = refl
merge_empty (e ∷ es) = refl

length-snoc :
    (b : ℕ) (done : List RaftLogEntry) (x : RaftLogEntry)
    → b + suc (length done) ≡ b + length (done ++ x ∷ [])
length-snoc b done x = omega (arith, length-append done (x ∷ []))

-- The two tests of a turn are passed.
append_batch-step :
    (r r' : RaftLog) (b : ℕ) (done suffix : List RaftLogEntry) (e x : RaftLogEntry)
    (es : List RaftLogEntry)
    → r.m_raft_last_included_index ≡ pos b
    → r.m_raft_log ≡ done ++ suffix
    → Contiguous b r.m_raft_log
    → e.index ≡ pos (b + suc (length done))
    → place_entry e r ≡ r'
    → append_batch (pos (b + suc (length done))) (e ∷ es) r
      ≡ append_batch (pos (b + suc (length (done ++ x ∷ [])))) es r'
unfolding append_batch
append_batch-step r r' b done suffix e x es base log h index placed =
    rw (append_batch, expected, within, placed)
      (ap (λ z. append_batch z es r')
        (pos-add (b + suc (length done)) 1 ∙ ap pos (omega (arith, length-snoc b done x))))
  where
    expected : eqb_ℤ e.index (pos (b + suc (length done))) ≡ true
    expected = rw index (ground arith)

    within : ltb_ℤ (raft_last_log_index_locked r +ℤ pos 1) e.index ≡ false
    within =
        ap (λ z. ltb_ℤ (z +ℤ pos 1) e.index)
          (raft_last_log_index-Contiguous r b base h ∙ ap (λ l. pos (b + length l)) log)
        ∙ ap (λ z. ltb_ℤ z e.index) (pos-add (b + length (done ++ suffix)) 1)
        ∙ rw index (ground (arith, length-append done suffix))

merge-agree :
    (x e : RaftLogEntry) (xs es : List RaftLogEntry)
    → eqb_ℤ x.term e.term ≡ true
    → merge (x ∷ xs) (e ∷ es) ≡ x ∷ merge xs es
unfolding merge
merge-agree x e xs es agree = rw agree refl

merge-differ :
    (x e : RaftLogEntry) (xs es : List RaftLogEntry)
    → eqb_ℤ x.term e.term ≡ false
    → merge (x ∷ xs) (e ∷ es) ≡ e ∷ es
unfolding merge
merge-differ x e xs es differ = rw differ refl

with_log : RaftLog → List RaftLogEntry → RaftLog × Bool
with_log r log = (record r { m_raft_log = log }, true)

after_push :
    (r : RaftLog) (done : List RaftLogEntry) (e : RaftLogEntry) (es : List RaftLogEntry)
    → with_log (record r { m_raft_log = done ++ e ∷ [] }) ((done ++ e ∷ []) ++ merge [] es)
      ≡ with_log r (done ++ e ∷ es)
unfolding with_log
after_push r done e es =
    ap (with_log r)
      (ap (λ l. (done ++ e ∷ []) ++ l) (merge_empty es) ∙ append_assoc done (e ∷ []) es)

Contiguous-snoc :
    (b : ℕ) (done : List RaftLogEntry) (e : RaftLogEntry)
    → Contiguous b done
    → e.index ≡ pos (suc (b + length done))
    → Contiguous b (done ++ e ∷ [])
Contiguous-snoc b done e h i = Contiguous-append b done (e ∷ []) h (i, tt)

-- What the loop over a batch leaves of the log is what the rule says, from the entry that the batch
-- starts at on, and it comes to the end; the indices of the log and of the batch follow one another, and
-- no entry of the log has the term -1.
pub append_batch-merge :
    (es : List RaftLogEntry) (r : RaftLog) (b : ℕ) (done suffix : List RaftLogEntry)
    → r.m_raft_last_included_index ≡ pos b
    → r.m_raft_log ≡ done ++ suffix
    → Contiguous b r.m_raft_log
    → All HasTerm suffix
    → Contiguous (b + length done) es
    → append_batch (pos (b + suc (length done))) es r
      ≡ (record r { m_raft_log = done ++ merge suffix es }, true)
unfolding append_batch with_log
append_batch-merge [] r b done suffix base log h terms hs =
    ap (with_log r) (log ∙ ap (λ l. done ++ l) (sym (merge-nil suffix)))
append_batch-merge (e ∷ es) r b done [] base log h terms (i, hs) =
    append_batch-step r _ b done [] e e es base log h (i ∙ ap pos (omega arith))
      (place_entry-end r b done e base (i ∙ ap pos (omega arith)) (log ∙ append-nil done) h)
    ∙ append_batch-merge es (record r { m_raft_log = done ++ e ∷ [] }) b (done ++ e ∷ []) [] base
        (sym (append-nil (done ++ e ∷ [])))
        (Contiguous-snoc b done e (subst (Contiguous b) (log ∙ append-nil done) h) i) tt
        (subst (λ n. Contiguous n es) (omega (arith, length-snoc b done e)) hs)
    ∙ after_push r done e es
    ∙ ap (λ l. with_log r (done ++ l)) (sym (merge_empty (e ∷ es)))
append_batch-merge (e ∷ es) r b done (x ∷ xs) base log h (has_term, terms) (i, hs) =
    elim (Bool-cases (eqb_ℤ x.term e.term)) [
      | inl agree ↦
          append_batch-step r r b done (x ∷ xs) e x es base log h (i ∙ ap pos (omega arith))
            (place_entry-agree r b done x xs e base (i ∙ ap pos (omega arith)) log h has_term agree)
          ∙ append_batch-merge es r b (done ++ x ∷ []) xs base
              (log ∙ sym (append_assoc done (x ∷ []) xs)) h terms
              (subst (λ n. Contiguous n es) (omega (arith, length-snoc b done x)) hs)
          ∙ ap (with_log r) (
              append_assoc done (x ∷ []) (merge xs es)
              ∙ ap (λ l. done ++ l) (sym (merge-agree x e xs es agree)))
      | inr differ ↦
          append_batch-step r _ b done (x ∷ xs) e e es base log h (i ∙ ap pos (omega arith)) (
            place_entry-conflict r b done x xs e base (i ∙ ap pos (omega arith)) log h has_term
              differ)
          ∙ append_batch-merge es (record r { m_raft_log = done ++ e ∷ [] }) b (done ++ e ∷ []) []
              base (sym (append-nil (done ++ e ∷ [])))
              (Contiguous-snoc b done e
                (Contiguous-prefix b done (x ∷ xs) (subst (Contiguous b) log h)) i)
              tt (subst (λ n. Contiguous n es) (omega (arith, length-snoc b done e)) hs)
          ∙ after_push r done e es
          ∙ ap (λ l. with_log r (done ++ l)) (sym (merge-differ x e xs es differ))
    ]
