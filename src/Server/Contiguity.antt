-- ===== src/Server/Contiguity.antt =====
-- Which indices the entries of a log carry, and what the changes of the log make of them.
pub mod Handlers
pub mod Histories
use kv.Prelude.{
  ℕ, zero, suc, ◌+◌, ◌≡◌, ◌≤◌, ◌<◌, refl, Bool, true, false, not, Option, none, some, List, [], ◌∷◌,
  ◌++◌, if◌then◌else◌, length, take, keep, ltb, ltb→lt, arith, ap, subst, sym, ◌∙◌, inl, inr,
  Bool-cases, Option-cases,
}
use kv.Prelude.Int.{ℤ, pos, negsuc, ◌+ℤ◌, ltb_ℤ, leb_ℤ, eqb_ℤ, pos-add}
use kv.Protocol.{Request}
use kv.Server.{
  RaftLogEntry, RaftLog, raft_last_log_index_locked, raft_log_offset_locked, erase_from, push_entry,
}
use kv.Server.Indices.{
  Contiguous, Contiguous-append, Contiguous-take, raft_last_log_index-Contiguous,
}
use kv.Server.Append.{
  cut_conflict, conflicts, is_next, place_entry, append_batch, drop_from, installed,
}
use kv.Server.Apply.{compacted, caught_up, next_committed, apply_entries}
use kv.Server.Store.{StoreMethods}

pub record IsContiguous (r : RaftLog) : Type 0 where
  pub base : ℕ
  pub at_base : r.m_raft_last_included_index ≡ pos base
  pub follows : Contiguous base r.m_raft_log

pub erase_from-IsContiguous :
    (index : ℤ) (r : RaftLog) → IsContiguous r → IsContiguous (erase_from index r)
unfolding erase_from
erase_from-IsContiguous index r h = elim (Option-cases (raft_log_offset_locked index r)) [
  | inl nowhere ↦ rw (erase_from, nowhere) h
  | inr (offset, at) ↦
      rw (erase_from, at)
        (record {
          base = h.base;
          at_base = h.at_base;
          follows = Contiguous-take h.base offset r.m_raft_log h.follows;
        })
]

pub eqb_sound : (a b : ℤ) → eqb_ℤ a b ≡ true → a ≡ b
eqb_sound (pos a) (pos b) h = ground arith
eqb_sound (pos a) (negsuc b) h = ground arith
eqb_sound (negsuc a) (pos b) h = ground arith
eqb_sound (negsuc a) (negsuc b) h = ground arith

pub push_entry-IsContiguous :
    (e : RaftLogEntry) (r : RaftLog)
    → is_next e.index r ≡ true
    → IsContiguous r
    → IsContiguous (push_entry e r)
unfolding push_entry
push_entry-IsContiguous e r next h = record {
  base = h.base;
  at_base = h.at_base;
  follows = Contiguous-append h.base r.m_raft_log (e ∷ []) h.follows (index, tt);
}
  where
    index : e.index ≡ pos (suc (h.base + length r.m_raft_log))
    index =
        eqb_sound e.index (raft_last_log_index_locked r +ℤ pos 1) next
        ∙ ap (λ z. z +ℤ pos 1) (raft_last_log_index-Contiguous r h.base h.at_base h.follows)
        ∙ pos-add (h.base + length r.m_raft_log) 1
        ∙ ap pos (omega arith)

cut_conflict-IsContiguous :
    (index term : ℤ) (r : RaftLog) → IsContiguous r → IsContiguous (cut_conflict index term r)
cut_conflict-IsContiguous index term r h = elim (Bool-cases (conflicts index term r)) [
  | inl cut ↦
      subst (λ b. IsContiguous (if b then erase_from index r else r)) (sym cut)
        (erase_from-IsContiguous index r h)
  | inr kept ↦ subst (λ b. IsContiguous (if b then erase_from index r else r)) (sym kept) h
]

pub place_entry-IsContiguous :
    (e : RaftLogEntry) (r : RaftLog) → IsContiguous r → IsContiguous (place_entry e r)
unfolding place_entry
place_entry-IsContiguous e r h = elim (Bool-cases (is_next e.index r')) [
  | inl next ↦
      subst (λ b. IsContiguous (if b then push_entry e r' else r')) (sym next)
        (push_entry-IsContiguous e r' next h')
  | inr later ↦ subst (λ b. IsContiguous (if b then push_entry e r' else r')) (sym later) h'
]
  where
    r' : RaftLog
    r' = cut_conflict e.index e.term r

    h' : IsContiguous r'
    h' = cut_conflict-IsContiguous e.index e.term r h

pub append_batch-IsContiguous :
    (es : List RaftLogEntry) (expected_index : ℤ) (r : RaftLog)
    → IsContiguous r
    → IsContiguous (append_batch expected_index es r).0
unfolding append_batch
append_batch-IsContiguous [] expected_index r h = h
append_batch-IsContiguous (e ∷ es) expected_index r h =
    elim (Bool-cases (eqb_ℤ e.index expected_index)) [
      | inr other ↦ rw other h
      | inl expected ↦ elim (Bool-cases (ltb_ℤ (raft_last_log_index_locked r +ℤ pos 1) e.index)) [
        | inl gap ↦ rw (expected, gap) h
        | inr near ↦
            rw (expected, near)
              (append_batch-IsContiguous es (expected_index +ℤ pos 1) (place_entry e r)
                (place_entry-IsContiguous e r h))
      ]
    ]

pub drop_from-IsContiguous :
    (prev : ℤ) (r : RaftLog) → IsContiguous r → IsContiguous (drop_from prev r)
unfolding drop_from
drop_from-IsContiguous prev r h =
    let h' = erase_from-IsContiguous prev r h in
    record { base = h'.base; at_base = h'.at_base; follows = h'.follows }

abbrev pub after : ℤ → RaftLogEntry → Bool
after index e = not (leb_ℤ e.index index)

pub keep_all :
    (b c : ℕ) (es : List RaftLogEntry) → c ≤ b → Contiguous b es → keep (after (pos c)) es ≡ es
unfolding keep
keep_all b c [] le h = refl
keep_all b c (e ∷ es) le (i, h) = rw later (ap (◌∷◌ e) (keep_all (suc b) c es (omega arith) h))
  where
    later : leb_ℤ e.index (pos c) ≡ false
    later = ap (λ z. leb_ℤ z (pos c)) i ∙ ground arith

pub keep-Contiguous :
    (b c : ℕ) (es : List RaftLogEntry)
    → b ≤ c
    → Contiguous b es
    → Contiguous c (keep (after (pos c)) es)
unfolding keep
keep-Contiguous b c [] le h = tt
keep-Contiguous b c (e ∷ es) le (i, h) = elim (Bool-cases (ltb b c)) [
  | inl less ↦ rw (index_test less) (keep-Contiguous (suc b) c es (ltb→lt b c less) h)
  | inr level ↦ rw (index_later level) (
    subst (λ n. e.index ≡ pos (suc n)) (same level) i,
    subst (Contiguous (suc c)) (sym (keep_all (suc b) c es (omega (arith, same level)) h))
        (subst (λ n. Contiguous (suc n) es) (same level) h),
  )
]
  where
    same : ltb b c ≡ false → b ≡ c
    same level = ground arith

    index_test : ltb b c ≡ true → leb_ℤ e.index (pos c) ≡ true
    index_test less = ap (λ z. leb_ℤ z (pos c)) i ∙ ground arith

    index_later : ltb b c ≡ false → leb_ℤ e.index (pos c) ≡ false
    index_later level = ap (λ z. leb_ℤ z (pos c)) i ∙ ground arith

-- A snapshot that is not before the present one.
compacted-IsContiguous :
    (index term : ℤ) (r : RaftLog)
    → leb_ℤ index r.m_raft_last_included_index ≡ false
    → IsContiguous r
    → IsContiguous (compacted index term r)
unfolding compacted
compacted-IsContiguous index term r later h =
    let (c, at, le) = beyond index (ap (leb_ℤ index) (sym h.at_base) ∙ later) in
    record {
      base = c;
      at_base = at;
      follows =
          subst (λ z. Contiguous c (keep (after z) r.m_raft_log)) (sym at)
            (keep-Contiguous h.base c r.m_raft_log le h.follows);
    }
  where
    beyond : (z : ℤ) → leb_ℤ z (pos h.base) ≡ false → (c : ℕ) × (z ≡ pos c) × (h.base ≤ c)
    beyond (pos n) far = (n, refl, ground arith)
    beyond (negsuc n) far = absurd (ground arith)

pub installed-IsContiguous :
    (request : Request) (r : RaftLog)
    → leb_ℤ request.last_log_index r.m_raft_last_included_index ≡ false
    → IsContiguous r
    → IsContiguous (installed request r)
installed-IsContiguous request r later h =
    let h' = compacted-IsContiguous request.last_log_index request.last_log_term r later h in
    record { base = h'.base; at_base = h'.at_base; follows = h'.follows }

pub caught_up-IsContiguous : (r : RaftLog) → IsContiguous r → IsContiguous (caught_up r)
caught_up-IsContiguous r h =
    elim (Bool-cases (ltb_ℤ r.m_raft_last_applied r.m_raft_last_included_index)) [
      | inl behind ↦
          rw (caught_up, behind)
            (record { base = h.base; at_base = h.at_base; follows = h.follows })
      | inr level ↦ rw (caught_up, level) h
    ]

pub apply_entries-IsContiguous :
    {S : Type 0} (methods : StoreMethods S) (turns : ℕ) (r : RaftLog) (s : S)
    → IsContiguous r
    → IsContiguous (apply_entries methods turns r s).0
unfolding apply_entries
apply_entries-IsContiguous methods zero r s h = h
apply_entries-IsContiguous methods (suc turns) r s h = elim (Option-cases (next_committed r)) [
  | inl out ↦ rw (apply_entries, out) h
  | inr (e, next) ↦
      rw (apply_entries, next)
        (apply_entries-IsContiguous methods turns (record r { m_raft_last_applied = e.index }) _
          (record { base = h.base; at_base = h.at_base; follows = h.follows }))
]
