-- ===== src/Server/Apply/Compaction.antt =====
-- The terms of the log before and after `compact_raft_log_if_needed_locked`.
use kv.Prelude.{
  ℕ, zero, suc, ◌+◌, ◌-◌, ◌≡◌, ◌≤◌, ◌<◌, refl, true, false, Option, none, some, List, [], ◌∷◌, leb,
  length, drop, get_elem?, keep, arith, ap, subst, sym, ◌∙◌, inl, inr, Bool-cases, ◌⊎◌, nat_beq,
  nat_beq_cases,
}
use kv.Prelude.Int.{ℤ, pos, negsuc, leb_ℤ, ltb_ℤ, ◌≤ℤ◌, ◌-ℤ◌}
use kv.Server.{RaftLogEntry, RaftLog, KvServer, Turn, report_log, entry_at, raft_term_at_locked}
use kv.Server.Indices.{Contiguous, raft_log_offset-at}
use kv.Server.Apply.{compacted, compact_raft_log_if_needed_locked}
use kv.Server.Files.{persist_raft_locked}
use kv.Server.Contiguity.Handlers.{persist_raft_locked-raft, report_log-raft}
use kv.Server.Contiguity.{after, IsContiguous, keep_all}

get_elem?-none {ℓ} : {A : Type ℓ} (l : List A) (k : ℕ) → length l ≤ k → get_elem? l k ≡ none
get_elem?-none [] k h = refl
get_elem?-none (x ∷ l) zero h = absurd (omega arith)
get_elem?-none (x ∷ l) (suc k) h = get_elem?-none l k (omega arith)

get_elem?-drop {ℓ} :
    {A : Type ℓ} (m k : ℕ) (l : List A) → get_elem? (drop m l) k ≡ get_elem? l (m + k)
get_elem?-drop zero k l = ap (get_elem? l) (omega arith)
get_elem?-drop (suc m) k [] = refl
get_elem?-drop (suc m) k (x ∷ l) = get_elem?-drop m k l ∙ ap (get_elem? (x ∷ l)) shift
  where
    shift : suc (m + k) ≡ suc m + k
    shift = omega arith

entry_at-get_elem? :
    (r : RaftLog) (b k : ℕ)
    → r.m_raft_last_included_index ≡ pos b
    → entry_at (pos (b + suc k)) r ≡ get_elem? r.m_raft_log k
unfolding entry_at
entry_at-get_elem? r b k base = elim (Bool-cases (leb (length r.m_raft_log) k)) [
  | inl out ↦
      rw (entry_at, raft_log_offset-at r b base k, out)
        (sym (get_elem?-none r.m_raft_log k (ground arith)))
  | inr inside ↦ rw (entry_at, raft_log_offset-at r b base k, inside) refl
]

keep-drop :
    (m b : ℕ) (es : List RaftLogEntry) → Contiguous b es → keep (after (pos (b + m))) es ≡ drop m es
unfolding keep
keep-drop zero b es h = keep_all b (b + 0) es (omega arith) h
keep-drop (suc m) b [] h = refl
keep-drop (suc m) b (e ∷ es) (i, h) =
    rw early (ap (λ n. keep (after (pos n)) es) (omega arith) ∙ keep-drop m (suc b) es h)
  where
    early : leb_ℤ e.index (pos (b + suc m)) ≡ true
    early = ap (λ z. leb_ℤ z (pos (b + suc m))) i ∙ ground arith

-- The term at an index above the snapshot.
raft_term_at-get_elem? :
    (r : RaftLog) (b k : ℕ)
    → r.m_raft_last_included_index ≡ pos b
    → raft_term_at_locked (pos (b + suc k)) r
      ≡ elim (get_elem? r.m_raft_log k) as (λ _. ℤ) [ none ↦ negsuc 0 | some e ↦ e.term ]
unfolding raft_term_at_locked
raft_term_at-get_elem? r b k base =
    rw (raft_term_at_locked, entry_at-get_elem? r b k base, base) (ground arith)

module _ (r : RaftLog) (b m : ℕ) (base : r.m_raft_last_included_index ≡ pos b)
    (h : Contiguous b r.m_raft_log) (term : ℤ) where
  compacted-log : (compacted (pos (b + m)) term r).m_raft_log ≡ drop m r.m_raft_log
  unfolding compacted
  compacted-log = keep-drop m b r.m_raft_log h

  -- Above the entry up to which the log is compacted, there is the same term at every index.
  raft_term_at-compacted :
      (k : ℕ)
      → raft_term_at_locked (pos (b + m + suc k)) (compacted (pos (b + m)) term r)
        ≡ raft_term_at_locked (pos (b + m + suc k)) r
  raft_term_at-compacted k =
      raft_term_at-get_elem? (compacted (pos (b + m)) term r) (b + m) k (unfold compacted in refl)
      ∙ ap term_or (ap (λ l. get_elem? l k) compacted-log ∙ get_elem?-drop m k r.m_raft_log)
      ∙ sym
          (ap (λ n. raft_term_at_locked (pos n) r) place ∙ raft_term_at-get_elem? r b (m + k) base)
    where
      term_or : Option RaftLogEntry → ℤ
      term_or o = elim o [ none ↦ negsuc 0 | some e ↦ e.term ]

      place : b + m + suc k ≡ b + suc (m + k)
      place = omega arith

-- At the entry itself, the term that the snapshot keeps.
raft_term_at-compacted_self :
    (r : RaftLog) (n : ℕ) (term : ℤ)
    → raft_term_at_locked (pos (suc n)) (compacted (pos (suc n)) term r) ≡ term
unfolding raft_term_at_locked compacted
raft_term_at-compacted_self r n term = ground arith

module _ {S : Type 0} (t : Turn) (s : KvServer S) (h : IsContiguous s.raft) (i : ℕ) where
  place :
      (n : ℕ)
      → h.base < n
      → n ≤ i
      → (i ≡ h.base + suc (n - h.base - 1))
        ⊎ ((k : ℕ) × (i ≡ h.base + suc (n - h.base - 1) + suc k))
  place n low le = elim (nat_beq_cases i n) [
    | inl level ↦ inl (omega (arith, level))
    | inr apart ↦ inr (i - n - 1, further apart)
  ]
    where
      further : nat_beq i n ≡ false → i ≡ h.base + suc (n - h.base - 1) + suc (i - n - 1)
      further apart = ground arith

  applied_at :
      (z : ℤ)
      → leb_ℤ z (pos h.base) ≡ false
      → z ≤ℤ pos i
      → (m : ℕ) × (z ≡ pos (h.base + suc m))
        × ((i ≡ h.base + suc m) ⊎ ((k : ℕ) × (i ≡ h.base + suc m + suc k)))
  applied_at (pos n) later le =
      (n - h.base - 1, ap pos (ground arith), place n (ground arith) (omega arith))
  applied_at (negsuc n) later le = absurd (ground arith)

  compacted_term :
      (m : ℕ)
      → s.raft.m_raft_last_applied ≡ pos (h.base + suc m)
      → (i ≡ h.base + suc m) ⊎ ((k : ℕ) × (i ≡ h.base + suc m + suc k))
      → raft_term_at_locked (pos i) (
          compacted s.raft.m_raft_last_applied
            (raft_term_at_locked s.raft.m_raft_last_applied s.raft)
            s.raft)
        ≡ raft_term_at_locked (pos i) s.raft
  compacted_term m at (inl e) =
      ap (λ z. raft_term_at_locked (pos i) (compacted z (raft_term_at_locked z s.raft) s.raft)) at
      ∙ ap
          (λ n. raft_term_at_locked (pos n) (
            compacted (pos (h.base + suc m)) (raft_term_at_locked (pos (h.base + suc m)) s.raft)
              s.raft))
          e
      ∙ self (h.base + m) (h.base + suc m) (omega arith)
      ∙ ap (λ n. raft_term_at_locked (pos n) s.raft) (sym e)
    where
      self :
          (n n' : ℕ)
          → n' ≡ suc n
          → raft_term_at_locked
              (pos n')
              (compacted (pos n') (raft_term_at_locked (pos n') s.raft) s.raft)
            ≡ raft_term_at_locked (pos n') s.raft
      self n n' e =
          subst
            (λ n'.
              raft_term_at_locked (pos n')
                (compacted (pos n') (raft_term_at_locked (pos n') s.raft) s.raft)
              ≡ raft_term_at_locked (pos n') s.raft)
            (sym e)
            (raft_term_at-compacted_self s.raft n (raft_term_at_locked (pos (suc n)) s.raft))
  compacted_term m at (inr (k, e)) =
      ap (λ z. raft_term_at_locked (pos i) (compacted z (raft_term_at_locked z s.raft) s.raft)) at
      ∙ ap
          (λ n. raft_term_at_locked (pos n) (
            compacted (pos (h.base + suc m)) (raft_term_at_locked (pos (h.base + suc m)) s.raft)
              s.raft))
          e
      ∙ raft_term_at-compacted s.raft h.base (suc m) h.at_base h.follows
          (raft_term_at_locked (pos (h.base + suc m)) s.raft) k
      ∙ ap (λ n. raft_term_at_locked (pos n) s.raft) (sym e)

  -- Compaction changes the term at no index that is not below what has been applied, in a log whose
  -- indices follow one another.
  pub raft_term_at-compact :
      s.raft.m_raft_last_applied ≤ℤ pos i
      → raft_term_at_locked (pos i) (compact_raft_log_if_needed_locked t s).raft
        ≡ raft_term_at_locked (pos i) s.raft
  unfolding compact_raft_log_if_needed_locked
  raft_term_at-compact le = elim (Bool-cases (leb_ℤ to s.raft.m_raft_last_included_index)) [
    | inl early ↦ rw early refl
    | inr later ↦
        elim (Bool-cases
          (ltb_ℤ (to -ℤ s.raft.m_raft_last_included_index) s.m_raft_snapshot_threshold)) [
            | inl few ↦ rw (later, few) refl
            | inr many ↦ elim (Bool-cases (ltb_ℤ (raft_term_at_locked to s.raft) (pos 0))) [
              | inl unknown ↦ rw (later, many, unknown) refl
              | inr known ↦ rw (later, many, known) (kept later)
            ]
          ]
  ]
    where
      to : ℤ
      to = s.raft.m_raft_last_applied

      short : KvServer S
      short = record s { raft = compacted to (raft_term_at_locked to s.raft) s.raft }

      kept :
          leb_ℤ to s.raft.m_raft_last_included_index ≡ false
          → raft_term_at_locked (pos i) (report_log (persist_raft_locked t short).0).raft
            ≡ raft_term_at_locked (pos i) s.raft
      kept later =
          let (m, at, split) = applied_at to (ap (leb_ℤ to) (sym h.at_base) ∙ later) le in
          ap (raft_term_at_locked (pos i))
            (report_log-raft t (persist_raft_locked t short).0 ∙ persist_raft_locked-raft t short)
          ∙ compacted_term m at split
