-- ===== src/Server/Apply/Order.antt =====
-- Entries are applied in the order of the log, each once.
use kv.Prelude.{
  ℕ, zero, suc, ◌+◌, ◌≡◌, ◌≤◌, refl, true, false, none, some, List, [], ◌∷◌, ◌++◌, length, arith,
  ap, subst, sym, ◌∙◌, append_assoc, length-append,
}
use kv.Prelude.Int.{pos, ◌+ℤ◌, ltb_ℤ, pos-add}
use kv.Server.{RaftLogEntry, RaftLog}
use kv.Server.Store.{StoreMethods}
use kv.Server.Indices.{Contiguous, Contiguous-suffix, entry_at-append}
use kv.Server.Apply.{next_committed, apply_raft_entry_locked, apply_entries}

module _ {S : Type 0} (methods : StoreMethods S) where
  -- The store after these entries.
  abbrev pub run_entries : List RaftLogEntry → S → S
  run_entries [] s = s
  run_entries (e ∷ es) s = run_entries es (apply_raft_entry_locked methods e s).0

next_committed-append :
    (r : RaftLog) (b : ℕ) (done : List RaftLogEntry) (e : RaftLogEntry) (rest : List RaftLogEntry)
    (more : ℕ)
    → r.m_raft_last_included_index ≡ pos b
    → r.m_raft_log ≡ done ++ e ∷ rest
    → r.m_raft_last_applied ≡ pos (b + length done)
    → r.m_raft_commit_index ≡ pos (b + length done + suc more)
    → next_committed r ≡ some e
unfolding next_committed
next_committed-append r b done e rest more base log applied commit =
    rw (next_committed, below, next, entry_at-append r b base done e rest log) refl
  where
    below : ltb_ℤ r.m_raft_last_applied r.m_raft_commit_index ≡ true
    below = rw (applied, commit) (ground arith)

    next : r.m_raft_last_applied +ℤ pos 1 ≡ pos (b + suc (length done))
    next = ap (λ z. z +ℤ pos 1) applied ∙ pos-add (b + length done) 1 ∙ ap pos (omega arith)

next_committed_at_commit :
    (r : RaftLog) (n : ℕ)
    → r.m_raft_last_applied ≡ pos n
    → r.m_raft_commit_index ≡ pos n
    → next_committed r ≡ none
unfolding next_committed
next_committed_at_commit r n applied commit = rw (next_committed, level) refl
  where
    level : ltb_ℤ r.m_raft_last_applied r.m_raft_commit_index ≡ false
    level = rw (applied, commit) (ground arith)

index_after :
    (b : ℕ) (done : List RaftLogEntry) (e : RaftLogEntry) (rest : List RaftLogEntry)
    → Contiguous b (done ++ e ∷ rest)
    → e.index ≡ pos (b + length (done ++ e ∷ []))
index_after b done e rest h =
    (Contiguous-suffix b done (e ∷ rest) h).0 ∙ ap pos (omega (arith, length-append done (e ∷ [])))

module _ {S : Type 0} (methods : StoreMethods S) where
  at_commit :
      (turns : ℕ) (r : RaftLog) (s : S) (n : ℕ)
      → r.m_raft_last_applied ≡ pos n
      → r.m_raft_commit_index ≡ pos n
      → apply_entries methods turns r s
        ≡ (record r { m_raft_last_applied = r.m_raft_commit_index }, s)
  unfolding apply_entries
  at_commit zero r s n applied commit =
      ap (λ z. (record r { m_raft_last_applied = z }, s)) (applied ∙ sym commit)
  at_commit (suc turns) r s n applied commit =
      rw (apply_entries, next_committed_at_commit r n applied commit)
        (ap (λ z. (record r { m_raft_last_applied = z }, s)) (applied ∙ sym commit))

  pub apply_entries-append :
      (turns : ℕ) (r : RaftLog) (s : S) (b : ℕ) (done now later : List RaftLogEntry)
      → r.m_raft_last_included_index ≡ pos b
      → r.m_raft_log ≡ done ++ (now ++ later)
      → Contiguous b r.m_raft_log
      → r.m_raft_last_applied ≡ pos (b + length done)
      → r.m_raft_commit_index ≡ pos (b + length done + length now)
      → length now ≤ turns
      → apply_entries methods turns r s
        ≡ (record r { m_raft_last_applied = r.m_raft_commit_index }, run_entries methods now s)
  unfolding apply_entries
  apply_entries-append turns r s b done [] later base log h applied commit fuel =
      at_commit turns r s (b + length done) applied (commit ∙ ap pos (omega arith))
  apply_entries-append zero r s b done (e ∷ now) later base log h applied commit fuel =
      absurd (omega arith)
  apply_entries-append (suc turns) r s b done (e ∷ now) later base log h applied commit fuel =
      rw
        (
          apply_entries,
          next_committed-append r b done e (now ++ later) (length now) base log applied commit,
        )
        (apply_entries-append turns (record r { m_raft_last_applied = e.index })
          (apply_raft_entry_locked methods e s).0 b (done ++ e ∷ []) now later base
          (log ∙ sym (append_assoc done (e ∷ []) (now ++ later))) h
          (index_after b done e (now ++ later) (subst (Contiguous b) log h))
          (commit ∙ ap pos (omega (arith, length-append done (e ∷ [])))) (omega arith))
