-- ===== src/Server/Replicate/Commits.antt =====
-- The section of `replicate_raft_write` that a majority leads to.
use kv.Prelude.{
  ℕ, zero, suc, ◌≡◌, refl, ◌∙◌, sym, subst, length, arith, inl, inr, Bool-cases, Option-cases,
}
use kv.Prelude.Int.{◌≤ℤ◌, ltb_ℤ}
use kv.Server.{RaftLog, KvServer, Turn}
use kv.Server.Store.{StoreMethods}
use kv.Server.Apply.{
  caught_up, next_committed, apply_entries, apply_raft_entry_locked,
  compact_raft_log_if_needed_locked, apply_committed_raft_entries_locked,
}
use kv.Server.Apply.Committed.{compact-AsFar, persist_state-AsFar}
use kv.Server.Replicate.{Round, commit_entry}

caught_up-commit : (r : RaftLog) → (caught_up r).m_raft_commit_index ≡ r.m_raft_commit_index
caught_up-commit r = ground arith

module _ {S : Type 0} (methods : StoreMethods S) where
  apply_entries-commit :
      (turns : ℕ) (r : RaftLog) (s : S)
      → (apply_entries methods turns r s).0.m_raft_commit_index ≡ r.m_raft_commit_index
  unfolding apply_entries
  apply_entries-commit zero r s = refl
  apply_entries-commit (suc turns) r s = elim (Option-cases (next_committed r)) [
    | inl nothing ↦ rw (nothing, apply_entries) refl
    | inr (e, next) ↦
        rw (next, apply_entries)
          (apply_entries-commit turns (record r { m_raft_last_applied = e.index })
            (apply_raft_entry_locked methods e s).0)
  ]

  apply_committed-commit :
      (t : Turn) (s : KvServer S)
      → (apply_committed_raft_entries_locked methods t s).raft.m_raft_commit_index
        ≡ s.raft.m_raft_commit_index
  unfolding apply_committed_raft_entries_locked
  apply_committed-commit t s =
      (persist_state-AsFar t (compact_raft_log_if_needed_locked t applied)).2
      ∙ (compact-AsFar t applied).2
      ∙ apply_entries-commit (length s.raft.m_raft_log) (caught_up s.raft) s.m_store
      ∙ caught_up-commit s.raft
    where
      applied : KvServer S
      applied =
          let (r, store) =
            apply_entries methods (length s.raft.m_raft_log) (caught_up s.raft) s.m_store in
          record s { raft = r; m_store = store }

  -- The entry is committed.
  pub commit_entry-commits :
      (t : Turn) (round : Round) (s : KvServer S)
      → round.entry.index ≤ℤ (commit_entry methods t round s).raft.m_raft_commit_index
  unfolding commit_entry
  commit_entry-commits t round s =
      elim (Bool-cases (ltb_ℤ s.raft.m_raft_commit_index round.entry.index)) [
        | inr committed ↦ rw committed (ground arith)
        | inl behind ↦ rw behind (
            subst (λ z. round.entry.index ≤ℤ z)
              (sym (
                apply_committed-commit t
                  (record s { raft = record s.raft { m_raft_commit_index = round.entry.index } })))
              (omega arith))
      ]
