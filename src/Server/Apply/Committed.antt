-- ===== src/Server/Apply/Committed.antt =====
-- What the server does with committed entries.
use kv.Prelude.{
  ℕ, ◌+◌, ◌≡◌, ◌≤◌, refl, false, List, ◌++◌, length, arith, ap, sym, subst, ◌∙◌, inl, inr,
  Bool-cases, length-append,
}
use kv.Prelude.Int.{ℤ, pos, ltb_ℤ, leb_ℤ, ◌-ℤ◌}
use kv.Server.{RaftLogEntry, RaftLog, KvServer, Turn, raft_term_at_locked, report_log}
use kv.Server.Store.{StoreMethods}
use kv.Server.Files.{persist_raft_log_locked, persist_raft_state_locked, persist_raft_locked}
use kv.Server.Indices.{Contiguous}
use kv.Server.Apply.{
  compacted, caught_up, apply_entries, compact_raft_log_if_needed_locked,
  apply_committed_raft_entries_locked,
}
use kv.Server.Apply.Order.{run_entries, apply_entries-append}

-- The same store, and as much applied and committed.
abbrev pub AsFar : {S : Type 0} → KvServer S → KvServer S → Type 0
AsFar s s' =
    (s'.m_store ≡ s.m_store)
    × (s'.raft.m_raft_last_applied ≡ s.raft.m_raft_last_applied)
    × (s'.raft.m_raft_commit_index ≡ s.raft.m_raft_commit_index)

module _ {S : Type 0} (t : Turn) where
  persist_log-AsFar : (s : KvServer S) → AsFar s (persist_raft_log_locked t s).0
  unfolding persist_raft_log_locked
  persist_log-AsFar s = ground arith

  pub persist_state-AsFar : (s : KvServer S) → AsFar s (persist_raft_state_locked t s).0
  unfolding persist_raft_state_locked
  persist_state-AsFar s = ground arith

  AsFar-trans : (s s' s'' : KvServer S) → AsFar s s' → AsFar s' s'' → AsFar s s''
  AsFar-trans s s' s'' (p, q, r) (p', q', r') = (p' ∙ p, q' ∙ q, r' ∙ r)

  persist-AsFar : (s : KvServer S) → AsFar s (persist_raft_locked t s).0
  unfolding persist_raft_locked
  persist-AsFar s = elim (Bool-cases (persist_raft_log_locked t s).1) [
    | inl written ↦ rw written (
        AsFar-trans s (persist_raft_log_locked t s).0
          (persist_raft_state_locked t (persist_raft_log_locked t s).0).0 (persist_log-AsFar s)
          (persist_state-AsFar (persist_raft_log_locked t s).0))
    | inr not_written ↦ rw not_written (persist_log-AsFar s)
  ]

  pub compact-AsFar : (s : KvServer S) → AsFar s (compact_raft_log_if_needed_locked t s)
  unfolding compact_raft_log_if_needed_locked report_log compacted
  compact-AsFar s = elim (Bool-cases (leb_ℤ to included)) [
    | inl early ↦ rw early (refl, refl, refl)
    | inr later ↦ elim (Bool-cases (ltb_ℤ (to -ℤ included) s.m_raft_snapshot_threshold)) [
      | inl few ↦ rw (later, few) (refl, refl, refl)
      | inr many ↦ elim (Bool-cases (ltb_ℤ term (pos 0))) [
        | inl unknown ↦ rw (later, many, unknown) (refl, refl, refl)
        | inr known ↦
            rw (later, many, known) (persist-AsFar (record s { raft = compacted to term s.raft }))
      ]
    ]
  ]
    where
      to : ℤ
      to = s.raft.m_raft_last_applied

      included : ℤ
      included = s.raft.m_raft_last_included_index

      term : ℤ
      term = raft_term_at_locked to s.raft

-- The entries after those that are applied, up to the commit index, are applied in their order, each
-- once, and nothing else is; then all that is committed is applied. The indices of the log follow one
-- another, and `done` and `now` are the entries that are applied and those that are committed but not
-- applied.
pub apply_committed-run_entries :
    {S : Type 0} (methods : StoreMethods S) (t : Turn) (s : KvServer S) (b : ℕ)
    (done now later : List RaftLogEntry)
    → s.raft.m_raft_last_included_index ≡ pos b
    → s.raft.m_raft_log ≡ done ++ (now ++ later)
    → Contiguous b s.raft.m_raft_log
    → s.raft.m_raft_last_applied ≡ pos (b + length done)
    → s.raft.m_raft_commit_index ≡ pos (b + length done + length now)
    → ((apply_committed_raft_entries_locked methods t s).m_store
        ≡ run_entries methods now s.m_store)
      × ((apply_committed_raft_entries_locked methods t s).raft.m_raft_last_applied
          ≡ s.raft.m_raft_commit_index)
unfolding apply_committed_raft_entries_locked
apply_committed-run_entries {S} methods t s b done now later base log h applied commit =
    (far.0 ∙ ap (λ p. p.1) ran, far.1 ∙ ap (λ p. p.0.m_raft_last_applied) ran)
  where
    ready : caught_up s.raft ≡ s.raft
    ready = rw (caught_up, level) refl
      where
        level : ltb_ℤ s.raft.m_raft_last_applied s.raft.m_raft_last_included_index ≡ false
        level = rw (applied, base) (ground arith)

    turns : ℕ
    turns = length s.raft.m_raft_log

    enough : length now ≤ turns
    enough =
        subst (λ l. length now ≤ length l) (sym log)
          (omega (arith, length-append done (now ++ later), length-append now later))

    result : RaftLog × S
    result = apply_entries methods turns (caught_up s.raft) s.m_store

    ran : result ≡ (
      record s.raft { m_raft_last_applied = s.raft.m_raft_commit_index },
      run_entries methods now s.m_store,
    )
    ran =
        ap (λ r. apply_entries methods turns r s.m_store) ready
        ∙ apply_entries-append methods turns s.raft s.m_store b done now later base log h applied
            commit enough

    after : KvServer S
    after = record s { raft = result.0; m_store = result.1 }

    far : AsFar after (persist_raft_state_locked t (compact_raft_log_if_needed_locked t after)).0
    far =
        AsFar-trans t after (compact_raft_log_if_needed_locked t after)
          (persist_raft_state_locked t (compact_raft_log_if_needed_locked t after)).0
          (compact-AsFar t after)
          (persist_state-AsFar t (compact_raft_log_if_needed_locked t after))
