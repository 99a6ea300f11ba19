-- ===== src/Server/Contiguity/Handlers.antt =====
-- The handlers of the log of src/app/kv_server.cpp, and the indices of the log.
use kv.Prelude.{
  ℕ, ◌≡◌, refl, Bool, not, ◌&&◌, ◌||◌, some, List, Bytes, codes, if◌then◌else◌, length, arith, ap,
  subst, sym, ◌∙◌, inl, inr, Bool-cases, Option-cases, true,
}
use kv.Prelude.Int.{ℤ, pos, ◌+ℤ◌, ◌-ℤ◌, ltb_ℤ, leb_ℤ, eqb_ℤ, min_ℤ}
use kv.Protocol.{Request}
use kv.Cluster.Router.{ClusterRouter}
use kv.Server.Responses.{starts_with}
use kv.Cluster.Router.Election.{handle_append_entries}
use kv.Server.{
  RaftLogEntry, KvServer, Turn, raft_last_log_index_locked, raft_term_at_locked, erase_from,
  push_entry, report_log,
}
use kv.Server.Store.{StoreMethods}
use kv.Server.Codec.{decode_raft_entries_payload}
use kv.Server.Files.{persist_raft_log_locked, persist_raft_state_locked, persist_raft_locked}
use kv.Server.Apply.{
  compacted, caught_up, apply_entries, compact_raft_log_if_needed_locked,
  apply_committed_raft_entries_locked,
}
use kv.Server.Append.{
  conflicts, is_next, append_batch, drop_from, installed, append_single, single_entry,
  follow_commit, take_batch, append_locked, handle_raft_append_entries, set_base, contains,
}
use kv.Server.Contiguity.{
  IsContiguous, erase_from-IsContiguous, push_entry-IsContiguous, append_batch-IsContiguous,
  drop_from-IsContiguous, compacted-IsContiguous, installed-IsContiguous, caught_up-IsContiguous,
  apply_entries-IsContiguous,
}

single_entry-index :
    (request : Request) (e : RaftLogEntry)
    → single_entry request ≡ some e
    → e.index ≡ request.log_index
single_entry-index request e made = ground arith

module _ {S : Type 0} (t : Turn) where
  pub persist_raft_log_locked-raft :
      (s : KvServer S) → (persist_raft_log_locked t s).0.raft ≡ s.raft
  unfolding persist_raft_log_locked
  persist_raft_log_locked-raft s = ground arith

  pub persist_raft_state_locked-raft :
      (s : KvServer S) → (persist_raft_state_locked t s).0.raft ≡ s.raft
  unfolding persist_raft_state_locked
  persist_raft_state_locked-raft s = ground arith

  pub persist_raft_locked-raft : (s : KvServer S) → (persist_raft_locked t s).0.raft ≡ s.raft
  unfolding persist_raft_locked
  persist_raft_locked-raft s = elim (Bool-cases (persist_raft_log_locked t s).1) [
    | inl written ↦ rw written (persist_raft_state_locked-raft _ ∙ persist_raft_log_locked-raft s)
    | inr not_written ↦ rw not_written (persist_raft_log_locked-raft s)
  ]

  pub report_log-raft : (s : KvServer S) → (report_log s).raft ≡ s.raft
  unfolding report_log
  report_log-raft s = refl

  -- After the log is written and the router told.
  stored :
      (s : KvServer S)
      → IsContiguous s.raft
      → IsContiguous (report_log (persist_raft_locked t s).0).raft
  stored s h = subst IsContiguous (sym (report_log-raft _ ∙ persist_raft_locked-raft s)) h

  pub stored_log :
      (s : KvServer S)
      → IsContiguous s.raft
      → IsContiguous (report_log (persist_raft_log_locked t s).0).raft
  stored_log s h = subst IsContiguous (sym (report_log-raft _ ∙ persist_raft_log_locked-raft s)) h

  compact-IsContiguous :
      (s : KvServer S)
      → IsContiguous s.raft
      → IsContiguous (compact_raft_log_if_needed_locked t s).raft
  unfolding compact_raft_log_if_needed_locked
  compact-IsContiguous s h = elim (Bool-cases (leb_ℤ to s.raft.m_raft_last_included_index)) [
    | inl early ↦ rw early h
    | inr later ↦
        elim (Bool-cases
          (ltb_ℤ (to -ℤ s.raft.m_raft_last_included_index) s.m_raft_snapshot_threshold)) [
            | inl few ↦ rw (later, few) h
            | inr many ↦ elim (Bool-cases (ltb_ℤ (raft_term_at_locked to s.raft) (pos 0))) [
              | inl unknown ↦ rw (later, many, unknown) h
              | inr known ↦
                  rw (later, many, known)
                    (stored
                      (record s { raft = compacted to (raft_term_at_locked to s.raft) s.raft })
                      (compacted-IsContiguous to (raft_term_at_locked to s.raft) s.raft later h))
            ]
          ]
  ]
    where
      to : ℤ
      to = s.raft.m_raft_last_applied

  append_single-IsContiguous :
      (request : Request) (s : KvServer S)
      → IsContiguous s.raft
      → IsContiguous (append_single t request s).raft
  unfolding append_single
  append_single-IsContiguous request s h = elim (Bool-cases (is_next request.log_index s'.raft)) [
    | inr later ↦ rw later h'
    | inl next ↦ elim (Option-cases (single_entry request)) [
      | inl nothing ↦ rw (next, nothing) h'
      | inr (e, made) ↦
          rw (next, made)
            (stored_log (record s' { raft = push_entry e s'.raft })
              (push_entry-IsContiguous e s'.raft
                (ap (λ z. is_next z s'.raft) (single_entry-index request e made) ∙ next) h'))
    ]
  ]
    where
      erased : KvServer S
      erased = record s { raft = erase_from request.log_index s.raft }

      s' : KvServer S
      s' =
          if conflicts request.log_index request.log_term s.raft
          then (persist_raft_locked t erased).0
          else s

      h' : IsContiguous s'.raft
      h' = elim (Bool-cases (conflicts request.log_index request.log_term s.raft)) [
        | inl cut ↦
            subst (λ b. IsContiguous ((if b then (persist_raft_locked t erased).0 else s).raft))
              (sym cut)
              (subst IsContiguous (sym (persist_raft_locked-raft erased))
                (erase_from-IsContiguous request.log_index s.raft h))
        | inr kept ↦
            subst (λ b. IsContiguous ((if b then (persist_raft_locked t erased).0 else s).raft))
              (sym kept) h
      ]

module _ {S : Type 0} (methods : StoreMethods S) (t : Turn) where
  pub apply_committed-IsContiguous :
      (s : KvServer S)
      → IsContiguous s.raft
      → IsContiguous (apply_committed_raft_entries_locked methods t s).raft
  unfolding apply_committed_raft_entries_locked
  apply_committed-IsContiguous s h =
      subst IsContiguous
        (sym (persist_raft_state_locked-raft t (compact_raft_log_if_needed_locked t applied)))
        (compact-IsContiguous t applied (
          apply_entries-IsContiguous methods (length s.raft.m_raft_log) (caught_up s.raft) s.m_store
            (caught_up-IsContiguous s.raft h)))
    where
      applied : KvServer S
      applied = record s {
        raft = (apply_entries methods (length s.raft.m_raft_log) (caught_up s.raft) s.m_store).0;
        m_store = (apply_entries methods (length s.raft.m_raft_log) (caught_up s.raft) s.m_store).1;
      }

  follow_commit-IsContiguous :
      (request : Request) (s : KvServer S)
      → IsContiguous s.raft
      → IsContiguous (follow_commit methods t request s).0.raft
  unfolding follow_commit
  follow_commit-IsContiguous request s h =
      elim (Bool-cases (ltb_ℤ s.raft.m_raft_commit_index request.leader_commit)) [
        | inl less ↦ rw less (
            apply_committed-IsContiguous
              (record s {
                raft = record s.raft {
                  m_raft_commit_index =
                      min_ℤ request.leader_commit (raft_last_log_index_locked s.raft);
                };
              })
              (record { base = h.base; at_base = h.at_base; follows = h.follows }))
        | inr same ↦ rw same h
      ]

  take_batch-IsContiguous :
      (request : Request) (s : KvServer S)
      → IsContiguous s.raft
      → IsContiguous (take_batch methods t request s).0.raft
  unfolding take_batch
  take_batch-IsContiguous request s h =
      elim (Bool-cases (eqb_ℤ (pos (length entries)) request.entry_count)) [
        | inr other ↦ rw other h
        | inl counted ↦
            elim (Bool-cases (append_batch (request.prev_log_index +ℤ pos 1) entries s.raft).1) [
              | inr stopped ↦ rw (counted, stopped) taken
              | inl through ↦
                  rw (counted, through)
                    (follow_commit-IsContiguous request
                      (report_log
                        (persist_raft_log_locked t (record s {
                          raft = (append_batch (request.prev_log_index +ℤ pos 1) entries s.raft).0;
                        })).0)
                      (stored_log t
                        (record s {
                          raft = (append_batch (request.prev_log_index +ℤ pos 1) entries s.raft).0;
                        })
                        taken))
            ]
      ]
    where
      entries : List RaftLogEntry
      entries = decode_raft_entries_payload request.snapshot_payload

      taken : IsContiguous (append_batch (request.prev_log_index +ℤ pos 1) entries s.raft).0
      taken = append_batch-IsContiguous entries (request.prev_log_index +ℤ pos 1) s.raft h

module _ {S : Type 0} (methods : StoreMethods S) (t : Turn) where
  pub append_locked-IsContiguous :
      (request : Request) (s : KvServer S)
      → IsContiguous s.raft
      → IsContiguous (append_locked methods t request s).0.raft
  unfolding append_locked
  append_locked-IsContiguous request s h = elim (Bool-cases before) [
    | inl b1 ↦ rw b1 h
    | inr b1 ↦ elim (Bool-cases beyond) [
      | inl b2 ↦ rw (b1, b2) h
      | inr b2 ↦ elim (Bool-cases other_term) [
        | inl b3 ↦
            rw (b1, b2, b3)
              (stored t (record s { raft = drop_from prev s.raft })
                (drop_from-IsContiguous prev s.raft h))
        | inr b3 ↦ elim (Bool-cases (ltb_ℤ (pos 0) request.entry_count)) [
          | inl b4 ↦ rw (b1, b2, b3, b4) (take_batch-IsContiguous methods t request s h)
          | inr b4 ↦ elim (Bool-cases (ltb_ℤ (pos 0) request.log_index)) [
            | inr b5 ↦ rw (b1, b2, b3, b4, b5) (follow_commit-IsContiguous methods t request s h)
            | inl b5 ↦ elim (Bool-cases gap) [
              | inl b6 ↦ rw (b1, b2, b3, b4, b5, b6) h
              | inr b6 ↦
                  rw (b1, b2, b3, b4, b5, b6)
                    (follow_commit-IsContiguous methods t request (append_single t request s)
                      (append_single-IsContiguous t request s h))
            ]
          ]
        ]
      ]
    ]
  ]
    where
      prev : ℤ
      prev = request.prev_log_index

      last : ℤ
      last = raft_last_log_index_locked s.raft

      before : Bool
      before = ltb_ℤ prev s.raft.m_raft_last_included_index

      beyond : Bool
      beyond = ltb_ℤ last prev

      other_term : Bool
      other_term =
          ltb_ℤ (pos 0) prev && not (eqb_ℤ (raft_term_at_locked prev s.raft) request.prev_log_term)

      gap : Bool
      gap = ltb_ℤ (last +ℤ pos 1) request.log_index

  -- Whatever request a follower is sent, the indices of its log follow one another from the snapshot on
  -- afterwards, if they did before.
  pub handle_raft_append_entries-IsContiguous :
      (hasher : Bytes → ℕ) (request : Request) (s : KvServer S)
      → IsContiguous s.raft
      → IsContiguous (handle_raft_append_entries methods hasher t request s).0.raft
  unfolding handle_raft_append_entries
  handle_raft_append_entries-IsContiguous hasher request s h = elim (Bool-cases rejected) [
    | inl no_leader ↦ rw no_leader h
    | inr led ↦ rw led (append_locked-IsContiguous request s' h)
  ]
    where
      router : ClusterRouter × Bytes
      router = handle_append_entries hasher t.moment request.term request.node_id s.m_router

      s' : KvServer S
      s' = record s { m_router = router.0 }

      rejected : Bool
      rejected = not (starts_with (codes "RAFT_APPEND ") router.1) || contains (codes " 0") router.1

  -- The base of the log moves forward to a snapshot.
  pub set_base-IsContiguous :
      (request : Request) (s : KvServer S)
      → ltb_ℤ s.raft.m_raft_last_included_index request.last_log_index ≡ true
      → IsContiguous s.raft
      → IsContiguous (set_base methods t request s).raft
  unfolding set_base
  set_base-IsContiguous request s ahead h =
      stored t (record s { raft = installed request s.raft })
        (installed-IsContiguous request s.raft (ground arith) h)
