-- ===== src/Server/Start.antt =====
-- src/app/kv_server.cpp: `init_raft_persistence`.
use kv.Prelude.{◌≡◌, ap, ap₂, ◌∙◌, Bool, true, false, some, ◌++◌, Bytes, codes, if◌then◌else◌}
use kv.Prelude.Int.{ℤ, pos, max_ℤ}
use kv.Server.{RaftLog, KvServer, Turn, report_log}
use kv.Server.Store.{StoreMethods}
use kv.Server.Codec.{entries_text}
use kv.Server.Files.{load_raft_state, state_text}
use kv.Server.Files.Restart.{IsOrdered, IsStorable, load_raft_state-files}
use kv.Server.Apply.{apply_committed_raft_entries_locked}

module _ {S : Type 0} where
  -- The server with its files named and a log and indices that were read.
  abbrev pub with_files : Bytes → ℤ → RaftLog → KvServer S → KvServer S
  with_files data_dir snapshot_threshold r s = record s {
    m_raft_log_file = data_dir ++ codes "/raft.log";
    m_raft_state_file = data_dir ++ codes "/raft.state";
    m_raft_snapshot_threshold = max_ℤ (pos 1) snapshot_threshold;
    raft = r;
  }

module _ {S : Type 0} (methods : StoreMethods S) where
  unfoldable pub init_raft_persistence : Turn → Bytes → ℤ → KvServer S → KvServer S × Bool
  init_raft_persistence t data_dir snapshot_threshold s =
      let (r, loaded) = load_raft_state s.log_file s.state_file in
      let s' : KvServer S = with_files data_dir snapshot_threshold r s in
      if loaded
      then (apply_committed_raft_entries_locked methods t (report_log s'), true)
      else (s', false)

  -- A server that starts on the files of a log goes on from that log: it tells the router of its last
  -- entry and applies what was committed and not yet applied; the indices are in order, and the
  -- numbers and bytes are of their types.
  pub init_raft_persistence-files :
      (t : Turn) (data_dir : Bytes) (snapshot_threshold : ℤ) (s : KvServer S) (r : RaftLog)
      → IsOrdered r
      → IsStorable r
      → s.log_file ≡ some (entries_text r.m_raft_log)
      → s.state_file ≡ some (state_text r)
      → init_raft_persistence t data_dir snapshot_threshold s ≡ (
        apply_committed_raft_entries_locked methods t
            (report_log (with_files data_dir snapshot_threshold r s)),
        true,
      )
  unfolding init_raft_persistence
  init_raft_persistence-files t data_dir snapshot_threshold s r ordered storable log state =
      ap from_files (ap₂ load_raft_state log state ∙ load_raft_state-files r ordered storable)
    where
      from_files : RaftLog × Bool → KvServer S × Bool
      from_files (r, loaded) =
          if loaded
          then (
            apply_committed_raft_entries_locked methods t
                (report_log (with_files data_dir snapshot_threshold r s)),
            true,
          )
          else (with_files data_dir snapshot_threshold r s, false)
