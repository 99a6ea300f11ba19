-- ===== src/Server/Contiguity/Histories.antt =====
-- The sections that the threads of a server run one after another, and the indices of its log.
use kv.Prelude.{ℕ, ◌≡◌, true, Bytes}
use kv.Prelude.Int.{ltb_ℤ}
use kv.Protocol.{Request}
use kv.Cluster.Router.{ClusterRouter}
use kv.Server.{with_store, KvServer, Turn}
use kv.Server.Store.{StoreMethods}
use kv.Server.Append.{append_locked, admit_snapshot, set_base, install_snapshot_payload}
use kv.Server.Replicate.{Round, append_own, commit_entry}

module _ {S : Type 0} (methods : StoreMethods S) (hasher : Bytes → ℕ) where
  -- What a thread does in a section that holds the mutex of the log, or between two of them, with any
  -- request of a peer or a client and any answers of the environment; the router and the store also
  -- change by themselves. A snapshot takes three steps, and others may come between them; its base is
  -- set only where the log has not got ahead of it since it was admitted.
  pub data Step : KvServer S → KvServer S → Type 0 where
    append_entries :
        (t : Turn) (request : Request) (s : KvServer S)
        → Step s (append_locked methods t request s).0
    snapshot_admitted :
        (t : Turn) (request : Request) (s : KvServer S)
        → Step s (admit_snapshot methods hasher t request s).0
    snapshot_stored :
        (request : Request) (s : KvServer S)
        → Step s (with_store (install_snapshot_payload methods request.snapshot_payload) s).0
    snapshot_based :
        (t : Turn) (request : Request) (s : KvServer S)
        → ltb_ℤ s.raft.m_raft_last_included_index request.last_log_index ≡ true
        → Step s (set_base methods t request s)
    begin_write :
        (t : Turn) (request : Request) (s : KvServer S) → Step s (append_own t request s).0
    end_write :
        (t : Turn) (round : Round) (s : KvServer S) → Step s (commit_entry methods t round s)
    change_router :
        (router : ClusterRouter) (s : KvServer S) → Step s (record s { m_router = router })
    change_store : (store : S) (s : KvServer S) → Step s (record s { m_store = store })

  pub data Steps : KvServer S → KvServer S → Type 0 where
    none_yet : (s : KvServer S) → Steps s s
    one_more : {s s' s'' : KvServer S} → Steps s s' → Step s' s'' → Steps s s''
