-- ===== src/Examples/DispatchRuns.antt =====
-- The dispatch of requests at concrete inputs.
use kv.Prelude.{◌≡◌, refl, true, false, some, [], ◌∷◌, ◌++◌, codes, arith}
use kv.Prelude.Int.{pos}
use kv.Storage.Memory.Histories.{fresh-IsValid}
use kv.Server.{KvServer}
use kv.Server.Store.{Timed, memory_methods}
use kv.Server.Responses.{resp_simple, resp_bulk}
use kv.Server.Execute.{Call, answers}
use kv.Server.Dispatch.{process_lines}
use kv.Server.Dispatch.ReadWrite.{set_frame, get_frame, process_lines-set-get}
use kv.Examples.ClusterRuns.{hash, router}
use kv.Examples.ServerRuns.{turn, server, log_of}

abbrev call : Call
call = record {
  turn = turn;
  forward = λ n node message. [];
  ping = λ node. false;
  turns = 1;
  latency_us = pos 7;
}

abbrev alone : KvServer Timed
alone = record (server (log_of [] 0 0)) { m_router = record router { m_enabled = false } }

-- The value has a space and a line end in it.
process_lines-set-get_example :
    (s' : KvServer Timed) × (process_lines memory_methods hash
        (λ n. true)
        ((call, set_frame (codes "k") (codes "a b\n")) ∷ (call, get_frame (codes "k")) ∷ [])
        alone
      ≡ answers s' (resp_simple (codes "OK") ++ (resp_bulk (some (codes "a b\n")) ++ [])) [])
process_lines-set-get_example =
    process_lines-set-get hash (λ n. true) (codes "k") refl (codes "a b\n") refl
      (omega arith, (omega arith, (omega arith, tt))) refl refl call call alone refl fresh-IsValid
