-- ===== src/Examples/WriteRuns.antt =====
-- Replicated writes at concrete inputs.
use kv.Prelude.{
  ℕ, ◌≡◌, zero, suc, refl, Bool, true, false, Option, none, some, List, [], ◌∷◌, Bytes, codes,
  arith, bytes_beq, subst, ap, sym, ◌∙◌,
}
use kv.Prelude.Int.{ℤ, pos, ◌≤ℤ◌}
use kv.Text.Decimal.{is_space, scan_signed, scan_unsigned, scan_digits}
use kv.Text.Words.{words, words_from, read_int}
use kv.Protocol.{put_command, text_protocol, request_of, Request}
use kv.Cluster.ConsistentHash.{ClusterNode}
use kv.Server.{RaftLogEntry, KvServer}
use kv.Server.Store.{Timed, memory_methods}
use kv.Server.Codec.{parse_raft_append_response, read_word}
use kv.Server.Replicate.{Round, replicate_to, replicate_raft_write}
use kv.Server.Replicate.Ends.{Answers, replicate_to_ends}
use kv.Examples.ClusterRuns.{hash, node_2}
use kv.Examples.ServerRuns.{turn, server, log_of, e1}

abbrev taken_response : ℕ → ClusterNode → Bytes → Bytes
taken_response n follower message = codes "RAFT_APPEND 4 1 1\n"

abbrev put_k : Request
put_k = record (request_of text_protocol put_command) { key = codes "k"; value = codes "v" }

-- A follower whose log has not come up to the snapshot: it refuses the batch, accepts the snapshot, and
-- takes the batch after that.
abbrev lagging : ℕ → ClusterNode → Bytes → Bytes
lagging zero follower message = codes "RAFT_APPEND 4 0 0\n"
lagging (suc zero) follower message = codes "RAFT_SNAPSHOT 4 1\n"
lagging (suc (suc n)) follower message = codes "RAFT_APPEND 4 1 2\n"

refused_response-parse :
    parse_raft_append_response (codes "RAFT_APPEND 4 0 0\n") ≡ some (pos 4, false, pos 0)
unfolding parse_raft_append_response words words_from is_space read_int read_word scan_signed
    scan_unsigned scan_digits bytes_beq
refused_response-parse = refl

snapshot_response-parse : parse_raft_append_response (codes "RAFT_SNAPSHOT 4 1\n") ≡ none
unfolding parse_raft_append_response words words_from is_space read_int read_word scan_signed
    scan_unsigned scan_digits bytes_beq
snapshot_response-parse = refl

caught_up_response-parse :
    parse_raft_append_response (codes "RAFT_APPEND 4 1 2\n") ≡ some (pos 4, true, pos 2)
unfolding parse_raft_append_response words words_from is_space read_int read_word scan_signed
    scan_unsigned scan_digits bytes_beq
caught_up_response-parse = refl

abbrev e2 : RaftLogEntry
e2 = record e1 { index = pos 2; term = pos 4 }

abbrev round : Round
round = record {
  entry = e2;
  log_snapshot = e2 ∷ [];
  commit_snapshot = pos 1;
  snapshot_index = pos 1;
  snapshot_term = pos 1;
}

abbrev third : Option (ℤ × Bool × ℤ) → ℤ
third none = pos 0
third (some (t, b, m)) = m

lagging-taken :
    (n : ℕ) (message : Bytes) (term m : ℤ)
    → parse_raft_append_response (lagging n node_2 message) ≡ some (term, true, m)
    → pos 2 ≤ℤ m
lagging-taken zero message term m e = absurd (grind (arith, refused_response-parse))
lagging-taken (suc zero) message term m e = absurd (grind (arith, snapshot_response-parse))
lagging-taken (suc (suc n)) message term m e =
    subst (λ z. pos 2 ≤ℤ z) (ap third (sym caught_up_response-parse ∙ e)) (omega arith)

lagging-refused :
    (n : ℕ) (message : Bytes) (term m : ℤ)
    → parse_raft_append_response (lagging (suc n) node_2 message) ≡ some (term, false, m)
    → pos 1 ≤ℤ m
lagging-refused zero message term m e = absurd (grind (arith, snapshot_response-parse))
lagging-refused (suc n) message term m e = absurd (grind (arith, caught_up_response-parse))

lagging-Answers :
    Answers memory_methods lagging round node_2 0 (pos 2) (server (log_of (e2 ∷ []) 1 1))
lagging-Answers = record {
  taken = λ n z s message term m turns sent. lagging-taken n message term m;
  refused = λ n z s message term m turns low accepted sent. lagging-refused n message term m;
}

replicate_to_ends_example :
    (result : KvServer Timed × ℕ × Bool) × (replicate_to memory_methods lagging 3 round node_2 0
        (pos 2)
        (server (log_of (e2 ∷ []) 1 1))
      ≡ some result)
replicate_to_ends_example =
    replicate_to_ends memory_methods lagging round node_2 1 refl 3 0 0
      (server (log_of (e2 ∷ []) 1 1)) lagging-Answers (omega arith)

abbrev leader_server : KvServer Timed
leader_server = server (log_of [] 0 0)

abbrev write_of :
    Option (KvServer Timed × Bytes × List ClusterNode × Bytes)
    → KvServer Timed × Bytes × List ClusterNode × Bytes
write_of none = (leader_server, [], [], [])
write_of (some w) = w

abbrev written : KvServer Timed × Bytes × List ClusterNode × Bytes
written =
    write_of (
      replicate_raft_write memory_methods taken_response hash turn (λ n. true) 2 put_k
        leader_server)
