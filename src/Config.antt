-- ===== src/Config.antt =====
-- src/config/server_config.h and `ServerConfig::validate` of src/config/yaml_parser.cpp.
use kv.Prelude.{
  Bool, true, false, not, ◌&&◌, ◌||◌, List, [], ◌∷◌, Bytes, codes, is_empty, if◌then◌else◌, ◌==◌,
  bytes_eq,
}
use kv.Prelude.Int.{ℤ, pos, ltb_ℤ}

pub record ClusterPeerConfig : Type 0 where
  pub id : Bytes
  pub host : Bytes
  pub port : ℤ

pub record NodeConfig : Type 0 where
  pub id : Bytes
  pub host : Bytes
  pub port : ℤ
  pub data_dir : Bytes

pub record StoreConfig : Type 0 where
  pub engine : Bytes
  pub wal_enabled : Bool
  pub wal_file : Bytes
  pub snapshot_file : Bytes
  pub snapshot_threshold : ℤ
  pub max_keys : ℤ

pub record ClusterConfig : Type 0 where
  pub enabled : Bool
  pub peers : List ClusterPeerConfig
  pub replication_factor : ℤ
  pub health_check_interval_ms : ℤ
  pub consistency : Bytes
  pub leader_id : Bytes

pub record LogConfig : Type 0 where
  pub write_mode : Bytes
  pub file : Bytes
  pub buffer_size : ℤ
  pub split_lines : ℤ
  pub max_queue_size : ℤ
  pub close : Bool

pub record ServerConfig : Type 0 where
  pub node : NodeConfig
  pub store : StoreConfig
  pub cluster : ClusterConfig
  pub log : LogConfig

-- The values of the fields of a `ServerConfig{}`.
abbrev pub default_config : ServerConfig
default_config = record {
  node = record {
    id = codes "node-1";
    host = codes "0.0.0.0";
    port = pos 9006;
    data_dir = codes "./data/node-1";
  };
  store = record {
    engine = codes "memory";
    wal_enabled = false;
    wal_file = codes "./data/node-1/kv.wal";
    snapshot_file = codes "./data/node-1/kv.snapshot";
    snapshot_threshold = pos 1000;
    max_keys = pos 0;
  };
  cluster = record {
    enabled = false;
    peers = [];
    replication_factor = pos 2;
    health_check_interval_ms = pos 1000;
    consistency = codes "best_effort";
    leader_id = codes "node-1";
  };
  log = record {
    write_mode = codes "async";
    file = codes "./KVServerLog";
    buffer_size = pos 8192;
    split_lines = pos 5000000;
    max_queue_size = pos 800;
    close = false;
  };
}

abbrev pub bad_port : ℤ → Bool
bad_port port = ltb_ℤ port (pos 1) || ltb_ℤ (pos 65535) port

-- The loop over the peers.
unfoldable pub peers_ok : List ClusterPeerConfig → Bool
peers_ok [] = true
peers_ok (peer ∷ peers) =
    let rest = peers_ok peers in
    if is_empty peer.id || is_empty peer.host || bad_port peer.port then false else rest

unfoldable pub validate : ServerConfig → Bool
unfolding peers_ok
validate c =
    if is_empty c.node.id
    then false
    else if is_empty c.node.host
    then false
    else if bad_port c.node.port
    then false
    else if not (c.store.engine == codes "memory")
    then false
    else if ltb_ℤ c.store.snapshot_threshold (pos 0)
    then false
    else if ltb_ℤ c.store.max_keys (pos 0)
    then false
    else if c.cluster.enabled && is_empty c.cluster.peers
    then false
    else if ltb_ℤ c.cluster.replication_factor (pos 1)
    then false
    else if ltb_ℤ c.cluster.health_check_interval_ms (pos 100)
    then false
    else if not (c.cluster.consistency == codes "best_effort")
        && not (c.cluster.consistency == codes "raft")
    then false
    else peers_ok c.cluster.peers
