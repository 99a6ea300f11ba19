-- ===== src/Storage/Persistent.antt =====
-- src/storage/persistent_memory_store.{h,cpp}: the memory store behind its log and its snapshot.
-- What the file system answers to the calls of a method is an argument of it, as are the readings of
-- the clock.
pub mod Calm
pub mod Effects
pub mod Durable
pub mod Recovery
pub mod EmptyKey
use kv.Prelude.{
  ℕ, zero, suc, ◌+◌, Bool, true, false, ◌||◌, Option, none, some, List, [], ◌∷◌, ◌++◌, Bytes, codes,
  if◌then◌else◌, ◌==◌, nat_eq, ltb,
}
use kv.Prelude.Int.{ℤ, pos, leb_ℤ}
use kv.Storage.Memory
use kv.Storage.Memory.{MemoryStore, StoreEntry, ttl_to_expire_at_ms}
use kv.Storage.Wal
use kv.Storage.Wal.{
  WriteAheadLog, Write, KvStore, Outcome, finished, failed, threw, append_put, append_expire,
  append_del,
}
use kv.Storage.Snapshot
use kv.Storage.Snapshot.{SnapshotFile, SaveIo, save, load, set_path}

-- `MemoryStore` as the `KVStore` that the log and the snapshot are read into.
abbrev pub memory_kv : KvStore MemoryStore
memory_kv = record {
  put_with_expire_at = Memory.put_with_expire_at;
  expire_at = Memory.expire_at;
  del = Memory.del;
}

pub record PersistentMemoryStore : Type 0 where
  pub m_memory : MemoryStore
  pub m_wal : WriteAheadLog
  pub m_snapshot : SnapshotFile
  pub m_snapshot_threshold : ℕ
  pub m_ops_since_snapshot : ℕ

-- The environment of one method call.
pub record Io : Type 0 where
  pub now : ℤ
  pub later : ℤ
  pub log_write : Write
  pub saving : SaveIo
  pub truncated : Bool
  pub reopened : Bool

-- Saves the entries of the memory store and empties the log.
unfoldable pub take_snapshot : Io → PersistentMemoryStore → PersistentMemoryStore × Bool
take_snapshot io p =
    let (m', entries) = Memory.snapshot_entries io.later p.m_memory in
    let (f', saved) = save io.saving entries p.m_snapshot in
    let p' = record p { m_memory = m'; m_snapshot = f' } in
    let (w', emptied) = Wal.reset io.truncated io.reopened p.m_wal in
    let emptied_p = record p' { m_wal = w' } in
    if saved
    then (if emptied
        then (record emptied_p { m_ops_since_snapshot = 0 }, true)
        else (emptied_p, false))
    else (p', false)

unfoldable pub maybe_snapshot_locked : Io → PersistentMemoryStore → PersistentMemoryStore × Bool
unfolding take_snapshot
maybe_snapshot_locked io p =
    if (p.m_snapshot_threshold == 0) || ltb p.m_ops_since_snapshot p.m_snapshot_threshold
    then (p, true)
    else take_snapshot io p

abbrev pub with_log : PersistentMemoryStore → WriteAheadLog → PersistentMemoryStore
with_log p w = record p { m_wal = w }

abbrev pub counted : PersistentMemoryStore → MemoryStore → PersistentMemoryStore
counted p m = record p { m_memory = m; m_ops_since_snapshot = suc p.m_ops_since_snapshot }

unfoldable pub put_with_expire_at :
    Io → Bytes → Bytes → ℤ → PersistentMemoryStore → PersistentMemoryStore × Bool
put_with_expire_at io key value expire_at_ms p =
    let (w', logged) = append_put io.log_write key value expire_at_ms p.m_wal in
    let p' = with_log p w' in
    let (m', ok) = Memory.put_with_expire_at io.now key value expire_at_ms p.m_memory in
    if logged
    then (if ok
        then maybe_snapshot_locked io (counted p' m')
        else (record p' { m_memory = m' }, false))
    else (p', false)

unfoldable pub put : Io → Bytes → Bytes → PersistentMemoryStore → PersistentMemoryStore × Bool
put io key value p = put_with_expire_at io key value (pos 0) p

-- The deadline is computed from a reading of the clock before the call.
unfoldable pub put_ttl :
    ℤ → Io → Bytes → Bytes → ℤ → PersistentMemoryStore → PersistentMemoryStore × Bool
put_ttl before io key value ttl_seconds p =
    if leb_ℤ ttl_seconds (pos 0)
    then (p, false)
    else put_with_expire_at io key value (ttl_to_expire_at_ms before ttl_seconds) p

unfoldable pub del : Io → Bytes → PersistentMemoryStore → PersistentMemoryStore × Bool
del io key p =
    let (w', logged) = append_del io.log_write key p.m_wal in
    let p' = with_log p w' in
    if logged
    then maybe_snapshot_locked io (counted p' (Memory.del key p.m_memory).0)
    else (p', false)

unfoldable pub expire_at : Io → Bytes → ℤ → PersistentMemoryStore → PersistentMemoryStore × Bool
expire_at io key expire_at_ms p =
    let (w', logged) = append_expire io.log_write key expire_at_ms p.m_wal in
    let p' = with_log p w' in
    let (m', ok) = Memory.expire_at io.now key expire_at_ms p.m_memory in
    if logged
    then (if ok
        then maybe_snapshot_locked io (counted p' m')
        else (record p' { m_memory = m' }, false))
    else (p', false)

unfoldable pub expire : ℤ → Io → Bytes → ℤ → PersistentMemoryStore → PersistentMemoryStore × Bool
expire before io key ttl_seconds p =
    if leb_ℤ ttl_seconds (pos 0)
    then (p, false)
    else expire_at io key (ttl_to_expire_at_ms before ttl_seconds) p

abbrev pub with_memory {ℓ} :
    {A : Type ℓ} → PersistentMemoryStore → MemoryStore × A → PersistentMemoryStore × A
with_memory p (m, a) = (record p { m_memory = m }, a)

unfoldable pub get : ℤ → Bytes → PersistentMemoryStore → PersistentMemoryStore × Option Bytes
get now key p = with_memory p (Memory.get now key p.m_memory)

unfoldable pub exists : ℤ → Bytes → PersistentMemoryStore → PersistentMemoryStore × Bool
exists now key p = with_memory p (Memory.exists now key p.m_memory)

unfoldable pub ttl : ℤ → Bytes → PersistentMemoryStore → PersistentMemoryStore × ℤ
ttl now key p = with_memory p (Memory.ttl now key p.m_memory)

unfoldable pub set_max_keys : ℤ → ℕ → PersistentMemoryStore → PersistentMemoryStore
set_max_keys now max_keys p = record p { m_memory = Memory.set_max_keys now max_keys p.m_memory }

unfoldable pub size : ℤ → PersistentMemoryStore → PersistentMemoryStore × ℕ
size now p = with_memory p (Memory.size now p.m_memory)

unfoldable pub snapshot_entries :
    ℤ → PersistentMemoryStore → PersistentMemoryStore × List StoreEntry
snapshot_entries now p = with_memory p (Memory.snapshot_entries now p.m_memory)

unfoldable pub replace_with_snapshot :
    Io → List StoreEntry → PersistentMemoryStore → PersistentMemoryStore × Bool
unfolding take_snapshot
replace_with_snapshot io entries p =
    let (m', replaced) = Memory.replace_with_snapshot io.now entries p.m_memory in
    let p' = record p { m_memory = m' } in if replaced then take_snapshot io p' else (p', false)

-- The result of `init`: the store as it stands at the end, and whether `true` was returned; an
-- exception leaves it.
unfoldable pub replay_into :
    (ℕ → ℤ)
    → WriteAheadLog
    → PersistentMemoryStore
    → Outcome MemoryStore
    → Outcome PersistentMemoryStore
replay_into clock w p (finished m) = elim (Wal.replay memory_kv clock (some w.contents) m) [
  | finished m' ↦ finished (record p { m_memory = m' })
  | failed m' ↦ failed (record p { m_memory = m' })
  | threw m' ↦ threw (record p { m_memory = m' })
]
replay_into clock w p (failed m) = failed (record p { m_memory = m })
replay_into clock w p (threw m) = threw (record p { m_memory = m })

-- `init` on the log's file `w` (as `open` leaves it) and the snapshot's file; `opened` says whether
-- the log could be opened. The snapshot is read with one clock, the log with the other.
unfoldable pub init :
    Bool
    → (ℕ → ℤ)
    → (ℕ → ℤ)
    → WriteAheadLog
    → Bytes
    → ℕ
    → PersistentMemoryStore
    → Outcome PersistentMemoryStore
unfolding replay_into
init opened snapshot_clock log_clock w snapshot_file snapshot_threshold p =
    let w' = record w { is_open = opened } in
    let p' = record p {
      m_wal = w';
      m_snapshot = set_path snapshot_file p.m_snapshot;
      m_snapshot_threshold = snapshot_threshold;
      m_ops_since_snapshot = 0;
      m_memory = Memory.clear p.m_memory;
    } in
    if opened
    then replay_into log_clock w' p' (load memory_kv snapshot_clock p'.m_snapshot p'.m_memory)
    else failed (record p { m_wal = w' })

-- `init` with the path of the log alone: the snapshot stands beside it, and is taken every 1000
-- writes.
unfoldable pub init_default :
    Bool
    → (ℕ → ℤ)
    → (ℕ → ℤ)
    → Bytes
    → WriteAheadLog
    → PersistentMemoryStore
    → Outcome PersistentMemoryStore
init_default opened snapshot_clock log_clock wal_file w p =
    init opened snapshot_clock log_clock w (wal_file ++ codes ".snapshot") 1000 p
