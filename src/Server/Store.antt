-- ===== src/Server/Store.antt =====
-- src/storage/kv_store.h: the methods of `KVStore` that the server calls, and the memory store as one.
-- The clock is part of the state, so a method takes no time.
use kv.Prelude.{ℕ, suc, Bool, Option, List, Bytes}
use kv.Prelude.Int.{ℤ}
use kv.Storage.Memory
use kv.Storage.Memory.{MemoryStore, StoreEntry}

pub record StoreMethods (S : Type 0) : Type 0 where
  pub put : Bytes → Bytes → S → S × Bool
  pub put_ttl : Bytes → Bytes → ℤ → S → S × Bool
  pub get : Bytes → S → S × Option Bytes
  pub del : Bytes → S → S × Bool
  pub exists : Bytes → S → S × Bool
  pub expire : Bytes → ℤ → S → S × Bool
  pub ttl : Bytes → S → S × ℤ
  pub size : S → S × ℕ
  pub snapshot_entries : S → S × List StoreEntry
  pub replace_with_snapshot : List StoreEntry → S → S × Bool

-- A memory store with the readings of the clock that are still to come.
pub record Timed : Type 0 where
  pub store : MemoryStore
  pub clock : ℕ → ℤ
  pub reads : ℕ

abbrev pub timed_once {ℓ} : {A : Type ℓ} → (ℤ → MemoryStore → MemoryStore × A) → Timed → Timed × A
timed_once method t =
    let (s, a) = method (t.clock t.reads) t.store in
    (record t { store = s; reads = suc t.reads }, a)

abbrev pub timed_twice {ℓ} :
    {A : Type ℓ} → (ℤ → ℤ → MemoryStore → MemoryStore × A) → Timed → Timed × A
timed_twice method t =
    let (s, a) = method (t.clock t.reads) (t.clock (suc t.reads)) t.store in
    (record t { store = s; reads = suc (suc t.reads) }, a)

abbrev pub memory_methods : StoreMethods Timed
memory_methods = record {
  put = λ key value. timed_once (λ now. Memory.put now key value);
  put_ttl = λ key value ttl. timed_twice (λ now now'. Memory.put_ttl now now' key value ttl);
  get = λ key. timed_once (λ now. Memory.get now key);
  del = λ key. timed_once (λ now. Memory.del key);
  exists = λ key. timed_once (λ now. Memory.exists now key);
  expire = λ key ttl. timed_twice (λ now now'. Memory.expire now now' key ttl);
  ttl = λ key. timed_once (λ now. Memory.ttl now key);
  size = timed_once (λ now. Memory.size now);
  snapshot_entries = timed_once (λ now. Memory.snapshot_entries now);
  replace_with_snapshot = λ entries. timed_once (λ now. Memory.replace_with_snapshot now entries);
}
