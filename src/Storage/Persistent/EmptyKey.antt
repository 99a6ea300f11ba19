-- ===== src/Storage/Persistent/EmptyKey.antt =====
-- An empty key: its record is in the log before the memory store refuses it.
use kv.Prelude.{ℕ, suc, ◌≡◌, refl, true, false, some, List, [], ◌∷◌, ◌++◌, Bytes, ◌∙◌, sym, ap}
use kv.Prelude.Int.{ℤ}
use kv.Text.Lacks.{All, All-append}
use kv.Text.Decimal.{InRange}
use kv.Storage.Memory
use kv.Storage.Memory.{MemoryStore}
use kv.Storage.Wal
use kv.Storage.Wal.{
  WriteAheadLog, complete, append_line, append_put, finished, failed, threw, Outcome, apply_parsed,
}
use kv.Storage.Wal.Records.{Entry, put, IsWide, file_of, replay-file_of, apply_entries, asks}
use kv.Storage.Snapshot.{set_path}
use kv.Storage.Persistent
use kv.Storage.Persistent.{PersistentMemoryStore, Io, memory_kv, init, replay_into}
use kv.Storage.Persistent.Durable.{file_of-append}

-- `true` was returned.
abbrev pub Finishes : {S : Type 0} → Outcome S → Type 0
Finishes (finished s) = Unit
Finishes (failed s) = ⊥
Finishes (threw s) = ⊥

refused_entries :
    (clock : ℕ → ℤ) (n : ℕ) (es : List Entry) (v : Bytes) (x : ℤ) (s : MemoryStore)
    → ¬ Finishes (apply_entries memory_kv clock n (es ++ put [] v x ∷ []) s)
unfolding apply_parsed Memory.put_with_expire_at
refused_entries clock n [] v x s h = h
refused_entries clock n (e ∷ es) v x s h =
    next (apply_parsed memory_kv (clock n) (asks e) s)
      (λ s'. refused_entries clock (suc n) es v x s') h
  where
    next :
        (o : Outcome MemoryStore)
        → ((s' : MemoryStore)
            → ¬ Finishes (apply_entries memory_kv clock (suc n) (es ++ put [] v x ∷ []) s'))
        → ¬ Finishes (elim o [
          | finished s' ↦ apply_entries memory_kv clock (suc n) (es ++ put [] v x ∷ []) s'
          | failed s' ↦ failed s'
          | threw s' ↦ threw s'
        ])
    next (finished s') ih h = ih s' h
    next (failed s') ih h = h
    next (threw s') ih h = h

-- A log that ends with such a record.
module _ (log : List Entry) (v : Bytes) (x : ℤ) (wide : All IsWide log) (range : InRange x)
    (w : WriteAheadLog) (is_log : w.contents ≡ file_of (log ++ put [] v x ∷ [])) where
  replay_refused :
      (clock : ℕ → ℤ) (m : MemoryStore)
      → ¬ Finishes (Wal.replay memory_kv clock (some w.contents) m)
  replay_refused clock m =
      rw
        (
          is_log,
          replay-file_of memory_kv clock (log ++ put [] v x ∷ []) m
              (All-append IsWide log (put [] v x ∷ []) wide (range, tt)),
        )
        (refused_entries clock 0 log v x m)

  replay_into_refused :
      (clock : ℕ → ℤ) (p : PersistentMemoryStore) (o : Outcome MemoryStore)
      → ¬ Finishes (replay_into clock w p o)
  unfolding replay_into
  replay_into_refused clock p (finished m) h =
      pass (Wal.replay memory_kv clock (some w.contents) m) (replay_refused clock m) h
    where
      pass :
          (o : Outcome MemoryStore)
          → ¬ Finishes o
          → ¬ Finishes (elim o [
            | finished m' ↦ finished (record p { m_memory = m' })
            | failed m' ↦ failed (record p { m_memory = m' })
            | threw m' ↦ threw (record p { m_memory = m' })
          ])
      pass (finished m') h = h
      pass (failed m') h = λ e. e
      pass (threw m') h = λ e. e
  replay_into_refused clock p (failed m) h = h
  replay_into_refused clock p (threw m) h = h

  init_refused :
      (clock clock' : ℕ → ℤ) (path : Bytes) (threshold : ℕ) (blank : PersistentMemoryStore)
      → w.is_open ≡ true
      → ¬ Finishes (init true clock clock' w path threshold blank)
  unfolding init
  init_refused clock clock' path threshold blank is_open = rw⁻¹ is_open (
      replay_into_refused clock'
        (record {
          m_memory = Memory.clear blank.m_memory;
          m_wal = w;
          m_snapshot = set_path path blank.m_snapshot;
          m_snapshot_threshold = threshold;
          m_ops_since_snapshot = 0;
        })
        _)

-- A put of the empty key on a persistent store whose log is open and holds records is refused, but its
-- record, if it is written whole, is in the log, and no store that is started on that log finishes
-- `init`, whatever the snapshot is; the deadlines of the log and of the put are 64-bit numbers.
pub put-empty_key :
    (io : Io) (log : List Entry) (v : Bytes) (x : ℤ) (p : PersistentMemoryStore)
    (clock clock' : ℕ → ℤ) (path : Bytes) (threshold : ℕ) (blank : PersistentMemoryStore)
    → io.log_write ≡ complete
    → p.m_wal.is_open ≡ true
    → p.m_wal.contents ≡ file_of log
    → All IsWide log
    → InRange x
    → ((Persistent.put_with_expire_at io [] v x p).1 ≡ false)
      × (¬ Finishes (
          init true clock clock'
            (Persistent.put_with_expire_at io [] v x p).0.m_wal
            path
            threshold
            blank))
unfolding Persistent.put_with_expire_at append_put append_line Memory.put_with_expire_at
put-empty_key io log v x p clock clock' path threshold blank whole is_open contents wide range =
    rw (whole, is_open)
      (
        refl,
        init_refused log v x wide range
            (record {
              contents = p.m_wal.contents ++ (Wal.put_line [] v x ++ b'\n' ∷ []);
              is_open = true;
            })
            (ap (λ l. l ++ (Wal.put_line [] v x ++ b'\n' ∷ [])) contents
              ∙ sym (file_of-append log (put [] v x)))
            clock clock' path threshold blank refl,
      )
