-- ===== src/Examples/RecoveryRuns.antt =====
-- The persistent store at concrete inputs.
use kv.Prelude.{◌≡◌, refl, true, false, none, List, [], ◌∷◌, codes, arith}
use kv.Prelude.Int.{pos}
use kv.Storage.Memory.{fresh}
use kv.Storage.Memory.Reading.{readable}
use kv.Storage.Wal.{complete}
use kv.Storage.Wal.Records.{Entry}
use kv.Storage.Persistent
use kv.Storage.Persistent.{PersistentMemoryStore, Io, init}
use kv.Storage.Persistent.Effects.{effects}
use kv.Storage.Persistent.Recovery.{
  run_all, accepted, restarted, new_store, Answers, get-restarted, GoesWell, AllGoWell,
}
use kv.Storage.Persistent.EmptyKey.{Finishes, put-empty_key}

-- The first renaming fails, and the log cannot be emptied.
abbrev io : Io
io = record {
  now = pos 10;
  later = pos 11;
  log_write = complete;
  saving = record {
    directory_made = true;
    tmp_opened = true;
    written = true;
    renamed = false;
    removed = true;
    renamed_again = true;
  };
  truncated = true;
  reopened = true;
}

abbrev updates : List (Io × Entry)
updates =
    (io, Entry.put (codes "a") (codes "1") (pos 0))
    ∷ (io, Entry.put (codes "b") (codes "2") (pos 5000))
    ∷ (io, Entry.expire (codes "a") (pos 6000))
    ∷ (io, Entry.del (codes "b"))
    ∷ []

abbrev blank : PersistentMemoryStore
blank =
    new_store (pos 100) (λ n. pos 20) (λ n. pos 30) (λ n. omega arith) (λ n. omega arith) 2
      (record {
        m_memory = fresh;
        m_wal = record { contents = []; is_open = false };
        m_snapshot = record { m_path = []; file = none };
        m_snapshot_threshold = 1000;
        m_ops_since_snapshot = 0;
      })
      refl (codes "kv.snapshot")

io-GoesWell : GoesWell (pos 100) io
io-GoesWell = (omega arith, omega arith, refl, refl)

well : AllGoWell (pos 100) updates
well = (
  (io-GoesWell, (refl, (refl, omega arith))),
  (
    (io-GoesWell, (refl, (refl, omega arith))),
    ((io-GoesWell, (refl, omega arith)), ((io-GoesWell, tt), tt)),
  ),
)

get-restarted_example :
    ((Persistent.get (pos 40) (codes "a") (run_all (pos 100) updates blank)).1
      ≡ readable (pos 40) (effects (accepted (pos 100) updates blank) (codes "a") none))
    × Answers
        (pos 100)
        (λ n. pos 20)
        (λ n. pos 30)
        (λ n. omega arith)
        (λ n. omega arith)
        2
        blank
        refl
        (restarted
          (pos 100)
          (λ n. pos 20)
          (λ n. pos 30)
          (λ n. omega arith)
          (λ n. omega arith)
          2
          blank
          refl
          (run_all (pos 100) updates blank))
        (pos 40)
        (codes "a")
        (Persistent.get (pos 40) (codes "a") (run_all (pos 100) updates blank)).1
get-restarted_example =
    get-restarted (pos 100) (λ n. pos 20) (λ n. pos 30) (λ n. omega arith) (λ n. omega arith) 2
      blank refl (codes "kv.snapshot") updates (pos 40) (codes "a") refl well

put-empty_key_example :
    ((Persistent.put_with_expire_at io [] (codes "1") (pos 0) blank).1 ≡ false)
    × (¬ Finishes (
        init true
          (λ n. pos 20)
          (λ n. pos 30)
          (Persistent.put_with_expire_at io [] (codes "1") (pos 0) blank).0.m_wal
          (codes "kv.snapshot")
          1000
          blank))
put-empty_key_example =
    put-empty_key io [] (codes "1") (pos 0) blank (λ n. pos 20) (λ n. pos 30) (codes "kv.snapshot")
      1000 blank refl refl refl tt (omega arith)
