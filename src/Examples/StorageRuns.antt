-- ===== src/Examples/StorageRuns.antt =====
-- The memory store, the log and the snapshot at concrete inputs.
use kv.Prelude.{
  ◌≡◌, refl, true, false, none, some, List, [], ◌∷◌, Bytes, codes, arith, length, bytes_beq,
  bytes_eq,
}
use kv.Prelude.Int.{pos, negsuc}
use kv.Prelude.Assoc.{find, insert, without}
use kv.Text.Decimal.{stoll, print}
use kv.Storage.Memory
use kv.Storage.Memory.{MemoryStore, StoreEntry, fresh, snapshot_entries, replace_with_snapshot}
use kv.Storage.Memory.Recency
use kv.Storage.Memory.Recency.{Call, run, run_spec, abstract_of, settled, push_all, pairs}
use kv.Storage.Memory.Refinement.{IsValid, Meets, Stands}
use kv.Storage.Memory.Methods.{run-Meets}
use kv.Storage.Memory.Histories.{
  after, after_spec, after-Stands, AreProper, AreNamed, Fits, capacity_respected, fresh-IsValid,
}
use kv.Storage.Memory.Reading.{get-put, get-put_ne, get-del}
use kv.Storage.Memory.Loading.{replace_with_snapshot-Stands, get-replace-snapshot}
use kv.Storage.Escape.{escape, unescape, unescape-escape}
use kv.Storage.Wal
use kv.Storage.Wal.Records
use kv.Storage.Wal.Records.{Entry}
use kv.Storage.Snapshot.{SnapshotFile, SaveIo, save, load}
use kv.Storage.Snapshot.RoundTrip.{put_all, load-save}
use kv.Storage.Persistent.{memory_kv}

abbrev calls : List Call
calls =
    Recency.put (pos 1000) (codes "a") (codes "1")
    ∷ Recency.put_ttl (pos 1000) (pos 1000) (codes "b") (codes "2") (pos 5)
    ∷ Recency.get (pos 2000) (codes "a")
    ∷ []

-- Two keys, one of which expires at 6000.
abbrev two_keys : MemoryStore
two_keys = after calls fresh

two_keys-IsValid : IsValid two_keys
two_keys-IsValid = (after-Stands calls fresh fresh-IsValid (tt, (tt, (tt, tt)))).valid

two_keys-named : find {K = Bytes} [] two_keys.m_data ≡ none
unfolding after run Memory.put Memory.put_with_expire_at Memory.put_ttl Memory.put_entry Memory.get
    Memory.touch_locked Memory.enforce_capacity_locked Memory.evict_expired_locked Memory.evict_from
    Memory.shrink Memory.ttl_to_expire_at_ms Memory.expired Memory.erase_entry insert without find
    bytes_beq
two_keys-named = refl

run-Meets_example :
    Meets
      (run (Recency.set_max_keys (pos 3000) 1) two_keys)
      (run_spec (Recency.set_max_keys (pos 3000) 1) (abstract_of two_keys))
run-Meets_example = run-Meets (Recency.set_max_keys (pos 3000) 1) two_keys two_keys-IsValid tt

after-Stands_example : Stands (after calls fresh) (after_spec calls (abstract_of fresh))
after-Stands_example = after-Stands calls fresh fresh-IsValid (tt, (tt, (tt, tt)))

abbrev bounded_calls : List Call
bounded_calls =
    Recency.set_max_keys (pos 0) 1
    ∷ Recency.put (pos 0) (codes "a") (codes "1")
    ∷ Recency.put (pos 0) (codes "b") (codes "2")
    ∷ Recency.replace_with_snapshot (pos 0) (
        record { key = codes "c"; value = codes "3"; expire_at_ms = pos 0 }
        ∷ record { key = codes "d"; value = codes "4"; expire_at_ms = pos 0 }
        ∷ [])
    ∷ []

bounded_calls-AreProper : AreProper bounded_calls
unfolding find bytes_beq
bounded_calls-AreProper = (tt, (tt, (tt, ((refl, (refl, tt)), tt))))

bounded_calls-AreNamed : AreNamed bounded_calls
bounded_calls-AreNamed = (tt, (tt, (tt, (refl, tt))))

capacity_respected_example :
    Fits (after bounded_calls fresh).m_max_keys (length (after bounded_calls fresh).m_data)
capacity_respected_example =
    capacity_respected bounded_calls bounded_calls-AreProper bounded_calls-AreNamed

get-put_example :
    (Memory.get
      (pos 4999)
      (codes "c")
      (Memory.put_with_expire_at (pos 3000) (codes "c") (codes "3") (pos 5000) two_keys).0).1
    ≡ some (codes "3")
get-put_example =
    get-put (pos 3000) (pos 4999) (codes "c") (codes "3") (pos 5000) two_keys two_keys-IsValid refl
      refl refl

get-put_ne_example :
    (Memory.get
      (pos 4000)
      (codes "a")
      (Memory.put_with_expire_at (pos 3000) (codes "c") (codes "3") (pos 0) fresh).0).1
    ≡ (Memory.get (pos 4000) (codes "a") fresh).1
get-put_ne_example =
    get-put_ne (pos 3000) (pos 4000) (codes "c") (codes "a") (codes "3") (pos 0) fresh fresh-IsValid
      refl (grind arith) (omega arith)

get-del_example : (Memory.get (pos 3000) (codes "a") (Memory.del (codes "a") two_keys).0).1 ≡ none
get-del_example = get-del (pos 3000) (codes "a") two_keys

abbrev entries : List StoreEntry
entries =
    record { key = codes "a"; value = codes "1"; expire_at_ms = pos 0 }
    ∷ record { key = codes "b\t"; value = codes "2"; expire_at_ms = pos 6000 }
    ∷ []

replace_with_snapshot-Stands_example :
    ((replace_with_snapshot (pos 0) entries two_keys).1 ≡ true)
    × Stands (replace_with_snapshot (pos 0) entries two_keys).0 (
        settled
          (pos 0)
          (record { entries = push_all (pairs entries) []; max_keys = two_keys.m_max_keys }))
unfolding find bytes_beq
replace_with_snapshot-Stands_example =
    replace_with_snapshot-Stands (pos 0) entries two_keys (refl, (refl, tt)) (refl, (refl, tt))

get-replace-snapshot_example :
    (Memory.get
      (pos 3000)
      (codes "a")
      (replace_with_snapshot (pos 2000) (snapshot_entries (pos 2000) two_keys).1 fresh).0).1
    ≡ (Memory.get (pos 3000) (codes "a") two_keys).1
get-replace-snapshot_example =
    get-replace-snapshot (pos 2000) (pos 2000) (pos 3000) (codes "a") two_keys fresh
      two_keys-IsValid two_keys-named refl (omega arith) (omega arith)

unescape-escape_example : unescape (escape (codes "a\tb\\\n")) ≡ some (codes "a\tb\\\n")
unescape-escape_example = unescape-escape (codes "a\tb\\\n")

stoll-print_example : stoll (print (negsuc 41)) ≡ some (negsuc 41, [])
stoll-print_example = Records.stoll-print_all (negsuc 41) (omega arith)

abbrev log_entries : List Entry
log_entries =
    Entry.put (codes "a\t") (codes "1\n") (pos 9000)
    ∷ Entry.expire (codes "a\t") (pos 9999)
    ∷ Entry.del (codes "b")
    ∷ []

abbrev disk : SnapshotFile
disk = record { m_path = codes "kv.snapshot"; file = none }

abbrev good_disk : SaveIo
good_disk = record {
  directory_made = true;
  tmp_opened = true;
  written = true;
  renamed = false;
  removed = true;
  renamed_again = true;
}

load-save_example :
    load memory_kv (λ n. pos 10) (save good_disk entries disk).0 fresh
    ≡ put_all memory_kv (λ n. pos 10) 0 entries fresh
load-save_example =
    load-save memory_kv (λ n. pos 10) good_disk entries disk fresh (omega arith, (omega arith, tt))
      (unfold save in refl)
