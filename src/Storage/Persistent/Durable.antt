-- ===== src/Storage/Persistent/Durable.antt =====
-- What the files hold while a persistent store runs: a snapshot and a log that give back its
-- contents, at every point at which it may stop.
use kv.Prelude.{
  ℕ, ◌≡◌, refl, Bool, true, false, not, ◌||◌, Option, none, some, List, [], ◌∷◌, ◌++◌, Bytes, inl,
  inr, arith, is_empty, ◌∙◌, sym, ap, append_assoc, nat_eq, bytes_eq, ◌⊎◌,
}
use kv.Prelude.Int.{ℤ, ◌≤ℤ◌}
use kv.Prelude.Assoc.{find, Distinct}
use kv.Text.Lacks.{All, All-append}
use kv.Storage.Memory.{StoreEntry, MemoryStore, entries_of, evict_expired_locked}
use kv.Storage.Memory.View.{Content, find-view}
use kv.Storage.Memory.Recency.{pairs}
use kv.Storage.Memory.Loading.{find-pairs, pairs-Distinct, entries_of-KeysNotEmpty, none_of_found}
use kv.Storage.Wal.Records.{Entry, line_of, file_of}
use kv.Storage.Snapshot.{SnapshotFile, SaveIo, save, install, contents_of}
use kv.Storage.Persistent.{PersistentMemoryStore}
use kv.Storage.Persistent.Calm.{held, Holds, effect, IsCalm, applied, applied-Holds, evicted-Holds}
use kv.Storage.Persistent.Effects.{
  effects, effects-append, effects-twice, puts_of, effects-puts_of, puts_of-IsCalm,
}

-- The file of the snapshot holds the entries; with no entries there may be no file.
abbrev pub SavedAs : SnapshotFile → List StoreEntry → Type 0
SavedAs f xs = (f.file ≡ some (contents_of xs)) ⊎ ((f.file ≡ none) × (xs ≡ []))

-- The memory holds `f`, and so does what the log gives when it is replayed over the snapshot.
pub record Durable (h : ℤ) (p : PersistentMemoryStore) (f : Bytes → Option Content) : Type 0 where
  pub base : List StoreEntry
  pub log : List Entry
  pub holds : Holds h p.m_memory f
  pub path : is_empty p.m_snapshot.m_path ≡ false
  pub snapshot_file : SavedAs p.m_snapshot base
  pub log_file : p.m_wal.contents ≡ file_of log
  pub base_calm : All (IsCalm h) (puts_of base)
  pub log_calm : All (IsCalm h) log
  pub replays : (j : Bytes) → effects log j (effects (puts_of base) j none) ≡ f j

-- Not: both renamings fail, and in between the old snapshot is removed.
abbrev pub IsSafe : SaveIo → Type 0
IsSafe io = (io.renamed || io.renamed_again || not io.removed) ≡ true

pub save-SavedAs :
    (io : SaveIo) (xs : List StoreEntry) (f : SnapshotFile)
    → IsSafe io
    → (((save io xs f).1 ≡ true) × (save io xs f).0 ≡ record f { file = some (contents_of xs) })
      ⊎ (((save io xs f).1 ≡ false) × (save io xs f).0 ≡ f)
unfolding save install
save-SavedAs io xs f safe = ground arith

pub file_of-append :
    (log : List Entry) (e : Entry)
    → file_of (log ++ e ∷ []) ≡ file_of log ++ (line_of e ++ b'\n' ∷ [])
file_of-append [] e = refl
file_of-append (d ∷ log) e =
    ap (λ l. line_of d ++ b'\n' ∷ l) (file_of-append log e)
    ∙ sym (append_assoc (line_of d) (b'\n' ∷ file_of log) (line_of e ++ b'\n' ∷ []))

module _ (h : ℤ) (p : PersistentMemoryStore) (f : Bytes → Option Content) (d : Durable h p f) where
  -- The memory and the log after an entry, with the snapshot as it was.
  pub logged-Durable :
      (now : ℤ) (le : now ≤ℤ h) (e : Entry) (n : ℕ) (open_now : Bool)
      → IsCalm h e
      → Durable h
          (record p {
            m_memory = applied h now le p.m_memory d.holds.calm e;
            m_wal = record {
              contents = p.m_wal.contents ++ (line_of e ++ b'\n' ∷ []);
              is_open = open_now;
            };
            m_ops_since_snapshot = n;
          })
          (λ j. effect e j (f j))
  logged-Durable now le e n open_now c = record {
    base = d.base;
    log = d.log ++ e ∷ [];
    holds = record {
      calm = moved.calm;
      contents = λ j. moved.contents j ∙ ap (effect e j) (d.holds.contents j);
    };
    path = d.path;
    snapshot_file = d.snapshot_file;
    log_file = ap (λ l. l ++ (line_of e ++ b'\n' ∷ [])) d.log_file ∙ sym (file_of-append d.log e);
    base_calm = d.base_calm;
    log_calm = All-append (IsCalm h) d.log (e ∷ []) d.log_calm (c, tt);
    replays = λ j.
        effects-append d.log (e ∷ []) j (effects (puts_of d.base) j none)
        ∙ ap (effect e j) (d.replays j);
  }
    where
      moved :
          Holds h (applied h now le p.m_memory d.holds.calm e) (λ j. effect e j (held p.m_memory j))
      moved = applied-Holds h now le p.m_memory d.holds.calm e c

  module _ (now : ℤ) (le : now ≤ℤ h) where
    abbrev kept : MemoryStore
    kept = evict_expired_locked now p.m_memory

    abbrev saved : List StoreEntry
    saved = entries_of kept.m_data

    kept-Holds : Holds h kept (held p.m_memory)
    kept-Holds = evicted-Holds h now le p.m_memory d.holds.calm

    saved-Distinct : Distinct (pairs saved)
    saved-Distinct = pairs-Distinct kept.m_data kept-Holds.calm.valid.keys_distinct

    find-saved : (j : Bytes) → find j (pairs saved) ≡ f j
    find-saved j =
        find-pairs j kept.m_data
        ∙ sym (find-view kept-Holds.calm.valid j)
        ∙ kept-Holds.contents j
        ∙ d.holds.contents j

    saved-IsCalm : All (IsCalm h) (puts_of saved)
    saved-IsCalm =
        puts_of-IsCalm h saved (entries_of-KeysNotEmpty kept.m_data named) saved-Distinct (λ j c e.
          kept-Holds.calm.lasting j c
            (find-view kept-Holds.calm.valid j ∙ sym (find-pairs j kept.m_data) ∙ e))
      where
        named : find {K = Bytes} [] kept.m_data ≡ none
        named =
            none_of_found (find [] kept.m_data)
              (sym (find-view kept-Holds.calm.valid []) ∙ kept-Holds.calm.named)

    effects-saved : (j : Bytes) → effects (puts_of saved) j none ≡ f j
    effects-saved j = effects-puts_of saved j none saved-Distinct ∙ rw (find-saved j) (self (f j))
      where
        self : (o : Option Content) → elim o [ none ↦ none | some c ↦ some c ] ≡ o
        self none = refl
        self (some c) = refl

    kept-Holds_all : Holds h kept f
    kept-Holds_all = record {
      calm = kept-Holds.calm;
      contents = λ j. kept-Holds.contents j ∙ d.holds.contents j;
    }

    -- The snapshot is not taken: only the memory was swept.
    pub swept-Durable : Durable h (record p { m_memory = kept }) f
    swept-Durable = record {
      base = d.base;
      log = d.log;
      holds = kept-Holds_all;
      path = d.path;
      snapshot_file = d.snapshot_file;
      log_file = d.log_file;
      base_calm = d.base_calm;
      log_calm = d.log_calm;
      replays = d.replays;
    }

    -- The snapshot is taken, and then the log is emptied or is not.
    pub saved-Durable :
        (contents : Bytes) (open_now : Bool) (n : ℕ)
        → (contents ≡ []) ⊎ (contents ≡ p.m_wal.contents)
        → Durable h
            (record p {
              m_memory = kept;
              m_snapshot = record p.m_snapshot { file = some (contents_of saved) };
              m_wal = record { contents = contents; is_open = open_now };
              m_ops_since_snapshot = n;
            })
            f
    saved-Durable contents open_now n (inl emptied) = record {
      base = saved;
      log = [];
      holds = kept-Holds_all;
      path = d.path;
      snapshot_file = inl refl;
      log_file = emptied;
      base_calm = saved-IsCalm;
      log_calm = tt;
      replays = effects-saved;
    }
    saved-Durable contents open_now n (inr left) = record {
      base = saved;
      log = d.log;
      holds = kept-Holds_all;
      path = d.path;
      snapshot_file = inl refl;
      log_file = left ∙ d.log_file;
      base_calm = saved-IsCalm;
      log_calm = d.log_calm;
      replays = λ j.
          ap (effects d.log j) (effects-saved j ∙ sym (d.replays j))
          ∙ effects-twice d.log j (effects (puts_of d.base) j none)
          ∙ d.replays j;
    }
