-- ===== src/Storage/Persistent/Recovery.antt =====
-- A persistent store that is started on its files holds what it held when it stopped.
use kv.Prelude.{
  ℕ, suc, ◌≡◌, refl, Bool, true, false, ◌||◌, Option, none, some, List, [], ◌∷◌, ◌++◌, Bytes, inl,
  inr, Bool-cases, arith, is_empty, if◌then◌else◌, ◌∙◌, sym, ap, subst, ltb, nat_eq, bytes_eq, ◌==◌,
}
use kv.Prelude.Int.{ℤ, ◌≤ℤ◌}
use kv.Prelude.Assoc.{find}
use kv.Text.Lacks.{All}
use kv.Storage.Memory
use kv.Storage.Memory.{StoreEntry, MemoryStore, entries_of, evict_expired_locked, clear, fresh}
use kv.Storage.Memory.Histories.{fresh-IsValid}
use kv.Storage.Memory.View.{Content, view_of}
use kv.Storage.Memory.Linked.{Linked-empty}
use kv.Storage.Memory.Reading.{readable, get-readable}
use kv.Storage.Wal
use kv.Storage.Wal.{
  WriteAheadLog, Write, complete, broken, append_line, append_put, append_expire, append_del,
  finished, failed, threw, Outcome, apply_parsed,
}
use kv.Storage.Wal.Records.{Entry, put, expire, del, line_of, replay-file_of}
use kv.Storage.Snapshot.{load, set_path}
use kv.Storage.Snapshot.RoundTrip.{load-contents_of}
use kv.Storage.Persistent
use kv.Storage.Persistent.{
  PersistentMemoryStore, Io, take_snapshot, maybe_snapshot_locked, memory_kv, init, replay_into,
  counted, with_log,
}
use kv.Storage.Persistent.Calm.{Holds, effect, IsCalm, applied}
use kv.Storage.Persistent.Effects.{
  effects, puts_of, put_all-puts_of, puts_of-IsWide, IsCalm-IsWide, apply_entries-Holds, Applied,
}
use kv.Storage.Persistent.Durable.{
  Durable, IsSafe, save-SavedAs, logged-Durable, swept-Durable, saved-Durable,
}

module _ (h : ℤ) where
  -- The clock has not passed `h`, a line that is written is written whole, and no snapshot is lost
  -- between two renamings.
  abbrev pub GoesWell : Io → Type 0
  GoesWell io = (io.now ≤ℤ h) × (io.later ≤ℤ h) × (io.log_write ≡ complete) × IsSafe io.saving

  take_snapshot-Durable :
      (io : Io) (p : PersistentMemoryStore) (f : Bytes → Option Content)
      → GoesWell io
      → Durable h p f
      → Durable h (take_snapshot io p).0 f
  unfolding take_snapshot Memory.snapshot_entries Wal.reset
  take_snapshot-Durable io p f (_, le, _, safe) d =
      elim (save-SavedAs io.saving (entries_of (evict_expired_locked io.later p.m_memory).m_data)
        p.m_snapshot safe) [
          | inr (kept, same) ↦ rw (kept, same, take_snapshot) (swept-Durable h p f d io.later le)
          | inl (stored, new) ↦ elim (Bool-cases io.truncated) [
            | inr left ↦
                rw (stored, new, left, take_snapshot)
                  (saved-Durable h p f d io.later le p.m_wal.contents false p.m_ops_since_snapshot
                    (inr refl))
            | inl emptied ↦ elim (Bool-cases io.reopened) [
              | inl open_again ↦
                  rw (stored, new, emptied, open_again, take_snapshot)
                    (saved-Durable h p f d io.later le [] true 0 (inl refl))
              | inr closed ↦
                  rw (stored, new, emptied, closed, take_snapshot)
                    (saved-Durable h p f d io.later le [] false p.m_ops_since_snapshot (inl refl))
            ]
          ]
        ]

  maybe_snapshot_locked-Durable :
      (io : Io) (p : PersistentMemoryStore) (f : Bytes → Option Content)
      → GoesWell io
      → Durable h p f
      → Durable h (maybe_snapshot_locked io p).0 f
  unfolding maybe_snapshot_locked
  maybe_snapshot_locked-Durable io p f well d =
      elim (Bool-cases
        ((p.m_snapshot_threshold == 0) || ltb p.m_ops_since_snapshot p.m_snapshot_threshold)) [
          | inl e ↦ rw e d
          | inr e ↦ rw e (take_snapshot-Durable io p f well d)
        ]

  -- The method that appends the entry.
  unfoldable pub perform : Io → Entry → PersistentMemoryStore → PersistentMemoryStore × Bool
  perform io (put k v x) p = Persistent.put_with_expire_at io k v x p
  perform io (expire k x) p = Persistent.expire_at io k x p
  perform io (del k) p = Persistent.del io k p

  append_line-closed :
      (wr : Write) (line : Bytes) (w : WriteAheadLog)
      → w.is_open ≡ false
      → append_line wr line w ≡ (w, false)
  unfolding append_line
  append_line-closed complete line w e = ground arith
  append_line-closed (broken n) line w e = ground arith

  append_line-open :
      (wr : Write) (line : Bytes) (w : WriteAheadLog)
      → wr ≡ complete
      → w.is_open ≡ true
      → append_line wr line w
        ≡ (record { contents = w.contents ++ (line ++ b'\n' ∷ []); is_open = true }, true)
  unfolding append_line
  append_line-open wr line w whole e = rw (whole, e) refl

  -- An update of a store whose log is closed is refused, and changes nothing.
  pub perform-closed :
      (io : Io) (e : Entry) (p : PersistentMemoryStore)
      → p.m_wal.is_open ≡ false
      → perform io e p ≡ (p, false)
  unfolding perform Persistent.put_with_expire_at Persistent.expire_at Persistent.del append_put
      append_expire append_del
  perform-closed io (put k v x) p e =
      rw (append_line-closed io.log_write (Wal.put_line k v x) p.m_wal e) refl
  perform-closed io (expire k x) p e =
      rw (append_line-closed io.log_write (Wal.expire_line k x) p.m_wal e) refl
  perform-closed io (del k) p e =
      rw (append_line-closed io.log_write (Wal.del_line k) p.m_wal e) refl

  module _ (io : Io) (p : PersistentMemoryStore) (f : Bytes → Option Content) (well : GoesWell io)
      (d : Durable h p f) where
    logged :
        (e : Entry) (n : ℕ)
        → IsCalm h e
        → Durable h
            (record p {
              m_memory = applied h io.now well.0 p.m_memory d.holds.calm e;
              m_wal = record {
                contents = p.m_wal.contents ++ (line_of e ++ b'\n' ∷ []);
                is_open = true;
              };
              m_ops_since_snapshot = n;
            })
            (λ j. effect e j (f j))
    logged e n c = logged-Durable h p f d io.now well.0 e n true c

    put_ok :
        (k v : Bytes) (x : ℤ)
        → is_empty k ≡ false
        → (Memory.put_with_expire_at io.now k v x p.m_memory).1 ≡ true
    unfolding Memory.put_with_expire_at
    put_ok k v x e = rw e refl

    -- Every update that is logged keeps the files able to give back the contents, whether or not a
    -- snapshot is taken and the log is emptied after it.
    pub perform-Durable :
        (e : Entry)
        → IsCalm h e
        → p.m_wal.is_open ≡ true
        → Durable h (perform io e p).0 (λ j. effect e j (f j))
    unfolding perform Persistent.put_with_expire_at Persistent.expire_at Persistent.del append_put
        append_expire append_del
    perform-Durable (put k v x) c is_open =
        rw
          (
            append_line-open io.log_write (Wal.put_line k v x) p.m_wal well.2 is_open,
            put_ok k v x c.0,
            perform,
          )
          (maybe_snapshot_locked-Durable io _ _ well
            (logged (put k v x) (suc p.m_ops_since_snapshot) c))
    perform-Durable (expire k x) c is_open =
        rw (append_line-open io.log_write (Wal.expire_line k x) p.m_wal well.2 is_open, perform)
          (elim (Bool-cases (Memory.expire_at io.now k x p.m_memory).1) [
            | inl hit ↦ rw hit (
                maybe_snapshot_locked-Durable io _ _ well
                  (logged (expire k x) (suc p.m_ops_since_snapshot) c))
            | inr miss ↦ rw miss (logged (expire k x) p.m_ops_since_snapshot c)
          ])
    perform-Durable (del k) c is_open =
        rw (append_line-open io.log_write (Wal.del_line k) p.m_wal well.2 is_open, perform)
          (maybe_snapshot_locked-Durable io _ _ well
            (logged (del k) (suc p.m_ops_since_snapshot) c))

  -- The updates of a run, one after the other.
  unfoldable pub run_all : List (Io × Entry) → PersistentMemoryStore → PersistentMemoryStore
  run_all [] p = p
  run_all ((io, e) ∷ xs) p = run_all xs (perform io e p).0

  -- Those that found the log open.
  unfoldable pub accepted : List (Io × Entry) → PersistentMemoryStore → List Entry
  accepted [] p = []
  accepted ((io, e) ∷ xs) p =
      let rest = accepted xs (perform io e p).0 in if p.m_wal.is_open then e ∷ rest else rest

  abbrev pub AllGoWell : List (Io × Entry) → Type 0
  AllGoWell = All (λ (io, e). GoesWell io × IsCalm h e)

  accepted-open :
      (io : Io) (e : Entry) (xs : List (Io × Entry)) (p : PersistentMemoryStore)
      → p.m_wal.is_open ≡ true
      → accepted ((io, e) ∷ xs) p ≡ e ∷ accepted xs (perform io e p).0
  unfolding accepted
  accepted-open io e xs p h = ground arith

  accepted-closed :
      (io : Io) (e : Entry) (xs : List (Io × Entry)) (p : PersistentMemoryStore)
      → p.m_wal.is_open ≡ false
      → accepted ((io, e) ∷ xs) p ≡ accepted xs p
  unfolding accepted
  accepted-closed io e xs p h = ground (arith, ap (λ q. q.0) (perform-closed io e p h))

  run_all-Durable :
      (xs : List (Io × Entry)) (p : PersistentMemoryStore) (f : Bytes → Option Content)
      → AllGoWell xs
      → Durable h p f
      → Durable h (run_all xs p) (λ j. effects (accepted xs p) j (f j))
  unfolding run_all
  run_all-Durable [] p f _ d = unfold accepted in d
  run_all-Durable ((io, e) ∷ xs) p f ((well, c), rest) d = elim (Bool-cases p.m_wal.is_open) [
    | inl e' ↦ rw (accepted-open io e xs p e') (
        run_all-Durable xs (perform io e p).0 (λ j. effect e j (f j)) rest
          (perform-Durable io p f well d e c e'))
    | inr e' ↦
        rw (accepted-closed io e xs p e', perform-closed io e p e') (run_all-Durable xs p f rest d)
  ]

  -- A store with no bound on its keys that is started on the files.
  module _ (clock clock' : ℕ → ℤ) (le : (n : ℕ) → clock n ≤ℤ h) (le' : (n : ℕ) → clock' n ≤ℤ h)
      (threshold : ℕ) (blank : PersistentMemoryStore)
      (unbounded : blank.m_memory.m_max_keys ≡ 0) where
    cleared-Holds : Holds h (clear blank.m_memory) (λ j. none)
    unfolding clear find view_of
    cleared-Holds = record {
      calm = record {
        valid = Linked-empty blank.m_memory.next_node;
        unbounded = unbounded;
        lasting = λ j c e. absurd (cc);
        named = refl;
      };
      contents = λ j. refl;
    }

    loaded :
        (p : PersistentMemoryStore) (f : Bytes → Option Content)
        → (d : Durable h p f)
        → Applied h
            (puts_of d.base)
            (λ j. none)
            (load memory_kv clock p.m_snapshot (clear blank.m_memory))
    loaded p f d = elim d.snapshot_file [
      | inl e ↦
          rw
            (
              load-contents_of memory_kv clock d.base p.m_snapshot (clear blank.m_memory)
                  (puts_of-IsWide h d.base d.base_calm) d.path e,
              put_all-puts_of h clock le 0 d.base (clear blank.m_memory),
            )
            (apply_entries-Holds h clock le 0 (puts_of d.base) (clear blank.m_memory) (λ j. none)
              cleared-Holds d.base_calm)
      | inr (e, empty) ↦
          subst
            (λ xs.
              Applied h (puts_of xs) (λ j. none)
                (load memory_kv clock p.m_snapshot (clear blank.m_memory)))
            (sym empty)
            (record {
              store = clear blank.m_memory;
              ends = unfold load in rw (d.path, e) refl;
              holds = cleared-Holds;
            })
    ]

    replayed :
        (p : PersistentMemoryStore) (f : Bytes → Option Content) (d : Durable h p f)
        (s : MemoryStore)
        → Holds h s (λ j. effects (puts_of d.base) j none)
        → Applied h d.log
            (λ j. effects (puts_of d.base) j none)
            (Wal.replay memory_kv clock' (some p.m_wal.contents) s)
    replayed p f d s holds =
        rw (d.log_file, replay-file_of memory_kv clock' d.log s (IsCalm-IsWide h d.log d.log_calm))
          (apply_entries-Holds h clock' le' 0 d.log s _ holds d.log_calm)

    abbrev pub restarted : PersistentMemoryStore → Outcome PersistentMemoryStore
    restarted p =
        init true clock clock' p.m_wal p.m_snapshot.m_path threshold
          (record blank { m_snapshot = p.m_snapshot })

    record Restored (o : Outcome PersistentMemoryStore) (f : Bytes → Option Content) : Type 0 where
      store : PersistentMemoryStore
      ends : o ≡ finished store
      holds : Holds h store.m_memory f

    restarted-Restored :
        (p : PersistentMemoryStore) (f : Bytes → Option Content)
        → Durable h p f
        → Restored (restarted p) f
    unfolding init replay_into set_path
    restarted-Restored p f d =
        let base = loaded p f d in
        let full = replayed p f d base.store base.holds in
        record {
          store = record {
            m_memory = full.store;
            m_wal = record p.m_wal { is_open = true };
            m_snapshot = p.m_snapshot;
            m_snapshot_threshold = threshold;
            m_ops_since_snapshot = 0;
          };
          ends = rw (base.ends, init, replay_into, full.ends) refl;
          holds = record {
            calm = full.holds.calm;
            contents = λ j. full.holds.contents j ∙ d.replays j;
          };
        }

    -- `get` on the store that an outcome leaves.
    abbrev pub Answers : Outcome PersistentMemoryStore → ℤ → Bytes → Option Bytes → Type 0
    Answers (finished q) now k v = (Persistent.get now k q).1 ≡ v
    Answers (failed q) now k v = ⊥
    Answers (threw q) now k v = ⊥

    -- A new store, whose log is empty and open and whose snapshot's file is not there.
    abbrev pub new_store : Bytes → PersistentMemoryStore
    new_store path = record {
      m_memory = fresh;
      m_wal = record { contents = []; is_open = true };
      m_snapshot = record { m_path = path; file = none };
      m_snapshot_threshold = threshold;
      m_ops_since_snapshot = 0;
    }

    new_store-Durable :
        (path : Bytes) → is_empty path ≡ false → Durable h (new_store path) (λ j. none)
    unfolding find view_of
    new_store-Durable path named = record {
      base = [];
      log = [];
      holds = record {
        calm = record {
          valid = fresh-IsValid;
          unbounded = refl;
          lasting = λ j c e. absurd (cc);
          named = refl;
        };
        contents = λ j. refl;
      };
      path = named;
      snapshot_file = inr (refl, refl);
      log_file = refl;
      base_calm = tt;
      log_calm = tt;
      replays = λ j. refl;
    }

    get-Holds :
        (q : PersistentMemoryStore) (f : Bytes → Option Content) (now : ℤ) (k : Bytes)
        → Holds h q.m_memory f
        → (Persistent.get now k q).1 ≡ readable now (f k)
    unfolding Persistent.get
    get-Holds q f now k holds =
        get-readable now k q.m_memory holds.calm.valid ∙ ap (readable now) (holds.contents k)

    -- After any updates of a new store without a bound on its keys, in which no deadline passes
    -- before `h` and no key that is put is empty, wherever snapshots were taken and failed: the store
    -- holds what the updates that found the log open make of it, and a store that is started on its
    -- files before `h` finishes `init`, and every read from it returns what the first would return.
    pub get-restarted :
        (path : Bytes) (xs : List (Io × Entry)) (now : ℤ) (k : Bytes)
        → is_empty path ≡ false
        → AllGoWell xs
        → ((Persistent.get now k (run_all xs (new_store path))).1
            ≡ readable now (effects (accepted xs (new_store path)) k none))
          × Answers
              (restarted (run_all xs (new_store path)))
              now
              k
              (Persistent.get now k (run_all xs (new_store path))).1
    get-restarted path xs now k named well =
        let d =
          run_all-Durable xs (new_store path) (λ j. none) well (new_store-Durable path named) in
        let again = restarted-Restored (run_all xs (new_store path)) _ d in
        let here = get-Holds (run_all xs (new_store path)) _ now k d.holds in
        (here, rw again.ends (get-Holds again.store _ now k again.holds ∙ sym here))
