-- ===== src/Storage/Memory/Refinement.antt =====
-- The methods of `MemoryStore` for a key, and its evictions, beside what `Recency` says of them.
use kv.Prelude.{
  ◌≡◌, refl, Bool, true, false, none, some, Bytes, length, keep, inl, inr, Option-cases, is_empty,
  if◌then◌else◌, bytes_eq, nat_eq, ap, ap₂, ◌∙◌, sym,
}
use kv.Prelude.Int.{ℤ, pos, eqb_ℤ}
use kv.Prelude.Assoc.{find, insert, insert-insert, find-insert_self}
use kv.Storage.Memory.{
  Entry, MemoryStore, has_value, fresh, ttl_to_expire_at_ms, expired, touch_locked, put_entry,
  erase_entry, enforce_capacity_locked, evict_expired_locked,
}
use kv.Storage.Memory
use kv.Storage.Memory.Linked.{Linked, Linked-erase, Linked-fresh, Linked-touch}
use kv.Storage.Memory.View.{content, view, found, find-view}
use kv.Storage.Memory.Moves.{view-erase, view-touch, view-fresh}
use kv.Storage.Memory.Eviction.{alive, evict_expired_locked-Linked, evict_expired_locked-view}
use kv.Storage.Memory.Capacity.{
  capped, length-view, enforce_capacity_locked-Linked, enforce_capacity_locked-view,
  enforce_capacity_locked-max_keys,
}
use kv.Storage.Memory.Recency.{
  Cache, abstract_of, del, size, Reply, done, value, seconds, count, with_reply, run_spec, put_spec,
  expire_spec, ttl_spec, read_spec, settled, dropped, fronted,
}

abbrev pub IsValid : MemoryStore → Type 0
IsValid s = Linked s.m_data s.m_lru s.next_node

-- The state `t` is valid and stands for the cache `c`.
pub record Stands (t : MemoryStore) (c : Cache) : Type 0 where
  pub valid : IsValid t
  pub entries : view t ≡ c.entries
  pub max_keys : t.m_max_keys ≡ c.max_keys

module _ (s : MemoryStore) (h : IsValid s) where
  erase_entry-Stands :
      (k : Bytes) (e : Entry)
      → find k s.m_data ≡ some e
      → Stands (erase_entry k e s) (dropped k (abstract_of s))
  unfolding erase_entry
  erase_entry-Stands k e at = record {
    valid = Linked-erase h k e at;
    entries = view-erase h k e at;
    max_keys = refl;
  }

  -- `touch_locked`, after a change of the entry's value and deadline.
  touched-Stands :
      (k v : Bytes) (x : ℤ) (e : Entry)
      → find k s.m_data ≡ some e
      → Stands
          (touch_locked k
            (record s { m_data = insert k (record e { value = v; expire_at_ms = x }) s.m_data }))
          (fronted k (v, x) (abstract_of s))
  unfolding touch_locked
  touched-Stands k v x e at =
      rw
        (
          touch_locked,
          find-insert_self k (record e { value = v; expire_at_ms = x }) s.m_data,
          insert-insert k (record { value = v; expire_at_ms = x; lru_it = s.next_node })
              (record e { value = v; expire_at_ms = x }) s.m_data,
        )
        (record {
          valid = Linked-touch h k v x e at;
          entries = view-touch h k e _ s.next_node at;
          max_keys = refl;
        })

  touch_locked-Stands :
      (k : Bytes) (e : Entry)
      → find k s.m_data ≡ some e
      → Stands (touch_locked k s) (fronted k (content e) (abstract_of s))
  unfolding touch_locked
  touch_locked-Stands k e at =
      rw (at, touch_locked)
        (record {
          valid = Linked-touch h k e.value e.expire_at_ms e at;
          entries = view-touch h k e _ s.next_node at;
          max_keys = refl;
        })

  put_entry-Stands :
      (k v : Bytes) (x : ℤ) → Stands (put_entry k v x s) (fronted k (v, x) (abstract_of s))
  unfolding put_entry
  put_entry-Stands k v x = elim (Option-cases (find k s.m_data)) [
    | inl none_there ↦
        rw (none_there, put_entry)
          (record {
            valid = Linked-fresh h k v x none_there;
            entries = view-fresh h k _ s.next_node none_there;
            max_keys = refl;
          })
    | inr (e, at) ↦ rw (at, put_entry) (touched-Stands k v x e at)
  ]

module _ (now : ℤ) (t : MemoryStore) (c : Cache) (h : Stands t c) where
  pub enforced-Stands : Stands (enforce_capacity_locked now t) (settled now c)
  enforced-Stands = record {
    valid = enforce_capacity_locked-Linked now t h.valid;
    entries =
        enforce_capacity_locked-view now t h.valid
        ∙ ap₂ (λ n l. capped n (keep (alive now) l)) h.max_keys h.entries;
    max_keys = enforce_capacity_locked-max_keys now t h.valid ∙ h.max_keys;
  }

-- A method's new state and reply do what the specification says.
abbrev pub Meets : MemoryStore × Reply → Cache × Reply → Type 0
Meets (t, r) (c, r') = Stands t c × (r ≡ r')

pub self-Stands : (s : MemoryStore) → IsValid s → Stands s (abstract_of s)
self-Stands s h = record { valid = h; entries = refl; max_keys = refl }

pub if-Meets :
    {A : Type 0} (f : A → Reply) (b : Bool) (p q : MemoryStore × A) (p' q' : Cache × Reply)
    → (b ≡ true → Meets (with_reply f p) p')
    → (b ≡ false → Meets (with_reply f q) q')
    → Meets (with_reply f (if b then p else q)) (if b then p' else q')
if-Meets f true p q p' q' yes_case no_case = yes_case refl
if-Meets f false p q p' q' yes_case no_case = no_case refl

module _ (s : MemoryStore) (h : IsValid s) where
  pub put-Meets :
      (now : ℤ) (k v : Bytes) (x : ℤ)
      → Meets
          (with_reply done (Memory.put_with_expire_at now k v x s))
          (put_spec now k v x (abstract_of s))
  unfolding Memory.put_with_expire_at
  put-Meets now k v x =
      if-Meets done (is_empty k) _ _ _ _ (λ e. (self-Stands s h, refl))
        (λ e. (enforced-Stands now _ _ (put_entry-Stands s h k v x), refl))

  pub put-Stands :
      (now : ℤ) (k v : Bytes) (x : ℤ)
      → is_empty k ≡ false
      → Stands
          (Memory.put_with_expire_at now k v x s).0
          (settled now (fronted k (v, x) (abstract_of s)))
  unfolding Memory.put_with_expire_at
  put-Stands now k v x e = rw e (enforced-Stands now _ _ (put_entry-Stands s h k v x))

  seen_absent : (k : Bytes) → find k s.m_data ≡ none → find k (view s) ≡ none
  seen_absent k e = rw (find-view h k) (ap found e)

  seen : (k : Bytes) (e : Entry) → find k s.m_data ≡ some e → find k (view s) ≡ some (content e)
  seen k e at = rw (find-view h k) (ap found at)

  pub expire_at-Meets :
      (now : ℤ) (k : Bytes) (x : ℤ)
      → Meets (with_reply done (Memory.expire_at now k x s)) (expire_spec now k x (abstract_of s))
  unfolding Memory.expire_at expired
  expire_at-Meets now k x = elim (Option-cases (find k s.m_data)) [
    | inl e ↦ rw (e, seen_absent k e, Memory.expire_at, expire_spec) (self-Stands s h, refl)
    | inr (e, at) ↦
        rw (at, seen k e at, Memory.expire_at, expire_spec)
          (if-Meets done (expired e now) _ _ _ _ (λ _. (erase_entry-Stands s h k e at, refl))
            (λ _. (touched-Stands s h k e.value x e at, refl)))
  ]

  pub ttl-Meets :
      (now : ℤ) (k : Bytes)
      → Meets (with_reply seconds (Memory.ttl now k s)) (ttl_spec now k (abstract_of s))
  unfolding Memory.ttl expired
  ttl-Meets now k = elim (Option-cases (find k s.m_data)) [
    | inl e ↦ rw (e, seen_absent k e, Memory.ttl, ttl_spec) (self-Stands s h, refl)
    | inr (e, at) ↦
        rw (at, seen k e at, Memory.ttl, ttl_spec)
          (if-Meets seconds (expired e now) _ _ _ _ (λ _. (erase_entry-Stands s h k e at, refl))
            (λ _.
              if-Meets seconds (eqb_ℤ e.expire_at_ms (pos 0)) _ _ _ _ (λ _. (self-Stands s h, refl))
                (λ _. (self-Stands s h, refl))))
  ]

  pub get-Meets :
      (now : ℤ) (k : Bytes)
      → Meets
          (with_reply value (Memory.get now k s))
          (read_spec now k (value none) (λ v. value (some v)) (abstract_of s))
  unfolding Memory.get expired
  get-Meets now k = elim (Option-cases (find k s.m_data)) [
    | inl e ↦ rw (e, seen_absent k e, Memory.get, read_spec) (self-Stands s h, refl)
    | inr (e, at) ↦
        rw (at, seen k e at, Memory.get, read_spec)
          (if-Meets value (expired e now) _ _ _ _ (λ _. (erase_entry-Stands s h k e at, refl))
            (λ _. (touch_locked-Stands s h k e at, refl)))
  ]

  pub exists-Meets :
      (now : ℤ) (k : Bytes)
      → Meets
          (with_reply done (Memory.exists now k s))
          (read_spec now k (done false) (λ v. done true) (abstract_of s))
  unfolding Memory.exists Memory.get expired
  exists-Meets now k = elim (Option-cases (find k s.m_data)) [
    | inl e ↦
        rw (e, seen_absent k e, with_reply, Memory.exists, Memory.get, read_spec)
          (self-Stands s h, refl)
    | inr (e, at) ↦
        rw (at, seen k e at, with_reply, Memory.exists, Memory.get, read_spec)
          (if-Meets (λ o. done (has_value o)) (expired e now) _ _ _ _
            (λ _. (erase_entry-Stands s h k e at, refl))
            (λ _. (touch_locked-Stands s h k e at, refl)))
  ]

  pub del-Meets :
      (k : Bytes) → Meets (with_reply done (Memory.del k s)) (run_spec (del k) (abstract_of s))
  unfolding Memory.del run_spec
  del-Meets k = elim (Option-cases (find k s.m_data)) [
    | inl e ↦ rw (e, seen_absent k e, Memory.del, run_spec) (self-Stands s h, refl)
    | inr (e, at) ↦ rw (at, seen k e at, Memory.del, run_spec) (erase_entry-Stands s h k e at, refl)
  ]

  pub evicted-Stands :
      (now : ℤ)
      → Stands
          (evict_expired_locked now s)
          (record { entries = keep (alive now) (view s); max_keys = s.m_max_keys })
  unfolding evict_expired_locked
  evicted-Stands now = record {
    valid = evict_expired_locked-Linked now s h;
    entries = evict_expired_locked-view now s h;
    max_keys = refl;
  }

  pub size-Meets :
      (now : ℤ) → Meets (with_reply count (Memory.size now s)) (run_spec (size now) (abstract_of s))
  unfolding Memory.size run_spec evict_expired_locked
  size-Meets now = (
    evicted-Stands now,
    ap count (
        sym (length-view (evict_expired_locked-Linked now s h))
        ∙ ap length (evict_expired_locked-view now s h)),
  )
