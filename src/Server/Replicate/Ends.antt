-- ===== src/Server/Replicate/Ends.antt =====
-- The turns of the loop over one follower in `replicate_raft_write`.
use kv.Prelude.{
  ℕ, zero, suc, ◌+◌, ◌-◌, ◌<◌, ◌≡◌, ◌≢◌, ap, ap₂, sym, subst, ◌∙◌, Bool, true, false, ◌&&◌, some,
  Bytes, arith, ◌⊎◌, inl, inr, Bool-cases, Option-cases,
}
use kv.Prelude.Int.{ℤ, pos, negsuc, ◌+ℤ◌, ◌-ℤ◌, ◌≤ℤ◌, leb_ℤ, ltb_ℤ, pos-add}
use kv.Cluster.ConsistentHash.{ClusterNode}
use kv.Server.{KvServer}
use kv.Server.Store.{StoreMethods}
use kv.Server.Codec.{parse_raft_append_response}
use kv.Server.Replicate.{
  Round, goes_on, after_batch, after_snapshot, batch_message, attempt, replicate_to,
}
use kv.Server.Replicate.Quorum.{
  Turns, here, turn, Attempt-cases, attempt_batch, attempt_nothing, attempt_snapshot,
  replicate_to_stop, replicate_to-goes_on, replicate_to-replicated, replicate_to-fails,
}

above : (b : ℕ) (z : ℤ) → pos b ≤ℤ z → (j : ℕ) × (z ≡ pos (b + j))
above b (pos n) h = (n - b, ap pos (omega arith))
above b (negsuc n) h = absurd (omega arith)

minus_one : (n : ℕ) → pos (suc n) -ℤ pos 1 ≡ pos n
unfolding ◌-ℤ◌
minus_one n = ground arith

not_above : (b : ℕ) (m : ℤ) → leb_ℤ (pos b) m ≡ false → leb_ℤ (m +ℤ pos 1) (pos b) ≡ true
unfolding ◌+ℤ◌
not_above b (pos n) h = ap (λ z. leb_ℤ z (pos b)) (pos-add n 1) ∙ ground arith
not_above b (negsuc n) h = ground arith

after_snapshot-goes_on :
    (round : Round) (response : Bytes) (z : ℤ)
    → after_snapshot round response ≡ goes_on z
    → z ≡ round.snapshot_index +ℤ pos 1
unfolding after_snapshot
after_snapshot-goes_on round response z h = ground arith

-- A batch leads to another turn only if it was refused, with an index below the one before it.
after_batch-goes_on :
    (round : Round) (next_index : ℤ) (response : Bytes) (z : ℤ)
    → ((term m : ℤ)
        → parse_raft_append_response response ≡ some (term, true, m)
        → round.entry.index ≤ℤ m)
    → after_batch round next_index response ≡ goes_on z
    → (term : ℤ) × (m : ℤ) × (parse_raft_append_response response ≡ some (term, false, m))
      × (ltb_ℤ m (next_index -ℤ pos 1) ≡ true)
      × (z ≡ m +ℤ pos 1)
unfolding after_batch
after_batch-goes_on round next_index response z taken h =
    elim (Option-cases (parse_raft_append_response response)) [
      | inl nothing ↦ absurd (ground arith)
      | inr ((term, true, m), p) ↦ absurd (ground (arith, taken term m p))
      | inr ((term, false, m), p) ↦ (term, m, p, ground arith, ground arith)
    ]

module _ {S : Type 0} (methods : StoreMethods S) (forward : ℕ → ClusterNode → Bytes → Bytes)
    (round : Round) (follower : ClusterNode) where
  -- What the follower responds in the loop from a number, a next index and a state on: if it took a
  -- batch, its last index is that of the new entry or more; and if it refuses the batch that comes right
  -- after a snapshot that it accepted, its index is not below that of the snapshot.
  pub record Answers (n : ℕ) (next_index : ℤ) (s : KvServer S) : Type 0 where
    pub taken :
        (n' : ℕ) (z : ℤ) (s' : KvServer S) (message : Bytes) (term match_index : ℤ)
        → Turns methods forward round follower n next_index s n' z s'
        → batch_message round z s' ≡ some message
        → parse_raft_append_response (forward n' follower message) ≡ some (term, true, match_index)
        → round.entry.index ≤ℤ match_index
    pub refused :
        (n' : ℕ) (z : ℤ) (s' : KvServer S) (message : Bytes) (term match_index : ℤ)
        → Turns methods forward round follower n next_index s n' z s'
        → leb_ℤ z round.snapshot_index ≡ true
        → (attempt methods forward round follower n' z s').1
          ≡ goes_on (round.snapshot_index +ℤ pos 1)
        → batch_message round
            (round.snapshot_index +ℤ pos 1)
            (attempt methods forward round follower n' z s').0
          ≡ some message
        → parse_raft_append_response (forward (suc n') follower message)
          ≡ some (term, false, match_index)
        → round.snapshot_index ≤ℤ match_index

  Answers-turn :
      {n : ℕ} {next_index z : ℤ} {s : KvServer S}
      → Answers n next_index s
      → (attempt methods forward round follower n next_index s).1 ≡ goes_on z
      → Answers (suc n) z (attempt methods forward round follower n next_index s).0
  Answers-turn {n} {next_index} {z} {s} h a = record {
    taken = λ n' z' s' message term m turns.
        h.taken n' z' s' message term m (turn n n' next_index z z' s s' a turns);
    refused = λ n' z' s' message term m turns.
        h.refused n' z' s' message term m (turn n n' next_index z z' s s' a turns);
  }

  -- The loop ends if it ends after the turn that comes next.
  turn_ends :
      (turns n : ℕ) (next_index : ℤ) (s : KvServer S)
      → ((z : ℤ)
          → (attempt methods forward round follower n next_index s).1 ≡ goes_on z
          → (result : KvServer S × ℕ × Bool) × (replicate_to methods forward turns round follower
                (suc n)
                z
                (attempt methods forward round follower n next_index s).0
              ≡ some result))
      → (result : KvServer S × ℕ × Bool) × (replicate_to methods forward
            (suc turns)
            round
            follower
            n
            next_index
            s
          ≡ some result)
  turn_ends turns n next_index s later =
      elim (Bool-cases (leb_ℤ next_index round.entry.index && ltb_ℤ (pos 0) next_index)) [
        | inr out ↦ (_, replicate_to_stop methods forward turns round follower n next_index s out)
        | inl going ↦
            elim (Attempt-cases (attempt methods forward round follower n next_index s).1) [
              | inr (inl a) ↦ (
                _,
                replicate_to-replicated methods forward turns round follower n next_index s going a,
              )
              | inr (inr a) ↦ (
                _,
                replicate_to-fails methods forward turns round follower n next_index s going a,
              )
              | inl (z, a) ↦
                  let (result, e) = later z a in
                  (
                    result,
                    replicate_to-goes_on methods forward turns round follower n next_index s going z
                          a
                        ∙ e,
                  )
            ]
      ]

  -- A batch that leads to another turn was refused.
  attempt-refused :
      (n : ℕ) (next_index : ℤ) (s : KvServer S) (z : ℤ)
      → leb_ℤ next_index round.snapshot_index ≡ false
      → Answers n next_index s
      → (attempt methods forward round follower n next_index s).1 ≡ goes_on z
      → (message : Bytes) × (term : ℤ) × (m : ℤ) × (batch_message round next_index s ≡ some message)
        × (parse_raft_append_response (forward n follower message) ≡ some (term, false, m))
        × (ltb_ℤ m (next_index -ℤ pos 1) ≡ true)
        × (z ≡ m +ℤ pos 1)
  attempt-refused n next_index s z high h a =
      elim (Option-cases (batch_message round next_index s)) [
        | inl nothing ↦
            cc (attempt_nothing methods forward round follower n next_index s high nothing)
        | inr (message, sent) ↦
            let (term, m, refusal, less, at) =
              after_batch-goes_on round next_index (forward n follower message) z
                (λ term m p. h.taken n next_index s message term m (here n next_index s) sent p)
                (sym (attempt_batch methods forward round follower n next_index s message high sent)
                  ∙ a) in
            (message, term, m, sent, refusal, less, at)
      ]

  module _ (b : ℕ) (base : round.snapshot_index ≡ pos b) where
    -- After the batch that comes right after an accepted snapshot, the loop does not go on.
    first_batch-ends :
        (n : ℕ) (z : ℤ) (s : KvServer S)
        → leb_ℤ z round.snapshot_index ≡ true
        → Answers n z s
        → (attempt methods forward round follower n z s).1 ≡ goes_on (round.snapshot_index +ℤ pos 1)
        → (z' : ℤ)
        → (attempt methods forward round follower
            (suc n)
            (round.snapshot_index +ℤ pos 1)
            (attempt methods forward round follower n z s).0).1
          ≢ goes_on z'
    first_batch-ends n z s low h a z' a' =
        let (message, term, m, sent, refusal, less, _) =
          attempt-refused (suc n) (round.snapshot_index +ℤ pos 1)
            (attempt methods forward round follower n z s).0 z' high (Answers-turn h a) a' in
        let held : pos b ≤ℤ m =
          subst (λ i. i ≤ℤ m) base
            (h.refused n z s message term m (here n z s) low a sent refusal) in
        let behind : ltb_ℤ m (pos b) ≡ true = ap (ltb_ℤ m) (sym before) ∙ less in ground arith
      where
        next : round.snapshot_index +ℤ pos 1 ≡ pos (suc b)
        next = ap (λ i. i +ℤ pos 1) base ∙ pos-add b 1 ∙ ap pos (omega arith)

        high : leb_ℤ (round.snapshot_index +ℤ pos 1) round.snapshot_index ≡ false
        high = ap₂ leb_ℤ next base ∙ ground arith

        before : (round.snapshot_index +ℤ pos 1) -ℤ pos 1 ≡ pos b
        before = ap (λ i. i -ℤ pos 1) next ∙ minus_one b

    -- Where the next index is not above the snapshot, the snapshot is sent, and then one batch.
    snapshot_ends :
        (turns n : ℕ) (next_index : ℤ) (s : KvServer S)
        → leb_ℤ next_index round.snapshot_index ≡ true
        → Answers n next_index s
        → 1 < turns
        → (result : KvServer S × ℕ × Bool) × (replicate_to methods forward turns round follower n
              next_index s
            ≡ some result)
    snapshot_ends zero n next_index s low h enough = absurd (omega arith)
    snapshot_ends (suc zero) n next_index s low h enough = absurd (omega arith)
    snapshot_ends (suc (suc turns)) n next_index s low h enough =
        turn_ends (suc turns) n next_index s (λ z a.
          turn_ends turns (suc n) z (attempt methods forward round follower n next_index s).0
            (λ z' a'.
              let (snapshot, sent) =
                attempt_snapshot methods forward round follower n next_index s low in
              let at =
                after_snapshot-goes_on round (forward n follower snapshot) z (sym sent ∙ a) in
              absurd (
                first_batch-ends n next_index s low h (a ∙ ap goes_on at) z' (
                  ap
                    (λ z.
                      (attempt methods forward round follower (suc n) z
                        (attempt methods forward round follower n next_index s).0).1)
                    (sym at)
                  ∙ a'))))

    -- The next index goes down, or it is no longer above the snapshot.
    goes_down :
        (k : ℕ) (m : ℤ)
        → ltb_ℤ m (pos (b + suc k) -ℤ pos 1) ≡ true
        → ((j : ℕ) × (m +ℤ pos 1 ≡ pos (b + suc j)) × (j < k))
          ⊎ (leb_ℤ (m +ℤ pos 1) round.snapshot_index ≡ true)
    goes_down k m less = elim (Bool-cases (leb_ℤ (pos b) m)) [
      | inr under ↦ inr (ap (leb_ℤ (m +ℤ pos 1)) base ∙ not_above b m under)
      | inl over ↦
          let (j, at) = above b m (ground arith) in
          inl (
            j,
            ap (λ z. z +ℤ pos 1) at ∙ pos-add (b + j) 1 ∙ ap pos (omega arith),
            below j (sym (ap₂ ltb_ℤ at before) ∙ less),
          )
    ]
      where
        before : pos (b + suc k) -ℤ pos 1 ≡ pos (b + k)
        before = ap (λ n. pos n -ℤ pos 1) (omega arith) ∙ minus_one (b + k)

        below : (j : ℕ) → ltb_ℤ (pos (b + j)) (pos (b + k)) ≡ true → j < k
        below j h = ground arith

    -- The loop over a follower comes to an end, whether or not the follower's log has come up to the
    -- leader's snapshot: the turns needed are at most two more than the indices after the snapshot up to
    -- the next one to send. In the messages of the loop, a follower that takes a batch has the new entry,
    -- and one that refuses the batch right after a snapshot that it accepted has an index not below the
    -- snapshot's.
    pub replicate_to_ends :
        (turns k n : ℕ) (s : KvServer S)
        → Answers n (pos (b + suc k)) s
        → k + 2 < turns
        → (result : KvServer S × ℕ × Bool) × (replicate_to methods forward turns round follower n
              (pos (b + suc k))
              s
            ≡ some result)
    replicate_to_ends zero k n s h enough = absurd (omega arith)
    replicate_to_ends (suc turns) k n s h enough = turn_ends turns n (pos (b + suc k)) s (λ z a.
        let (message, term, m, sent, refusal, less, at) =
          attempt-refused n (pos (b + suc k)) s z high h a in
        elim (goes_down k m less) [
          | inl (j, at', down) ↦
              let (result, e) =
                replicate_to_ends turns j (suc n) s'
                  (subst (λ z. Answers (suc n) z s') (at ∙ at') (Answers-turn h a)) (omega arith) in
              (
                result,
                ap (λ z. replicate_to methods forward turns round follower (suc n) z s') (at ∙ at')
                    ∙ e,
              )
          | inr low ↦
              snapshot_ends turns (suc n) z s' (ap (λ z. leb_ℤ z round.snapshot_index) at ∙ low)
                (Answers-turn h a) (omega arith)
        ])
      where
        s' : KvServer S
        s' = (attempt methods forward round follower n (pos (b + suc k)) s).0

        high : leb_ℤ (pos (b + suc k)) round.snapshot_index ≡ false
        high = ap (leb_ℤ (pos (b + suc k))) base ∙ ground arith
