-- ===== src/Server/Replicate/Quorum.antt =====
-- Who acknowledges an entry in the loops of `replicate_raft_write`.
use kv.Prelude.{
  ℕ, zero, suc, ◌+◌, ◌≡◌, ◌≢◌, refl, ap, sym, ◌∙◌, Bool, true, false, ◌&&◌, Option, none, some,
  List, [], ◌∷◌, Bytes, if◌then◌else◌, arith, ◌>>=◌, ◌⊎◌, inl, inr, Bool-cases, Option-cases,
}
use kv.Prelude.Int.{ℤ, ◌≤ℤ◌, pos, leb_ℤ, ltb_ℤ}
use kv.Cluster.ConsistentHash.{ClusterNode}
use kv.Server.{KvServer}
use kv.Server.Store.{StoreMethods}
use kv.Server.Codec.{encode_raft_snapshot, parse_raft_append_response}
use kv.Server.Replicate.{
  Round, Attempt, goes_on, replicated, fails, after_snapshot, after_batch, batch_message, attempt,
  counted, replicate_to, replicate_all,
}

counted_attempt : {S : Type 0} (a : Attempt) (s : KvServer S) → (counted a s).1 ≡ a
counted_attempt (goes_on z) s = refl
counted_attempt replicated s = refl
counted_attempt fails s = refl

after_snapshot-ne : (round : Round) (response : Bytes) → after_snapshot round response ≢ replicated
unfolding after_snapshot
after_snapshot-ne round response h = ground arith

pub Attempt-cases : (a : Attempt) → ((z : ℤ) × (a ≡ goes_on z)) ⊎ ((a ≡ replicated) ⊎ (a ≡ fails))
Attempt-cases (goes_on z) = inl (z, refl)
Attempt-cases replicated = inr (inl refl)
Attempt-cases fails = inr (inr refl)

after_batch-replicated :
    (round : Round) (next_index : ℤ) (response : Bytes)
    → after_batch round next_index response ≡ replicated
    → (term : ℤ) × (match_index : ℤ) × (parse_raft_append_response response
        ≡ some (term, true, match_index))
      × (term ≤ℤ round.entry.term)
      × (round.entry.index ≤ℤ match_index)
unfolding after_batch
after_batch-replicated round next_index response h =
    elim (Option-cases (parse_raft_append_response response)) [
      | inl nothing ↦ absurd (ground arith)
      | inr ((term, true, m), p) ↦ (term, m, p, ground arith, ground arith)
      | inr ((term, false, m), p) ↦ absurd (ground arith)
    ]

module _ {S : Type 0} (methods : StoreMethods S) (forward : ℕ → ClusterNode → Bytes → Bytes) where
  -- The turns of the loop over a follower that go on, from the number of a message, a next index and a
  -- state to others.
  pub data Turns (round : Round) (follower : ClusterNode)
      : ℕ → ℤ → KvServer S → ℕ → ℤ → KvServer S → Type 0 where
    here :
        (n : ℕ) (next_index : ℤ) (s : KvServer S)
        → Turns round follower n next_index s n next_index s
    turn :
        (n n' : ℕ) (next_index next next' : ℤ) (s s' : KvServer S)
        → (attempt methods forward round follower n next_index s).1 ≡ goes_on next
        → Turns round follower
            (suc n)
            next
            (attempt methods forward round follower n next_index s).0
            n'
            next'
            s'
        → Turns round follower n next_index s n' next' s'

  -- In the loop from a number, a next index and a state on, the follower has responded to a batch that
  -- was sent that it took it, in no greater term, and that its last index is that of the entry or more.
  pub record Acknowledges (round : Round) (follower : ClusterNode) (n : ℕ) (next_index : ℤ)
      (s : KvServer S) : Type 0 where
    pub number : ℕ
    pub sent_from : ℤ
    pub state : KvServer S
    pub message : Bytes
    pub response_term : ℤ
    pub match_index : ℤ
    pub turns : Turns round follower n next_index s number sent_from state
    pub sent : batch_message round sent_from state ≡ some message
    pub response :
        parse_raft_append_response (forward number follower message)
        ≡ some (response_term, true, match_index)
    pub term_known : response_term ≤ℤ round.entry.term
    pub entry_held : round.entry.index ≤ℤ match_index

  -- Of the followers, so many have acknowledged, each in the loop that the code runs over it.
  pub data Tally (turns : ℕ) (round : Round) : List ClusterNode → ℕ → KvServer S → ℕ → Type 0 where
    nobody : (n : ℕ) (s : KvServer S) → Tally turns round [] n s 0
    and_one :
        {f : ClusterNode} {fs : List ClusterNode} {n n' k : ℕ} {s s' : KvServer S}
        → replicate_to methods forward turns round f n round.entry.index s ≡ some (s', n', true)
        → Acknowledges round f n round.entry.index s
        → Tally turns round fs n' s' k
        → Tally turns round (f ∷ fs) n s (suc k)
    without :
        {f : ClusterNode} {fs : List ClusterNode} {n n' k : ℕ} {s s' : KvServer S}
        → replicate_to methods forward turns round f n round.entry.index s ≡ some (s', n', false)
        → Tally turns round fs n' s' k
        → Tally turns round (f ∷ fs) n s k

  -- What a turn ends with, by what was sent.
  pub attempt_snapshot :
      (round : Round) (follower : ClusterNode) (n : ℕ) (next_index : ℤ) (s : KvServer S)
      → leb_ℤ next_index round.snapshot_index ≡ true
      → (message : Bytes) × ((attempt methods forward round follower n next_index s).1
          ≡ after_snapshot round (forward n follower message))
  unfolding attempt
  attempt_snapshot round follower n next_index s low = (
    encode_raft_snapshot s.m_router.m_local_id round.entry.term s.raft
        (methods.snapshot_entries s.m_store).1,
    rw low (counted_attempt _ _),
  )

  pub attempt_batch :
      (round : Round) (follower : ClusterNode) (n : ℕ) (next_index : ℤ) (s : KvServer S)
      (message : Bytes)
      → leb_ℤ next_index round.snapshot_index ≡ false
      → batch_message round next_index s ≡ some message
      → (attempt methods forward round follower n next_index s).1
        ≡ after_batch round next_index (forward n follower message)
  unfolding attempt
  attempt_batch round follower n next_index s message high sent =
      rw (high, sent) (counted_attempt _ _)

  pub attempt_nothing :
      (round : Round) (follower : ClusterNode) (n : ℕ) (next_index : ℤ) (s : KvServer S)
      → leb_ℤ next_index round.snapshot_index ≡ false
      → batch_message round next_index s ≡ none
      → (attempt methods forward round follower n next_index s).1 ≡ fails
  unfolding attempt
  attempt_nothing round follower n next_index s high sent = rw (high, sent) refl

  attempt-Acknowledges :
      (round : Round) (follower : ClusterNode) (n : ℕ) (next_index : ℤ) (s : KvServer S)
      → (attempt methods forward round follower n next_index s).1 ≡ replicated
      → Acknowledges round follower n next_index s
  attempt-Acknowledges round follower n next_index s h =
      elim (Bool-cases (leb_ℤ next_index round.snapshot_index)) [
        | inl low ↦
            let (message, e) = attempt_snapshot round follower n next_index s low in
            absurd (after_snapshot-ne round (forward n follower message) (sym e ∙ h))
        | inr high ↦ elim (Option-cases (batch_message round next_index s)) [
          | inl none_sent ↦ cc (attempt_nothing round follower n next_index s high none_sent)
          | inr (message, sent) ↦
              let (term, match_index, response, known, held) =
                after_batch-replicated round next_index (forward n follower message)
                  (sym (attempt_batch round follower n next_index s message high sent) ∙ h) in
              record {
                number = n;
                sent_from = next_index;
                state = s;
                message = message;
                response_term = term;
                match_index = match_index;
                turns = here n next_index s;
                sent = sent;
                response = response;
                term_known = known;
                entry_held = held;
              }
        ]
      ]

  -- A turn of the loop, by its test and by what the attempt ends with.
  module _ (turns : ℕ) (round : Round) (follower : ClusterNode) (n : ℕ) (next_index : ℤ)
      (s : KvServer S) where
    pub replicate_to_stop :
        (leb_ℤ next_index round.entry.index && ltb_ℤ (pos 0) next_index) ≡ false
        → replicate_to methods forward (suc turns) round follower n next_index s
          ≡ some (s, n, false)
    unfolding replicate_to
    replicate_to_stop out = rw (replicate_to, out) refl

    module _ (going : (leb_ℤ next_index round.entry.index && ltb_ℤ (pos 0) next_index) ≡ true) where
      pub replicate_to-goes_on :
          (next : ℤ)
          → (attempt methods forward round follower n next_index s).1 ≡ goes_on next
          → replicate_to methods forward (suc turns) round follower n next_index s
            ≡ replicate_to methods forward turns round follower
                (suc n)
                next
                (attempt methods forward round follower n next_index s).0
      unfolding replicate_to
      replicate_to-goes_on next a = rw (replicate_to, going, a) refl

      pub replicate_to-replicated :
          (attempt methods forward round follower n next_index s).1 ≡ replicated
          → replicate_to methods forward (suc turns) round follower n next_index s
            ≡ some ((attempt methods forward round follower n next_index s).0, suc n, true)
      unfolding replicate_to
      replicate_to-replicated a = rw (replicate_to, going, a) refl

      pub replicate_to-fails :
          (attempt methods forward round follower n next_index s).1 ≡ fails
          → replicate_to methods forward (suc turns) round follower n next_index s
            ≡ some ((attempt methods forward round follower n next_index s).0, suc n, false)
      unfolding replicate_to
      replicate_to-fails a = rw (replicate_to, going, a) refl

  abbrev done_flag : Option (KvServer S × ℕ × Bool) → Bool
  done_flag none = false
  done_flag (some (s, n, done)) = done

  replicate_to-Acknowledges :
      (turns : ℕ) (round : Round) (follower : ClusterNode) (n : ℕ) (next_index : ℤ) (s : KvServer S)
      → done_flag (replicate_to methods forward turns round follower n next_index s) ≡ true
      → Acknowledges round follower n next_index s
  replicate_to-Acknowledges zero round follower n next_index s h = unfold replicate_to in cc
  replicate_to-Acknowledges (suc turns) round follower n next_index s h =
      elim (Bool-cases (leb_ℤ next_index round.entry.index && ltb_ℤ (pos 0) next_index)) [
        | inr out ↦ cc (ap done_flag (replicate_to_stop turns round follower n next_index s out))
        | inl going ↦
            elim (Attempt-cases (attempt methods forward round follower n next_index s).1) [
              | inl (next, a) ↦
                  let later =
                    replicate_to-Acknowledges turns round follower (suc n) next
                      (attempt methods forward round follower n next_index s).0
                      (sym (
                          ap done_flag
                            (replicate_to-goes_on turns round follower n next_index s going next a))
                        ∙ h) in
                  record {
                    number = later.number;
                    sent_from = later.sent_from;
                    state = later.state;
                    message = later.message;
                    response_term = later.response_term;
                    match_index = later.match_index;
                    turns =
                        turn n later.number next_index next later.sent_from s later.state a
                          later.turns;
                    sent = later.sent;
                    response = later.response;
                    term_known = later.term_known;
                    entry_held = later.entry_held;
                  }
              | inr (inl a) ↦ attempt-Acknowledges round follower n next_index s a
              | inr (inr a) ↦
                  cc (ap done_flag (replicate_to-fails turns round follower n next_index s going a))
            ]
      ]

  pub replicate_all-cons :
      (turns : ℕ) (round : Round) (f : ClusterNode) (fs : List ClusterNode) (n acks n' : ℕ)
      (s s' : KvServer S) (done : Bool)
      → replicate_to methods forward turns round f n round.entry.index s ≡ some (s', n', done)
      → replicate_all methods forward turns round (f ∷ fs) n acks s
        ≡ replicate_all methods forward turns round fs n' (if done then suc acks else acks) s'
  unfolding replicate_all
  replicate_all-cons turns round f fs n acks n' s s' done e = rw (replicate_all, ◌>>=◌, e) refl

  pub replicate_all-none :
      (turns : ℕ) (round : Round) (f : ClusterNode) (fs : List ClusterNode) (n acks : ℕ)
      (s : KvServer S)
      → replicate_to methods forward turns round f n round.entry.index s ≡ none
      → replicate_all methods forward turns round (f ∷ fs) n acks s ≡ none
  unfolding replicate_all
  replicate_all-none turns round f fs n acks s e = rw (replicate_all, ◌>>=◌, e) refl

  pub replicate_all-Tally :
      (turns : ℕ) (round : Round) (fs : List ClusterNode) (n acks : ℕ) (s : KvServer S)
      (s' : KvServer S) (n' acks' : ℕ)
      → replicate_all methods forward turns round fs n acks s ≡ some (s', n', acks')
      → (k : ℕ) × Tally turns round fs n s k × (acks' ≡ acks + k)
  replicate_all-Tally turns round [] n acks s s' n' acks' h =
      (0, nobody n s, unfold replicate_all in ground arith)
  replicate_all-Tally turns round (f ∷ fs) n acks s s' n' acks' h =
      elim (Option-cases (replicate_to methods forward turns round f n round.entry.index s)) [
        | inl out ↦ cc (replicate_all-none turns round f fs n acks s out)
        | inr ((s1, n1, true), e) ↦
            let (k, tally, sum) =
              replicate_all-Tally turns round fs n1 (suc acks) s1 s' n' acks'
                (sym (replicate_all-cons turns round f fs n acks n1 s s1 true e) ∙ h) in
            (
              suc k,
              and_one e
                  (replicate_to-Acknowledges turns round f n round.entry.index s (ap done_flag e))
                  tally,
              omega (arith, sum),
            )
        | inr ((s1, n1, false), e) ↦
            let (k, tally, sum) =
              replicate_all-Tally turns round fs n1 acks s1 s' n' acks'
                (sym (replicate_all-cons turns round f fs n acks n1 s s1 false e) ∙ h) in
            (k, without e tally, sum)
      ]
