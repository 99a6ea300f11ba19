-- ===== src/Server/Replicate/Kept.antt =====
-- What is sent to the followers changes neither the log nor the router.
use kv.Prelude.{
  ℕ, zero, suc, ◌≡◌, refl, ap, sym, subst, ◌∙◌, Bool, ◌&&◌, Option, none, some, List, [], ◌∷◌,
  Bytes, if◌then◌else◌, inl, inr, Bool-cases, Option-cases,
}
use kv.Prelude.Int.{ℤ, pos, leb_ℤ, ltb_ℤ}
use kv.Cluster.ConsistentHash.{ClusterNode}
use kv.Server.{KvServer}
use kv.Server.Store.{StoreMethods}
use kv.Server.Replicate.{
  Round, Attempt, goes_on, replicated, fails, batch_message, attempt, counted, replicate_to,
  replicate_all,
}
use kv.Server.Replicate.Quorum.{
  Attempt-cases, replicate_to_stop, replicate_to-goes_on, replicate_to-replicated,
  replicate_to-fails, replicate_all-cons, replicate_all-none,
}

-- The log and the router are the same.
abbrev pub Same : {S : Type 0} → KvServer S → KvServer S → Type 0
Same s s' = (s'.raft ≡ s.raft) × (s'.m_router ≡ s.m_router)

Same-trans : {S : Type 0} (s s' s'' : KvServer S) → Same s s' → Same s' s'' → Same s s''
Same-trans s s' s'' (p, q) (p', q') = (p' ∙ p, q' ∙ q)

counted-Same : {S : Type 0} (a : Attempt) (s : KvServer S) → Same s (counted a s).0
counted-Same (goes_on z) s = (refl, refl)
counted-Same replicated s = (refl, refl)
counted-Same fails s = (refl, refl)

module _ {S : Type 0} (methods : StoreMethods S) (forward : ℕ → ClusterNode → Bytes → Bytes) where
  attempt-Same :
      (round : Round) (follower : ClusterNode) (n : ℕ) (next_index : ℤ) (s : KvServer S)
      → Same s (attempt methods forward round follower n next_index s).0
  unfolding attempt
  attempt-Same round follower n next_index s =
      elim (Bool-cases (leb_ℤ next_index round.snapshot_index)) [
        | inl low ↦
            rw low (counted-Same _ (record s { m_store = (methods.snapshot_entries s.m_store).0 }))
        | inr high ↦ elim (Option-cases (batch_message round next_index s)) [
          | inl nothing ↦ rw (high, nothing) (refl, refl)
          | inr (message, sent) ↦ rw (high, sent) (counted-Same _ s)
        ]
      ]

  abbrev server_of : KvServer S → Option (KvServer S × ℕ × Bool) → KvServer S
  server_of s none = s
  server_of s (some (s', n, done)) = s'

  replicate_to-Same :
      (turns : ℕ) (round : Round) (follower : ClusterNode) (n : ℕ) (next_index : ℤ) (s : KvServer S)
      (s' : KvServer S) (n' : ℕ) (done : Bool)
      → replicate_to methods forward turns round follower n next_index s ≡ some (s', n', done)
      → Same s s'
  replicate_to-Same zero round follower n next_index s s' n' done h = unfold replicate_to in cc
  replicate_to-Same (suc turns) round follower n next_index s s' n' done h =
      elim (Bool-cases (leb_ℤ next_index round.entry.index && ltb_ℤ (pos 0) next_index)) [
        | inr out ↦
            subst (Same s)
              (ap (server_of s) (
                sym (replicate_to_stop methods forward turns round follower n next_index s out)
                ∙ h))
              (refl, refl)
        | inl going ↦
            elim (Attempt-cases (attempt methods forward round follower n next_index s).1) [
              | inl (next, a) ↦
                  Same-trans s (attempt methods forward round follower n next_index s).0 s'
                    (attempt-Same round follower n next_index s)
                    (replicate_to-Same turns round follower (suc n) next
                      (attempt methods forward round follower n next_index s).0 s' n' done
                      (sym (
                          replicate_to-goes_on methods forward turns round follower n next_index s
                            going next a)
                        ∙ h))
              | inr (inl a) ↦
                  subst (Same s)
                    (ap (server_of s) (
                      sym (
                        replicate_to-replicated methods forward turns round follower n next_index s
                          going a)
                      ∙ h))
                    (attempt-Same round follower n next_index s)
              | inr (inr a) ↦
                  subst (Same s)
                    (ap (server_of s) (
                      sym (
                        replicate_to-fails methods forward turns round follower n next_index s going
                          a)
                      ∙ h))
                    (attempt-Same round follower n next_index s)
            ]
      ]

  abbrev server_after : KvServer S → Option (KvServer S × ℕ × ℕ) → KvServer S
  server_after s none = s
  server_after s (some (s', n, acks)) = s'

  pub replicate_all-Same :
      (turns : ℕ) (round : Round) (fs : List ClusterNode) (n acks : ℕ) (s : KvServer S)
      (s' : KvServer S) (n' acks' : ℕ)
      → replicate_all methods forward turns round fs n acks s ≡ some (s', n', acks')
      → Same s s'
  unfolding replicate_all
  replicate_all-Same turns round [] n acks s s' n' acks' h =
      subst (Same s) (ap (server_after s) h) (refl, refl)
  replicate_all-Same turns round (f ∷ fs) n acks s s' n' acks' h =
      elim (Option-cases (replicate_to methods forward turns round f n round.entry.index s)) [
        | inl out ↦ cc (replicate_all-none methods forward turns round f fs n acks s out)
        | inr ((s1, n1, done), e) ↦
            Same-trans s s1 s' (replicate_to-Same turns round f n round.entry.index s s1 n1 done e)
              (replicate_all-Same turns round fs n1 (if done then suc acks else acks) s1 s' n' acks'
                (sym (replicate_all-cons methods forward turns round f fs n acks n1 s s1 done e)
                  ∙ h))
      ]
