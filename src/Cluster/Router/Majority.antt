-- ===== src/Cluster/Router/Majority.antt =====
-- What it takes to be elected.
use kv.Prelude.{
  ◌*◌, ◌<◌, length, subst, ℕ, suc, ◌+◌, ◌≤◌, ◌≡◌, ◌≢◌, refl, Bool, true, false, ◌&&◌, none, some,
  List, [], ◌∷◌, Bytes, if◌then◌else◌, arith, ◌∙◌, ap, sym, inl, inr, Bool-cases, Option-cases, leb,
  leb→le,
}
use kv.Prelude.Int.{ℤ, ltb_ℤ, eqb_ℤ}
use kv.Cluster.ConsistentHash.{ClusterNode}
use kv.Cluster.Router.{
  ClusterRouter, Moment, majority_size, raft_enabled, candidate, leader, is_candidate_role,
  persist_raft_meta_locked,
}
use kv.Cluster.Router.Election.{
  parse_vote_response, count_response, collect_votes, step_down, win, begin_election,
  start_election, peers_to_ask, vote_request, goes_on, stepped_down, won, Progress,
}

-- The size that the code compares with is a majority of all nodes.
pub more_than_half :
    (r : ClusterRouter) (k : ℕ)
    → raft_enabled r ≡ true
    → majority_size r ≤ k
    → length r.m_all_nodes < 2 * k
unfolding majority_size
more_than_half r k on = rw on (λ h. omega (arith, h))

pub half_at_most :
    (r : ClusterRouter) (k : ℕ)
    → raft_enabled r ≡ true
    → k < majority_size r
    → 2 * k ≤ length r.m_all_nodes
unfolding majority_size
half_at_most r k on = rw on (λ h. omega (arith, h))

pub majority_size-le :
    (r : ClusterRouter) (k : ℕ)
    → raft_enabled r ≡ true
    → length r.m_all_nodes < 2 * k
    → majority_size r ≤ k
unfolding majority_size
majority_size-le r k on h = rw on (omega (arith, h))

module _ (forward : ClusterNode → Bytes → Bytes) (request : Bytes) (term : ℤ) where
  -- The votes that the peers grant.
  abbrev pub granted_by : List ClusterNode → ℕ
  granted_by [] = 0
  granted_by (n ∷ ns) =
      let rest = granted_by ns in
      elim (parse_vote_response (forward n request)) [
        | none ↦ rest
        | some (_, g) ↦ if g then suc rest else rest
      ]

  -- No peer knows of a greater term.
  abbrev pub NoneGreater : List ClusterNode → Type 0
  NoneGreater [] = Unit
  NoneGreater (n ∷ ns) =
      ((t : ℤ) (g : Bool)
        → parse_vote_response (forward n request) ≡ some (t, g)
        → ltb_ℤ term t ≡ false)
      × NoneGreater ns

  module _ (hasher : Bytes → ℕ) (m : Moment) (r : ClusterRouter) where
    -- The votes after the response of a peer, if it knows of no greater term.
    abbrev counted : ClusterNode → ℕ → ℕ
    counted n votes = elim (parse_vote_response (forward n request)) [
      | none ↦ votes
      | some (_, g) ↦ if g then suc votes else votes
    ]

    count_response-counted :
        (n : ClusterNode) (votes : ℕ)
        → ((t : ℤ) (g : Bool)
            → parse_vote_response (forward n request) ≡ some (t, g)
            → ltb_ℤ term t ≡ false)
        → count_response hasher m term votes (forward n request) r ≡ (
            if leb (majority_size r) (counted n votes)
            then (win hasher m term r, won)
            else (r, goes_on (counted n votes)))
    unfolding count_response
    count_response-counted n votes none_greater =
        elim (Option-cases (parse_vote_response (forward n request))) [
          | inl e ↦ rw (e, count_response, counted) refl
          | inr ((t, g), e) ↦ rw (e, none_greater t g e, count_response, counted) refl
        ]

    greater-count_response :
        (n : ClusterNode) (votes : ℕ) (t : ℤ) (g : Bool)
        → parse_vote_response (forward n request) ≡ some (t, g)
        → ltb_ℤ term t ≡ true
        → count_response hasher m term votes (forward n request) r
          ≡ (step_down hasher m t r, stepped_down)
    unfolding count_response
    greater-count_response n votes t g e e' = rw (e, e', count_response) refl

    granted_by-step :
        (n : ClusterNode) (ns : List ClusterNode) (votes : ℕ)
        → counted n votes + granted_by ns ≡ votes + granted_by (n ∷ ns)
    granted_by-step n ns votes = elim (Option-cases (parse_vote_response (forward n request))) [
      | inl e ↦ ground arith
      | inr ((t, g), e) ↦ ground arith
    ]

    -- The rest of the loop after a turn.
    abbrev continue : List ClusterNode → ClusterRouter × Progress → ClusterRouter × Bool
    continue ns (q, goes_on votes) = collect_votes hasher m forward request term votes ns q
    continue ns (q, stepped_down) = (q, false)
    continue ns (q, won) = (q, true)

    abbrev if_won : Bool → ℕ → ClusterRouter × Progress
    if_won b votes = if b then (win hasher m term r, won) else (r, goes_on votes)

    collect_votes-continue :
        (n : ClusterNode) (ns : List ClusterNode) (votes : ℕ) (p : ClusterRouter × Progress)
        → count_response hasher m term votes (forward n request) r ≡ p
        → collect_votes hasher m forward request term votes (n ∷ ns) r ≡ continue ns p
    unfolding collect_votes
    collect_votes-continue n ns votes p e =
        go (count_response hasher m term votes (forward n request) r) refl ∙ ap (continue ns) e
      where
        go :
            (q : ClusterRouter × Progress)
            → count_response hasher m term votes (forward n request) r ≡ q
            → collect_votes hasher m forward request term votes (n ∷ ns) r
              ≡ continue ns (count_response hasher m term votes (forward n request) r)
        go q e = refl

    collect_votes-won :
        (n : ClusterNode) (ns : List ClusterNode) (votes : ℕ)
        → ((t : ℤ) (g : Bool)
            → parse_vote_response (forward n request) ≡ some (t, g)
            → ltb_ℤ term t ≡ false)
        → leb (majority_size r) (counted n votes) ≡ true
        → collect_votes hasher m forward request term votes (n ∷ ns) r ≡ (win hasher m term r, true)
    collect_votes-won n ns votes none_greater e =
        collect_votes-continue n ns votes _
          (count_response-counted n votes none_greater ∙ ap (λ b. if_won b (counted n votes)) e)

    collect_votes-goes_on :
        (n : ClusterNode) (ns : List ClusterNode) (votes : ℕ)
        → ((t : ℤ) (g : Bool)
            → parse_vote_response (forward n request) ≡ some (t, g)
            → ltb_ℤ term t ≡ false)
        → leb (majority_size r) (counted n votes) ≡ false
        → collect_votes hasher m forward request term votes (n ∷ ns) r
          ≡ collect_votes hasher m forward request term (counted n votes) ns r
    collect_votes-goes_on n ns votes none_greater e =
        collect_votes-continue n ns votes _
          (count_response-counted n votes none_greater ∙ ap (λ b. if_won b (counted n votes)) e)

    collect_votes-stepped_down :
        (n : ClusterNode) (ns : List ClusterNode) (votes : ℕ) (t : ℤ) (g : Bool)
        → parse_vote_response (forward n request) ≡ some (t, g)
        → ltb_ℤ term t ≡ true
        → collect_votes hasher m forward request term votes (n ∷ ns) r
          ≡ (step_down hasher m t r, false)
    collect_votes-stepped_down n ns votes t g e e' =
        collect_votes-continue n ns votes _ (greater-count_response n votes t g e e')

    majority-step :
        (n : ClusterNode) (ns : List ClusterNode) (votes : ℕ)
        → ((v : ℕ)
            → (collect_votes hasher m forward request term v ns r).1 ≡ true
            → majority_size r ≤ v + granted_by ns)
        → (collect_votes hasher m forward request term votes (n ∷ ns) r).1 ≡ true
        → ((t : ℤ) (g : Bool)
            → parse_vote_response (forward n request) ≡ some (t, g)
            → ltb_ℤ term t ≡ false)
        → majority_size r ≤ votes + granted_by (n ∷ ns)
    majority-step n ns votes ih h none_greater =
        elim (Bool-cases (leb (majority_size r) (counted n votes))) [
          | inl e ↦
              ground
                (arith, granted_by-step n ns votes, leb→le (majority_size r) (counted n votes) e)
          | inr e ↦
              let rest =
                ih (counted n votes)
                  (ap (λ p. p.1) (sym (collect_votes-goes_on n ns votes none_greater e)) ∙ h) in
              ground (arith, granted_by-step n ns votes, rest)
        ]

    -- A node is elected only by a majority of all nodes, its own vote included.
    pub collect_votes-majority :
        (ns : List ClusterNode) (votes : ℕ)
        → (collect_votes hasher m forward request term votes ns r).1 ≡ true
        → majority_size r ≤ votes + granted_by ns
    collect_votes-majority [] votes h = unfold collect_votes in cc
    collect_votes-majority (n ∷ ns) votes h =
        elim (Option-cases (parse_vote_response (forward n request))) [
          | inl e ↦
              majority-step n ns votes (collect_votes-majority ns) h
                (λ t g e'. absurd (none_some (sym e ∙ e')))
          | inr ((t, g), e) ↦ elim (Bool-cases (ltb_ℤ term t)) [
            | inl more ↦ absurd (
                no_false
                  (ap (λ p. p.1) (sym (collect_votes-stepped_down n ns votes t g e more)) ∙ h))
            | inr no_more ↦
                majority-step n ns votes (collect_votes-majority ns) h (λ t' g' e'. ground arith)
          ]
        ]
      where
        no_false : false ≢ true
        no_false p = cc

        none_some : {p : ℤ × Bool} → none ≢ some p
        none_some p = cc

    -- With no greater term among the peers, a majority is enough, if there is a peer to ask.
    pub collect_votes-elected :
        (n : ClusterNode) (ns : List ClusterNode) (votes : ℕ)
        → NoneGreater (n ∷ ns)
        → majority_size r ≤ votes + granted_by (n ∷ ns)
        → collect_votes hasher m forward request term votes (n ∷ ns) r ≡ (win hasher m term r, true)
    collect_votes-elected n [] votes (none_greater, _) enough =
        collect_votes-won n [] votes none_greater (ground (arith, granted_by-step n [] votes))
    collect_votes-elected n (n' ∷ ns) votes (none_greater, rest) enough =
        elim (Bool-cases (leb (majority_size r) (counted n votes))) [
          | inl e ↦ collect_votes-won n (n' ∷ ns) votes none_greater e
          | inr e ↦
              collect_votes-goes_on n (n' ∷ ns) votes none_greater e
              ∙ collect_votes-elected n' ns (counted n votes) rest
                  (omega (arith, enough, granted_by-step n (n' ∷ ns) votes))
        ]

module _ (hasher : Bytes → ℕ) (m : Moment) (forward : ClusterNode → Bytes → Bytes)
    (r : ClusterRouter) where
  abbrev pub begun : ClusterRouter
  begun = begin_election hasher m r

  abbrev pub asked : Bytes
  asked = vote_request hasher begun.m_current_term begun

  abbrev pub counting : ClusterRouter × Bool
  counting =
      collect_votes hasher m forward asked begun.m_current_term 1 (peers_to_ask hasher begun) begun

  begun-candidate : begun.m_role ≡ candidate
  unfolding begin_election persist_raft_meta_locked
  begun-candidate = ground arith

  begun-peers : peers_to_ask hasher begun ≡ peers_to_ask hasher r
  unfolding begin_election persist_raft_meta_locked
  begun-peers = ground arith

  begun-enabled : raft_enabled begun ≡ raft_enabled r
  unfolding begin_election persist_raft_meta_locked
  begun-enabled = ground arith

  begun-nodes : begun.m_all_nodes ≡ r.m_all_nodes
  unfolding begin_election persist_raft_meta_locked
  begun-nodes = ground arith

  -- In a Raft cluster, an election is won only if the node's own vote and the votes that the peers
  -- grant are more than half of all nodes.
  pub election-majority :
      raft_enabled r ≡ true
      → counting.1 ≡ true
      → length r.m_all_nodes
        < 2 * (1 + granted_by forward asked begun.m_current_term (peers_to_ask hasher begun))
  election-majority on h =
      subst (λ l. length l < 2 * (1 + votes)) begun-nodes
        (more_than_half begun (1 + votes) (begun-enabled ∙ on) (
          collect_votes-majority forward asked begun.m_current_term hasher m begun
            (peers_to_ask hasher begun) 1 h))
    where
      votes : ℕ
      votes = granted_by forward asked begun.m_current_term (peers_to_ask hasher begun)

  win-leader : (win hasher m begun.m_current_term begun).m_role ≡ leader
  unfolding win
  win-leader = rw (begun-candidate, win, eqb-self begun.m_current_term) refl
    where
      eqb-self : (z : ℤ) → eqb_ℤ z z ≡ true
      eqb-self z = ground arith

  win-term : (win hasher m begun.m_current_term begun).m_current_term ≡ begun.m_current_term
  unfolding win
  win-term =
      kept (is_candidate_role begun.m_role && eqb_ℤ begun.m_current_term begun.m_current_term)
    where
      kept :
          (b : Bool)
          → (if b
              then record begun {
                m_role = leader;
                m_leader_id = begun.m_local_id;
                m_last_heartbeat = m.now;
              }
              else begun).m_current_term
            ≡ begun.m_current_term
      kept true = refl
      kept false = refl

  -- In a Raft cluster, a node that has a peer to ask, and whose peers know of no greater term, is the
  -- leader of the new term before its first heartbeats if its own vote and the votes that the peers
  -- grant are more than half of all nodes; no other critical section of the node runs between the
  -- start of the election and its last vote.
  pub election-leader :
      (n : ClusterNode) (ns : List ClusterNode)
      → raft_enabled r ≡ true
      → peers_to_ask hasher r ≡ n ∷ ns
      → NoneGreater forward asked begun.m_current_term (n ∷ ns)
      → length r.m_all_nodes < 2 * (1 + granted_by forward asked begun.m_current_term (n ∷ ns))
      → (counting.1 ≡ true)
        × (counting.0.m_role ≡ leader)
        × (counting.0.m_current_term ≡ begun.m_current_term)
  election-leader n ns on peers none_greater enough =
      let won_by =
        ap (λ l. collect_votes hasher m forward asked begun.m_current_term 1 l begun)
          (begun-peers ∙ peers)
        ∙ collect_votes-elected forward asked begun.m_current_term hasher m begun n ns 1
            none_greater
            (majority_size-le begun _ (begun-enabled ∙ on) (
              subst
                (λ l. length l < 2 * (1 + granted_by forward asked begun.m_current_term (n ∷ ns)))
                (sym begun-nodes) enough)) in
      (
        ap (λ p. p.1) won_by,
        ap (λ p. p.0.m_role) won_by ∙ win-leader,
        ap (λ p. p.0.m_current_term) won_by ∙ win-term,
      )

  -- A node with no peer to ask is not elected, even where its own vote is a majority: the votes are
  -- compared with the majority only after a response. A node that listens on the same port as this
  -- one is taken for this one, and is never asked.
  pub start_election-alone :
      peers_to_ask hasher r ≡ [] → (start_election hasher m forward r).m_role ≡ candidate
  unfolding start_election collect_votes
  start_election-alone alone =
      rw (begun-peers, alone, start_election, collect_votes) begun-candidate
