-- ===== src/Cluster/Router/Votes.antt =====
-- A node gives at most one vote in a term, through elections, heartbeats and restarts.
use kv.Prelude.{
  ℕ, suc, ◌≡◌, refl, Bool, true, false, ◌&&◌, ◌||◌, Option, none, some, List, [], ◌∷◌, Bytes,
  is_empty, if◌then◌else◌, ◌==◌, bytes_eq, bytes_beq_iff, arith, ◌∙◌, ap, sym, inl, inr, ◌⊎◌,
  Bool-cases, Option-cases, leb,
}
use kv.Prelude.Int.{ℤ, pos, negsuc, ◌≤ℤ◌, ◌+ℤ◌, ltb_ℤ, eqb_ℤ}
use kv.Text.Words.{words, fits_int, read_int, read_int-fits}
use kv.Cluster.Router.{
  ClusterRouter, Moment, follower, candidate, leader, persist_raft_meta_locked, meta_text,
  is_leader_role, is_candidate_role, RaftRole, majority_size, election_timeout_ms,
}
use kv.Cluster.Router.Meta.{IsName, IsVote}
use kv.Cluster.Router.Election.{
  enter_term, cast_vote, handle_request_vote, handle_append_entries, begin_election, step_down, win,
  count_response, begin_heartbeats, parse_vote_response, parse_response, vote_reply,
  log_is_up_to_date, Progress, goes_on, won,
}

-- The file holds the term and the vote, which can be read back.
pub record Sound (r : ClusterRouter) : Type 0 where
  pub saved :
      (r.meta ≡ some (meta_text r.m_current_term r.m_voted_for))
      ⊎ ((r.meta ≡ none) × (r.m_current_term ≡ pos 0) × (r.m_voted_for ≡ []))
  pub fits : fits_int r.m_current_term ≡ true
  pub vote : IsVote r.m_voted_for
  pub local : IsName r.m_local_id
  pub has_file : is_empty r.m_raft_meta_file ≡ false

-- The term does not go back, and in the same term a vote stays.
pub record Later (r r' : ClusterRouter) : Type 0 where
  pub term : r.m_current_term ≤ℤ r'.m_current_term
  pub vote :
      r'.m_current_term ≡ r.m_current_term
      → is_empty r.m_voted_for ≡ false
      → r'.m_voted_for ≡ r.m_voted_for

abbrev pub Kept : ClusterRouter → ClusterRouter → Type 0
Kept r r' = Sound r' × Later r r'

≤ℤ-refl : (z : ℤ) → z ≤ℤ z
≤ℤ-refl z = omega arith

pub Later-refl : (r : ClusterRouter) → Later r r
Later-refl r = record { term = ≤ℤ-refl r.m_current_term; vote = λ _ _. refl }

≤ℤ-antisym : (a b : ℤ) → a ≤ℤ b → b ≤ℤ a → a ≡ b
≤ℤ-antisym (pos a) (pos b) h h' = ap pos (omega arith)
≤ℤ-antisym (pos a) (negsuc b) h h' = absurd (omega arith)
≤ℤ-antisym (negsuc a) (pos b) h h' = absurd (omega arith)
≤ℤ-antisym (negsuc a) (negsuc b) h h' = ap negsuc (omega arith)

pub Later-trans : (r r' r'' : ClusterRouter) → Later r r' → Later r' r'' → Later r r''
Later-trans r r' r'' h h' = record {
  term = omega (arith, h.term, h'.term);
  vote = λ e some_vote.
      let back =
        ≤ℤ-antisym r'.m_current_term r.m_current_term
          (omega (arith, h'.term, subst_le r''.m_current_term r.m_current_term e)) h.term in
      let same = h.vote back some_vote in
      h'.vote (e ∙ sym back) (ap is_empty same ∙ some_vote) ∙ same;
}
  where
    subst_le : (a b : ℤ) → a ≡ b → a ≤ℤ b
    subst_le a b e = rw e (≤ℤ-refl b)

Later-term : (r r' : ClusterRouter) → ltb_ℤ r.m_current_term r'.m_current_term ≡ true → Later r r'
Later-term r r' h = record {
  term = ground arith;
  vote = λ e _. absurd (irrefl r'.m_current_term r.m_current_term e h);
}
  where
    irrefl : (a b : ℤ) → a ≡ b → ltb_ℤ b a ≡ true → ⊥
    irrefl a b e h = ground (arith, rw e at h)

-- A change of the term or of the vote that is written to the file.
module _ (m : Moment) (opens : m.opened ≡ true) (r r' : ClusterRouter) where
  persisted-Kept :
      fits_int r'.m_current_term ≡ true
      → IsVote r'.m_voted_for
      → IsName r'.m_local_id
      → is_empty r'.m_raft_meta_file ≡ false
      → Later r r'
      → Kept r (persist_raft_meta_locked m r')
  unfolding persist_raft_meta_locked
  persisted-Kept fits vote local file later =
      rw (opens, file, persist_raft_meta_locked)
        (
          record { saved = inl refl; fits = fits; vote = vote; local = local; has_file = file },
          record { term = later.term; vote = later.vote },
        )

if-Kept :
    (r : ClusterRouter) (b : Bool) (p q : ClusterRouter)
    → (b ≡ true → Kept r p)
    → (b ≡ false → Kept r q)
    → Kept r (if b then p else q)
if-Kept r true p q yes_case no_case = yes_case refl
if-Kept r false p q yes_case no_case = no_case refl

if-Kept_pair :
    {A : Type 0} (r : ClusterRouter) (b : Bool) (p q : ClusterRouter × A)
    → (b ≡ true → Kept r p.0)
    → (b ≡ false → Kept r q.0)
    → Kept r (if b then p else q).0
if-Kept_pair r true p q yes_case no_case = yes_case refl
if-Kept_pair r false p q yes_case no_case = no_case refl

pub Kept-trans : (r r' r'' : ClusterRouter) → Kept r r' → Kept r' r'' → Kept r r''
Kept-trans r r' r'' (_, l) (s, l') = (s, Later-trans r r' r'' l l')

module _ (hasher : Bytes → ℕ) (m : Moment) (opens : m.opened ≡ true) (r : ClusterRouter)
    (s : Sound r) where
  same-Kept : Kept r r
  same-Kept = (s, Later-refl r)

  enter_term-Kept :
      (t : ℤ) → fits_int t ≡ true → ltb_ℤ r.m_current_term t ≡ true → Kept r (enter_term m t r)
  unfolding enter_term
  enter_term-Kept t fits less =
      let r' = record r {
        m_current_term = t;
        m_role = follower;
        m_voted_for = [];
        m_leader_id = [];
      } in
      persisted-Kept m opens r r' fits (inl refl) s.local s.has_file (Later-term r r' less)

  cast_vote-Kept :
      (c : Bytes)
      → IsName c
      → (is_empty r.m_voted_for || (r.m_voted_for == c)) ≡ true
      → Kept r (cast_vote hasher m c r)
  unfolding cast_vote
  cast_vote-Kept c name free =
      persisted-Kept m opens r _ s.fits (inr name) s.local s.has_file (record {
        term = ≤ℤ-refl r.m_current_term;
        vote = λ _ some_vote. ground (arith, bytes_beq_iff r.m_voted_for c);
      })

  pub step_down-Kept : (t : ℤ) → fits_int t ≡ true → Kept r (step_down hasher m t r)
  unfolding step_down
  step_down-Kept t fits = if-Kept r _ _ _ (enter_term-Kept t fits) (λ _. same-Kept)

  -- The role, the leader and the time of the last heartbeat are not saved.
  led-Kept :
      (role : RaftRole) (leader_id : Bytes) (last : ℤ)
      → Kept r (record r { m_role = role; m_leader_id = leader_id; m_last_heartbeat = last })
  led-Kept role leader_id last = (
    record {
      saved = s.saved;
      fits = s.fits;
      vote = s.vote;
      local = s.local;
      has_file = s.has_file;
    },
    record { term = ≤ℤ-refl r.m_current_term; vote = λ _ _. refl },
  )

  win-Kept : (t : ℤ) → Kept r (win hasher m t r)
  unfolding win
  win-Kept t = elim (Bool-cases (is_candidate_role r.m_role && eqb_ℤ r.m_current_term t)) [
    | inl e ↦ rw (e, win) (led-Kept leader r.m_local_id m.now)
    | inr e ↦ rw (e, win) same-Kept
  ]

  pub begin_election-Kept :
      fits_int (r.m_current_term +ℤ pos 1) ≡ true → Kept r (begin_election hasher m r)
  unfolding begin_election
  begin_election-Kept fits =
      persisted-Kept m opens r _ fits (inr s.local) s.local s.has_file
        (Later-term r _ (less r.m_current_term))
    where
      less : (z : ℤ) → ltb_ℤ z (z +ℤ pos 1) ≡ true
      less z = unfold ◌+ℤ◌ in ground arith

  pub begin_heartbeats-Kept : Kept r (begin_heartbeats hasher r).0
  unfolding begin_heartbeats
  begin_heartbeats-Kept = heartbeats r.m_role (led-Kept r.m_role r.m_local_id r.m_last_heartbeat)
    where
      heartbeats :
          (role : RaftRole)
          → Kept r (record r { m_leader_id = r.m_local_id })
          → Kept r
              (if◌then◌else◌ {A = ClusterRouter × Option ℤ}
                (is_leader_role role)
                (record r { m_leader_id = r.m_local_id }, some r.m_current_term)
                (r, none)).0
      heartbeats leader k = k
      heartbeats candidate k = same-Kept
      heartbeats follower k = same-Kept

  pub handle_append_entries-Kept :
      (t : ℤ) (leader_id : Bytes)
      → fits_int t ≡ true
      → Kept r (handle_append_entries hasher m t leader_id r).0
  unfolding handle_append_entries
  handle_append_entries-Kept t leader_id fits =
      if-Kept_pair r _ _ _ (λ _. same-Kept) (λ _. renewed _ entered)
    where
      r' : ClusterRouter
      r' = record r { m_current_term = t; m_voted_for = [] }

      entered : Kept r (if ltb_ℤ r.m_current_term t then persist_raft_meta_locked m r' else r)
      entered =
          if-Kept r _ _ _
            (λ less.
              persisted-Kept m opens r r' fits (inl refl) s.local s.has_file (Later-term r r' less))
            (λ _. same-Kept)

      renewed :
          (q : ClusterRouter)
          → Kept r q
          → Kept r (record q {
            m_role = follower;
            m_leader_id = leader_id;
            m_last_heartbeat = m.now;
            m_election_timeout_ms = election_timeout_ms hasher m q;
          })
      renewed q (sq, l) = (
        record {
          saved = sq.saved;
          fits = sq.fits;
          vote = sq.vote;
          local = sq.local;
          has_file = sq.has_file;
        },
        record { term = l.term; vote = l.vote },
      )

pub and_right : (a b : Bool) → (a && b) ≡ true → b ≡ true
and_right true b h = h
and_right false b h = cc

List-cases : (ws : List Bytes) → (ws ≡ []) ⊎ ((w : Bytes) × (ws' : List Bytes) × (ws ≡ w ∷ ws'))
List-cases [] = inl refl
List-cases (w ∷ ws) = inr (w, ws, refl)

-- A term that was read is an `int`.
read_fits :
    (response : Bytes) (t : ℤ) (granted : Bool)
    → parse_vote_response response ≡ some (t, granted)
    → fits_int t ≡ true
unfolding parse_vote_response parse_response
read_fits response t granted e = elim (List-cases (words response)) [
  | inl p ↦ ground (arith)
  | inr (tag, ws, p) ↦ elim (Option-cases (read_int ws)) [
    | inl q ↦ ground arith
    | inr ((t', ws'), q) ↦ ground (arith, read_int-fits ws ws' t' q)
  ]
]

module _ (hasher : Bytes → ℕ) (m : Moment) (opens : m.opened ≡ true) (r : ClusterRouter)
    (s : Sound r) where
  pub handle_request_vote-Kept :
      (t : ℤ) (c : Bytes) (li lt : ℤ)
      → fits_int t ≡ true
      → IsName c
      → Kept r (handle_request_vote hasher m t c li lt r).0
  unfolding handle_request_vote
  handle_request_vote-Kept t c li lt fits name = elim (Bool-cases (ltb_ℤ t r.m_current_term)) [
    | inl e ↦ rw (e, handle_request_vote) (s, Later-refl r)
    | inr e ↦ rw (e, handle_request_vote) (decided (Bool-cases granted))
  ]
    where
      entered : ClusterRouter
      entered = if ltb_ℤ r.m_current_term t then enter_term m t r else r

      entered_kept : Kept r entered
      entered_kept =
          if-Kept r _ _ _ (enter_term-Kept hasher m opens r s t fits) (λ _. (s, Later-refl r))

      free : Bool
      free = is_empty entered.m_voted_for || (entered.m_voted_for == c)

      granted : Bool
      granted = log_is_up_to_date li lt entered && free

      decided :
          (granted ≡ true) ⊎ (granted ≡ false)
          → Kept r
              (if◌then◌else◌ {A = ClusterRouter × Bytes} granted
                (cast_vote hasher m c entered, vote_reply entered.m_current_term true)
                (entered, vote_reply entered.m_current_term false)).0
      decided (inl e) = rw e (
          Kept-trans r entered _ entered_kept (
            cast_vote-Kept hasher m opens entered entered_kept.0 c name
              (and_right (log_is_up_to_date li lt entered) free e)))
      decided (inr e) = rw e entered_kept

  pub count_response-Kept :
      (t : ℤ) (votes : ℕ) (response : Bytes) → Kept r (count_response hasher m t votes response r).0
  unfolding count_response
  count_response-Kept t votes response = elim (Option-cases (parse_vote_response response)) [
    | inl e ↦ rw (e, count_response) (counted votes)
    | inr ((t', granted), e) ↦
        rw (e, count_response)
          (elim (Bool-cases (ltb_ℤ t t')) [
            | inl more ↦
                rw (more, count_response)
                  (step_down-Kept hasher m opens r s t' (read_fits response t' granted e))
            | inr not_more ↦
                rw (not_more, count_response) (counted (if granted then suc votes else votes))
          ])
  ]
    where
      counted :
          (n : ℕ)
          → Kept r
              (if◌then◌else◌ {A = ClusterRouter × Progress}
                (leb (majority_size r) n)
                (win hasher m t r, won)
                (r, goes_on n)).0
      counted n = elim (Bool-cases (leb (majority_size r) n)) [
        | inl e ↦ rw e (win-Kept hasher m opens r s t)
        | inr e ↦ rw e (s, Later-refl r)
      ]
