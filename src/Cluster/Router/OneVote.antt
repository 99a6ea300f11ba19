-- ===== src/Cluster/Router/OneVote.antt =====
-- At most one vote in a term, over every sequence of critical sections and restarts.
use kv.Prelude.{
  ℕ, ◌≡◌, ◌≢◌, refl, Bool, true, false, not, ◌&&◌, ◌||◌, none, some, List, [], ◌∷◌, Bytes, codes,
  is_empty, if◌then◌else◌, ◌==◌, bytes_eq, arith, ◌∙◌, ap, sym, inl, inr, Bool-cases, Option-cases,
  ◌++◌,
}
use kv.Prelude.Int.{ℤ, pos, ◌+ℤ◌, ◌-ℤ◌, ltb_ℤ}
use kv.Text.Words.{words, fits_int}
use kv.Config.{ServerConfig}
use kv.Cluster.ConsistentHash.{ClusterNode, empty}
use kv.Cluster.Router.{
  ClusterRouter, Moment, follower, meta_text, load_words, load_raft_meta_locked, init,
  update_log_info, refresh_health_if_needed, rebuild_hash_locked, find_local, peers_of, placed,
  configured, started, persist_raft_meta_locked,
}
use kv.Cluster.Router.Meta.{IsName, load-meta_text}
use kv.Cluster.Router.Election.{
  handle_request_vote, handle_append_entries, begin_election, step_down, count_response,
  begin_heartbeats, vote_reply, enter_term, cast_vote, log_is_up_to_date, parse_vote_response,
}
use kv.Cluster.Router.Replies.{parse-replies}
use kv.Cluster.Router.Votes.{
  Later-trans, Sound, Kept, Later-refl, Kept-trans, handle_request_vote-Kept,
  handle_append_entries-Kept, begin_election-Kept, step_down-Kept, count_response-Kept,
  begin_heartbeats-Kept,
}

persist_raft_meta_locked-fields :
    (m : Moment) (q : ClusterRouter)
    → ((persist_raft_meta_locked m q).m_current_term ≡ q.m_current_term)
      × ((persist_raft_meta_locked m q).m_voted_for ≡ q.m_voted_for)
unfolding persist_raft_meta_locked
persist_raft_meta_locked-fields m q = ground arith

no_false : false ≢ true
no_false h = cc

vote_reply-inj :
    (a t : ℤ) (b : Bool)
    → fits_int a ≡ true
    → fits_int t ≡ true
    → vote_reply a b ≡ vote_reply t true
    → (a ≡ t) × (b ≡ true)
vote_reply-inj a t b fits fits' e =
    let read =
      sym (parse-replies a b fits).0 ∙ ap parse_vote_response e ∙ (parse-replies t true fits').0 in
    (
      ap (λ o. elim o [ none ↦ a | some (z, _) ↦ z ]) read,
      ap (λ o. elim o [ none ↦ b | some (_, g) ↦ g ]) read,
    )

-- A critical section of the router, or a restart: `init` in a new process, whose members are those
-- of `blank` but for the file.
pub data Step : Type 0 where
  request_vote : Moment → ℤ → Bytes → ℤ → ℤ → Step
  append_entries : Moment → ℤ → Bytes → Step
  begins_election : Moment → Step
  response : Moment → ℤ → ℕ → Bytes → Step
  begins_heartbeats : Step
  greater_term : Moment → ℤ → Step
  log_info : ℤ → ℤ → Step
  health_check : ℤ → (ClusterNode → Bool) → Step
  restart : Moment → (ClusterNode → Bool) → ServerConfig → ClusterRouter → Step

module _ (hasher : Bytes → ℕ) where
  unfoldable pub step : Step → ClusterRouter → ClusterRouter
  step (request_vote m t c li lt) r = (handle_request_vote hasher m t c li lt r).0
  step (append_entries m t l) r = (handle_append_entries hasher m t l r).0
  step (begins_election m) r = begin_election hasher m r
  step (response m t votes text) r = (count_response hasher m t votes text r).0
  step begins_heartbeats r = (begin_heartbeats hasher r).0
  step (greater_term m t) r = step_down hasher m t r
  step (log_info i t) r = update_log_info i t r
  step (health_check now ping) r = refresh_health_if_needed hasher now ping r
  step (restart m ping c blank) r = (init hasher m ping c (record blank { meta = r.meta })).0

  -- The file opens whenever it is written, terms are of type `int`, and the identifiers are names.
  abbrev pub IsProper : Step → ClusterRouter → Type 0
  IsProper (request_vote m t c li lt) r = (m.opened ≡ true) × (fits_int t ≡ true) × IsName c
  IsProper (append_entries m t l) r = (m.opened ≡ true) × (fits_int t ≡ true)
  IsProper (begins_election m) r = (m.opened ≡ true) × (fits_int (r.m_current_term +ℤ pos 1) ≡ true)
  IsProper (response m t votes text) r = m.opened ≡ true
  IsProper begins_heartbeats r = Unit
  IsProper (greater_term m t) r = (m.opened ≡ true) × (fits_int t ≡ true)
  IsProper (log_info i t) r = Unit
  IsProper (health_check now ping) r = Unit
  IsProper (restart m ping c blank) r = (c.cluster.enabled ≡ true) × IsName c.node.id

  refresh-Kept :
      (now : ℤ) (ping : ClusterNode → Bool) (r : ClusterRouter)
      → Sound r
      → Kept r (refresh_health_if_needed hasher now ping r)
  unfolding refresh_health_if_needed rebuild_hash_locked
  refresh-Kept now ping r s = elim (Bool-cases (not r.m_enabled)) [
    | inl e ↦ rw (e, refresh_health_if_needed) (s, Later-refl r)
    | inr e ↦
        elim (Bool-cases (ltb_ℤ (now -ℤ r.m_last_health_check) r.m_health_check_interval_ms)) [
          | inl e' ↦ rw (e, e', refresh_health_if_needed) (s, Later-refl r)
          | inr e' ↦
              rw (e, e', refresh_health_if_needed)
                (
                  record {
                    saved = s.saved;
                    fits = s.fits;
                    vote = s.vote;
                    local = s.local;
                    has_file = s.has_file;
                  },
                  record { term = (Later-refl r).term; vote = λ _ _. refl },
                )
        ]
  ]

  -- The term, the vote and the file are those of `r`.
  record Agrees (r q : ClusterRouter) : Type 0 where
    term : q.m_current_term ≡ r.m_current_term
    vote : q.m_voted_for ≡ r.m_voted_for
    file : q.meta ≡ r.meta
    local : IsName q.m_local_id
    has_file : is_empty q.m_raft_meta_file ≡ false

  Agrees-Kept : (r q : ClusterRouter) → Sound r → Agrees r q → Kept r q
  Agrees-Kept r q s a = (
    record {
      saved = rw (a.file, a.term, a.vote) s.saved;
      fits = rw a.term s.fits;
      vote = rw a.vote s.vote;
      local = a.local;
      has_file = a.has_file;
    },
    record { term = rw a.term (Later-refl r).term; vote = λ _ _. a.vote },
  )

  load-Agrees :
      (r q : ClusterRouter)
      → Sound r
      → q.meta ≡ r.meta
      → IsName q.m_local_id
      → is_empty q.m_raft_meta_file ≡ false
      → Agrees r (load_raft_meta_locked q)
  unfolding load_raft_meta_locked
  load-Agrees r q s same local has_file = elim s.saved [
    | inl text ↦
        rw (same ∙ text, load_raft_meta_locked)
          (record {
            term = ap (λ p. p.0) (loaded text);
            vote = ap (λ p. p.1) (loaded text);
            file = same;
            local = local;
            has_file = has_file;
          })
    | inr (absent, zero_term, no_vote) ↦
        rw (same ∙ absent, load_raft_meta_locked)
          (record {
            term = sym zero_term;
            vote = sym no_vote;
            file = same;
            local = local;
            has_file = has_file;
          })
  ]
    where
      loaded :
          r.meta ≡ some (meta_text r.m_current_term r.m_voted_for)
          → load_words
              (words (meta_text r.m_current_term r.m_voted_for))
              (q.m_current_term, q.m_voted_for)
            ≡ (r.m_current_term, r.m_voted_for)
      loaded _ =
          load-meta_text r.m_current_term r.m_voted_for (q.m_current_term, q.m_voted_for) s.fits
            s.vote

  meta_file_named : (dir : Bytes) → is_empty (dir ++ codes "/raft.meta") ≡ false
  meta_file_named [] = refl
  meta_file_named (c ∷ dir) = refl

  placed-fields :
      (c : ServerConfig) (q : ClusterRouter)
      → ((placed hasher c (configured hasher c q)).m_local_id ≡ c.node.id)
        × ((placed hasher c (configured hasher c q)).meta ≡ q.meta)
  unfolding placed configured
  placed-fields c q = elim (Option-cases (find_local c (peers_of c.cluster.peers))) [
    | inl e ↦ rw (e, placed) (refl, refl)
    | inr (n, e) ↦ rw (e, placed) (refl, refl)
  ]

  started-Agrees :
      (m : Moment) (c : ServerConfig) (r q : ClusterRouter)
      → Sound r
      → q.meta ≡ r.meta
      → IsName q.m_local_id
      → Agrees r (started hasher m c q)
  unfolding started rebuild_hash_locked
  started-Agrees m c r q s same name =
      let a =
        load-Agrees r
          (record (rebuild_hash_locked hasher (q.m_local_node ∷ []) q) {
            m_last_health_check = m.now -ℤ q.m_health_check_interval_ms;
            m_role = follower;
            m_raft_meta_file = c.node.data_dir ++ codes "/raft.meta";
          })
          s same name (meta_file_named c.node.data_dir) in
      record { term = a.term; vote = a.vote; file = a.file; local = a.local; has_file = a.has_file }

  module _ (m : Moment) (ping : ClusterNode → Bool) (c : ServerConfig) (q : ClusterRouter) where
    ready : ClusterRouter
    ready =
        refresh_health_if_needed hasher m.now ping
          (started hasher m c (placed hasher c (configured hasher c q)))

    init-enabled :
        c.cluster.enabled ≡ true
        → (init hasher m ping c q).0
          ≡ record ready { m_stopping = ready.m_stopping && not ready.m_raft_enabled }
    unfolding init ready
    init-enabled enabled =
        ap
          (λ b.
            (if◌then◌else◌ {A = ClusterRouter × Bool} (not b) (configured hasher c q, true)
              (
                record ready { m_stopping = ready.m_stopping && not ready.m_raft_enabled },
                not (empty ready.m_hash),
              )).0)
          enabled

    init-Kept :
        (r : ClusterRouter)
        → c.cluster.enabled ≡ true
        → IsName c.node.id
        → Sound r
        → q.meta ≡ r.meta
        → Kept r (init hasher m ping c q).0
    unfolding ready
    init-Kept r enabled name s same =
        let (local, file) = placed-fields c q in
        let placed_q = placed hasher c (configured hasher c q) in
        let kept =
          Agrees-Kept r (started hasher m c placed_q) s
            (started-Agrees m c r placed_q s (file ∙ same) (rw local name)) in
        let (sound, later) =
          Kept-trans r (started hasher m c placed_q) ready kept
            (refresh-Kept m.now ping (started hasher m c placed_q) kept.0) in
        rw (init-enabled enabled) (
          record {
            saved = sound.saved;
            fits = sound.fits;
            vote = sound.vote;
            local = sound.local;
            has_file = sound.has_file;
          },
          record { term = later.term; vote = later.vote },
        )

  step-Kept : (x : Step) (r : ClusterRouter) → IsProper x r → Sound r → Kept r (step x r)
  unfolding step update_log_info
  step-Kept (request_vote m t c li lt) r (opens, fits, name) s =
      handle_request_vote-Kept hasher m opens r s t c li lt fits name
  step-Kept (append_entries m t l) r (opens, fits) s =
      handle_append_entries-Kept hasher m opens r s t l fits
  step-Kept (begins_election m) r (opens, fits) s = begin_election-Kept hasher m opens r s fits
  step-Kept (response m t votes text) r opens s =
      count_response-Kept hasher m opens r s t votes text
  step-Kept begins_heartbeats r _ s =
      begin_heartbeats-Kept hasher (record { now = pos 0; jitter = 0; opened = true }) refl r s
  step-Kept (greater_term m t) r (opens, fits) s = step_down-Kept hasher m opens r s t fits
  step-Kept (log_info i t) r _ s = (
    record {
      saved = s.saved;
      fits = s.fits;
      vote = s.vote;
      local = s.local;
      has_file = s.has_file;
    },
    record { term = (Later-refl r).term; vote = λ _ _. refl },
  )
  step-Kept (health_check now ping) r _ s = refresh-Kept now ping r s
  step-Kept (restart m ping c blank) r (enabled, name) s =
      init-Kept m ping c (record blank { meta = r.meta }) r enabled name s refl

  unfoldable pub steps : List Step → ClusterRouter → ClusterRouter
  steps [] r = r
  steps (x ∷ xs) r = steps xs (step x r)

  abbrev pub AllProper : List Step → ClusterRouter → Type 0
  AllProper [] r = Unit
  AllProper (x ∷ xs) r = IsProper x r × AllProper xs (step x r)

  -- The term never goes back, a vote stays for its term, and both are in the file, through any
  -- critical sections and restarts.
  pub steps-Kept :
      (xs : List Step) (r : ClusterRouter) → AllProper xs r → Sound r → Kept r (steps xs r)
  unfolding steps
  steps-Kept [] r _ s = (s, Later-refl r)
  steps-Kept (x ∷ xs) r (p, ps) s =
      let k = step-Kept x r p s in
      Kept-trans r (step x r) (steps xs (step x r)) k (steps-Kept xs (step x r) ps k.0)

  -- A vote was granted for the term.
  abbrev pub Grants : Moment → ℤ → Bytes → ℤ → ℤ → ClusterRouter → Type 0
  Grants m t c li lt r = (handle_request_vote hasher m t c li lt r).1 ≡ vote_reply t true

  module _ (m : Moment) (t : ℤ) (c : Bytes) (li lt : ℤ) (r : ClusterRouter) where
    abbrev entered : ClusterRouter
    entered = if ltb_ℤ r.m_current_term t then enter_term m t r else r

    abbrev granted : Bool
    granted =
        log_is_up_to_date li lt entered
        && (is_empty entered.m_voted_for || (entered.m_voted_for == c))

    abbrev voted : ClusterRouter × Bytes
    voted =
        if granted
        then (cast_vote hasher m c entered, vote_reply entered.m_current_term true)
        else (entered, vote_reply entered.m_current_term false)

    not_stale : ltb_ℤ t r.m_current_term ≡ false → handle_request_vote hasher m t c li lt r ≡ voted
    unfolding handle_request_vote
    not_stale e = ap (λ b. if b then (r, vote_reply r.m_current_term false) else voted) e

    stale :
        ltb_ℤ t r.m_current_term ≡ true
        → handle_request_vote hasher m t c li lt r ≡ (r, vote_reply r.m_current_term false)
    unfolding handle_request_vote
    stale e = ap (λ b. if b then (r, vote_reply r.m_current_term false) else voted) e

    entered_fits :
        fits_int r.m_current_term ≡ true
        → fits_int t ≡ true
        → fits_int entered.m_current_term ≡ true
    unfolding enter_term persist_raft_meta_locked
    entered_fits fits fits' = ground arith

    cast_vote-fields :
        ((cast_vote hasher m c entered).m_current_term ≡ entered.m_current_term)
        × ((cast_vote hasher m c entered).m_voted_for ≡ c)
    unfolding cast_vote
    cast_vote-fields = persist-fields _
      where
        persist-fields :
            (q : ClusterRouter)
            → ((persist_raft_meta_locked m q).m_current_term ≡ q.m_current_term)
              × ((persist_raft_meta_locked m q).m_voted_for ≡ q.m_voted_for)
        persist-fields q = persist_raft_meta_locked-fields m q

    -- A granted vote is for the current term from then on, and is recorded.
    granted-state :
        fits_int r.m_current_term ≡ true
        → fits_int t ≡ true
        → Grants m t c li lt r
        → ((handle_request_vote hasher m t c li lt r).0.m_current_term ≡ t)
          × ((handle_request_vote hasher m t c li lt r).0.m_voted_for ≡ c)
    granted-state fits fits' grants = elim (Bool-cases (ltb_ℤ t r.m_current_term)) [
      | inl e ↦
          absurd (
            no_false
              (vote_reply-inj r.m_current_term t false fits fits' (rw (stale e) at grants)).1)
      | inr e ↦ elim (Bool-cases granted) [
        | inl g ↦
            let replied : vote_reply entered.m_current_term true ≡ vote_reply t true =
              rw (not_stale e, g) at grants in
            rw (not_stale e, g)
              (
                cast_vote-fields.0
                    ∙ (vote_reply-inj entered.m_current_term t true (entered_fits fits fits') fits'
                        replied).0,
                cast_vote-fields.1,
              )
        | inr g ↦
            let replied : vote_reply entered.m_current_term false ≡ vote_reply t true =
              rw (not_stale e, g) at grants in
            absurd (
              no_false
                (vote_reply-inj entered.m_current_term t false (entered_fits fits fits') fits'
                  replied).1)
      ]
    ]

  -- A node gives its vote to one candidate in a term: a vote for `c` in the term `t`, then any
  -- critical sections and restarts, then a vote for `c'` in the same term are votes for the same
  -- candidate. The file of terms and votes opens whenever it is written, terms are of type `int`,
  -- and the identifiers are words other than `-`.
  pub one_vote_per_term :
      (m m' : Moment) (t : ℤ) (c c' : Bytes) (li lt li' lt' : ℤ) (xs : List Step)
      (r : ClusterRouter)
      → Sound r
      → IsProper (request_vote m t c li lt) r
      → AllProper xs (step (request_vote m t c li lt) r)
      → (m'.opened ≡ true) × (fits_int t ≡ true) × IsName c'
      → Grants m t c li lt r
      → Grants m' t c' li' lt' (steps xs (step (request_vote m t c li lt) r))
      → c ≡ c'
  unfolding step
  one_vote_per_term m m' t c c' li lt li' lt' xs r s proper propers proper' grants grants' =
      let r1 = step (request_vote m t c li lt) r in
      let r2 = steps xs r1 in
      let k1 = step-Kept (request_vote m t c li lt) r proper s in
      let k2 = steps-Kept xs r1 propers k1.0 in
      let k3 = step-Kept (request_vote m' t c' li' lt') r2 proper' k2.0 in
      let at1 = granted-state m t c li lt r s.fits proper.1 grants in
      let at3 = granted-state m' t c' li' lt' r2 k2.0.fits proper'.1 grants' in
      let later = Later-trans r1 r2 (step (request_vote m' t c' li' lt') r2) k2.1 k3.1 in
      sym at1.1 ∙ sym (later.vote (at3.0 ∙ sym at1.0) (ap is_empty at1.1 ∙ proper.2.1)) ∙ at3.1
