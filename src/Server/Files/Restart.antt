-- ===== src/Server/Files/Restart.antt =====
-- A server that starts on the files that another wrote has its log and its indices.
use kv.Prelude.{
  ◌≡◌, refl, true, Option, none, some, List, [], ◌∷◌, ◌++◌, Bytes, codes, bytes_beq, arith, ap, sym,
  ◌∙◌, append-nil,
}
use kv.Prelude.Int.{ℤ, pos, ◌≤ℤ◌, min_of_le, max_of_le}
use kv.Text.Decimal.{print, is_space, print_not_empty, scan_signed, scan_signed-print}
use kv.Text.Words.{
  words, words-space, words_from, IsWord, has_no_space, IsWord-literal, fits_int, fits_int-InRange,
}
use kv.Cluster.Router.Meta.{print-NoSpace}
use kv.Server.{RaftLog, raft_last_log_index_locked}
use kv.Server.Codec.{entries_text}
use kv.Server.Codec.Entries.{AreEntries, read_entries-entries_text}
use kv.Server.Files.{
  state_text, load_index, load_indices, load_state_file, clamp_indices, load_raft_state, cleared,
  set_index, set_or_keep,
}

-- The order of the indices, in a log whose numbers are of type `int`.
pub record IsOrdered (r : RaftLog) : Type 0 where
  pub included-applied : r.m_raft_last_included_index ≤ℤ r.m_raft_last_applied
  pub applied-commit : r.m_raft_last_applied ≤ℤ r.m_raft_commit_index
  pub commit-last : r.m_raft_commit_index ≤ℤ raft_last_log_index_locked r

pub record IsStorable (r : RaftLog) : Type 0 where
  pub commit_fits : fits_int r.m_raft_commit_index ≡ true
  pub applied_fits : fits_int r.m_raft_last_applied ≡ true
  pub included_fits : fits_int r.m_raft_last_included_index ≡ true
  pub included_term_fits : fits_int r.m_raft_last_included_term ≡ true
  pub are_entries : AreEntries r.m_raft_log

scan_all : (z : ℤ) → fits_int z ≡ true → scan_signed (print z) ≡ some (z, [])
scan_all z fits =
    ap scan_signed (sym (append-nil (print z)))
    ∙ scan_signed-print z [] (fits_int-InRange z fits) refl

abbrev state_words : RaftLog → List Bytes
state_words r =
    codes "commit_index"
    ∷ print r.m_raft_commit_index
    ∷ codes "last_applied"
    ∷ print r.m_raft_last_applied
    ∷ codes "last_included_index"
    ∷ print r.m_raft_last_included_index
    ∷ codes "last_included_term"
    ∷ print r.m_raft_last_included_term
    ∷ []

line_words :
    (name rest : Bytes) (z : ℤ)
    → IsWord name
    → words (name ++ b' ' ∷ (print z ++ b'\n' ∷ rest)) ≡ name ∷ print z ∷ words rest
unfolding is_space
line_words name rest z (h, ne) =
    words-space name b' ' (print z ++ b'\n' ∷ rest) h refl ne
    ∙ ap (◌∷◌ name) (words-space (print z) b'\n' rest (print-NoSpace z) refl (print_not_empty z))

words-state_text : (r : RaftLog) → words (state_text r) ≡ state_words r
unfolding state_text has_no_space
words-state_text r =
    line_words (codes "commit_index") _ r.m_raft_commit_index
      (IsWord-literal (codes "commit_index") refl refl)
    ∙ ap (λ ws. codes "commit_index" ∷ print r.m_raft_commit_index ∷ ws)
        (line_words (codes "last_applied") _ r.m_raft_last_applied
            (IsWord-literal (codes "last_applied") refl refl)
          ∙ ap (λ ws. codes "last_applied" ∷ print r.m_raft_last_applied ∷ ws)
              (line_words (codes "last_included_index") _ r.m_raft_last_included_index
                  (IsWord-literal (codes "last_included_index") refl refl)
                ∙ ap (λ ws. codes "last_included_index" ∷ print r.m_raft_last_included_index ∷ ws)
                    (line_words (codes "last_included_term") [] r.m_raft_last_included_term
                        (IsWord-literal (codes "last_included_term") refl refl)
                      ∙ ap
                          (λ ws.
                            codes "last_included_term" ∷ print r.m_raft_last_included_term ∷ ws)
                          (unfold words words_from in refl))))

load_indices-pair :
    (key : Bytes) (z : ℤ) (ws : List Bytes) (r r' r'' : RaftLog)
    → fits_int z ≡ true
    → set_index key z r ≡ some r'
    → set_index key (pos 0) r ≡ some r''
    → load_indices (key ∷ print z ∷ ws) r ≡ load_indices ws r'
unfolding load_indices load_index
load_indices-pair key z ws r r' r'' fits e e' =
    rw (load_indices, load_index, e', scan_all z fits, fits) (ap (load_indices ws) kept)
  where
    kept : set_or_keep key z r ≡ r'
    kept = ap (λ (o : Option RaftLog). elim o as (λ _. RaftLog) [ none ↦ r | some r' ↦ r' ]) e

load_indices-state_words :
    (r : RaftLog)
    → IsStorable r
    → load_indices (state_words r) cleared ≡ record r { m_raft_log = [] }
unfolding bytes_beq
load_indices-state_words r h =
    load_indices-pair (codes "commit_index") r.m_raft_commit_index _ _ _ _ h.commit_fits refl refl
    ∙ load_indices-pair (codes "last_applied") r.m_raft_last_applied _ _ _ _ h.applied_fits refl
        refl
    ∙ load_indices-pair (codes "last_included_index") r.m_raft_last_included_index _ _ _ _
        h.included_fits refl refl
    ∙ load_indices-pair (codes "last_included_term") r.m_raft_last_included_term [] _ _ _
        h.included_term_fits refl refl
    ∙ (unfold load_indices in refl)

clamp_indices-IsOrdered : (r : RaftLog) → IsOrdered r → clamp_indices r ≡ r
unfolding clamp_indices
clamp_indices-IsOrdered r h =
    rw
      (
        min_of_le r.m_raft_commit_index (raft_last_log_index_locked r) h.commit-last,
        max_of_le r.m_raft_last_included_index r.m_raft_commit_index included-commit,
        min_of_le r.m_raft_last_applied r.m_raft_commit_index h.applied-commit,
        max_of_le r.m_raft_last_included_index r.m_raft_last_applied h.included-applied,
      )
      refl
  where
    included-commit : r.m_raft_last_included_index ≤ℤ r.m_raft_commit_index
    included-commit = omega arith

-- A server that starts on the two files that hold a log and its indices has that log and those
-- indices; the indices are in order, and the numbers and bytes are of their types.
pub load_raft_state-files :
    (r : RaftLog)
    → IsOrdered r
    → IsStorable r
    → load_raft_state (some (entries_text r.m_raft_log)) (some (state_text r)) ≡ (r, true)
unfolding load_raft_state load_state_file
load_raft_state-files r o h =
    rw
      (
        words-state_text r,
        load_indices-state_words r h,
        min_of_le r.m_raft_last_applied r.m_raft_commit_index o.applied-commit,
        read_entries-entries_text r.m_raft_log h.are_entries,
      )
      (ap (λ r'. (r', true)) (clamp_indices-IsOrdered r o))
