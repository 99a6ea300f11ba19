-- ===== src/Cluster/Router/Replies.antt =====
-- The responses to votes and heartbeats are read as they were meant.
use kv.Prelude.{
  ◌≡◌, refl, Bool, true, false, some, List, [], ◌∷◌, ◌++◌, Bytes, codes, is_empty, if◌then◌else◌,
  bytes_eq, bytes_beq_refl, ◌∙◌, ap,
}
use kv.Prelude.Int.{ℤ, pos, eqb_ℤ}
use kv.Text.Decimal.{print, is_space, print_not_empty, scan_signed, scan_unsigned, scan_digits}
use kv.Text.Words.{words, words-space, NoSpace, fits_int, read_int, read_int-print}
use kv.Cluster.Router.Meta.{print-NoSpace}
use kv.Cluster.Router.Election.{
  flag, vote_reply, append_reply, parse_response, parse_vote_response, parse_append_response,
}

pub flag-NoSpace : (b : Bool) → NoSpace (flag b) × (is_empty (flag b) ≡ false)
unfolding is_space
flag-NoSpace true = ((refl, tt), refl)
flag-NoSpace false = ((refl, tt), refl)

pub read_int-flag :
    (b : Bool) (ws : List Bytes) → read_int (flag b ∷ ws) ≡ some (if b then pos 1 else pos 0, ws)
unfolding read_int scan_signed scan_unsigned scan_digits
read_int-flag true ws = refl
read_int-flag false ws = refl

pub eqb-flag : (b : Bool) → eqb_ℤ (if b then pos 1 else pos 0) (pos 1) ≡ b
eqb-flag true = refl
eqb-flag false = refl

module _ (tag : Bytes) (clean : NoSpace tag) (ne : is_empty tag ≡ false) (term : ℤ) (b : Bool) where
  reply : Bytes
  reply = tag ++ b' ' ∷ (print term ++ b' ' ∷ (flag b ++ b'\n' ∷ []))

  words-reply : words reply ≡ tag ∷ print term ∷ flag b ∷ []
  unfolding reply is_space
  words-reply =
      words-space tag b' ' _ clean refl ne
      ∙ ap (◌∷◌ tag) (
          words-space (print term) b' ' _ (print-NoSpace term) refl (print_not_empty term)
          ∙ ap (◌∷◌ (print term)) (
              words-space (flag b) b'\n' [] (flag-NoSpace b).0 refl (flag-NoSpace b).1
              ∙ ap (◌∷◌ (flag b)) (unfold words in refl)))

  pub parse_response-reply :
      fits_int term ≡ true
      → parse_response tag (tag ++ b' ' ∷ (print term ++ b' ' ∷ (flag b ++ b'\n' ∷ [])))
        ≡ some (term, b)
  unfolding parse_response reply
  parse_response-reply fits =
      rw
        (
          words-reply,
          parse_response,
          read_int-print term (flag b ∷ []) fits,
          read_int-flag b [],
          bytes_beq_refl tag,
        )
        (ap (λ b. some (term, b)) (eqb-flag b))

-- The candidate and the leader read the term and the answer that the peer gave, for every term that
-- is an `int`.
pub parse-replies :
    (term : ℤ) (b : Bool)
    → fits_int term ≡ true
    → (parse_vote_response (vote_reply term b) ≡ some (term, b))
      × (parse_append_response (append_reply term b) ≡ some (term, b))
unfolding vote_reply append_reply parse_vote_response parse_append_response is_space
parse-replies term b fits = (
  parse_response-reply (codes "RAFT_VOTE")
      (refl, (refl, (refl, (refl, (refl, (refl, (refl, (refl, (refl, tt))))))))) refl term b fits,
  parse_response-reply (codes "RAFT_APPEND")
      (refl, (refl, (refl, (refl, (refl, (refl, (refl, (refl, (refl, (refl, (refl, tt)))))))))))
      refl term b fits,
)
