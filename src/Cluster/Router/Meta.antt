-- ===== src/Cluster/Router/Meta.antt =====
-- The file of terms and votes is read back as it was written.
use kv.Prelude.{
  ◌≡◌, refl, true, false, some, [], ◌∷◌, Bytes, codes, is_empty, if◌then◌else◌, ◌==◌, bytes_eq,
  bytes_beq, arith, ◌∙◌, ap, sym, inl, inr, ◌⊎◌, append-nil,
}
use kv.Prelude.Int.{ℤ}
use kv.Text.Decimal.{print, All-print, is_space, scan_signed, scan_signed-print, print_not_empty}
use kv.Text.Words.{words, words-space, NoSpace, fits_int, fits_int-InRange}
use kv.Cluster.Router.{meta_text, load_key, load_words, vote_of}

-- An identifier that can be told from no vote when it is read back.
abbrev pub IsName : Bytes → Type 0
IsName w = NoSpace w × (is_empty w ≡ false) × ((w == codes "-") ≡ false)

-- No vote, or a vote for a name.
abbrev pub IsVote : Bytes → Type 0
IsVote v = (v ≡ []) ⊎ IsName v

pub print-NoSpace : (z : ℤ) → NoSpace (print z)
unfolding is_space
print-NoSpace z = All-print (λ c. is_space c ≡ false) (λ d h. ground arith) refl z

written_vote : Bytes → Bytes
written_vote v = if is_empty v then codes "-" else v

written_vote-NoSpace :
    (v : Bytes) → IsVote v → NoSpace (written_vote v) × (is_empty (written_vote v) ≡ false)
unfolding written_vote is_space
written_vote-NoSpace v (inl e) = rw e ((refl, tt), refl)
written_vote-NoSpace v (inr (h, ne, _)) = rw ne (h, ne)

vote_of-written : (v : Bytes) → IsVote v → vote_of (written_vote v) ≡ v
unfolding written_vote bytes_beq
vote_of-written v (inl e) = rw e refl
vote_of-written v (inr (_, ne, other)) = rw (ne, other) refl

words-meta_text :
    (t : ℤ) (v : Bytes)
    → IsVote v
    → words (meta_text t v) ≡ codes "term" ∷ print t ∷ codes "voted_for" ∷ written_vote v ∷ []
unfolding meta_text written_vote is_space
words-meta_text t v h =
    words-space (codes "term") b' ' _ (refl, (refl, (refl, (refl, tt)))) refl refl
    ∙ ap (◌∷◌ (codes "term")) (
        words-space (print t) b'\n' _ (print-NoSpace t) refl (print_not_empty t)
        ∙ ap (◌∷◌ (print t)) (
            words-space (codes "voted_for") b' ' _
              (refl, (refl, (refl, (refl, (refl, (refl, (refl, (refl, (refl, tt))))))))) refl refl
            ∙ ap (◌∷◌ (codes "voted_for")) (
                words-space (written_vote v) b'\n' [] (written_vote-NoSpace v h).0 refl
                  (written_vote-NoSpace v h).1
                ∙ ap (◌∷◌ (written_vote v)) (unfold words in refl))))

-- Whatever the two fields held before.
pub load-meta_text :
    (t : ℤ) (v : Bytes) (before : ℤ × Bytes)
    → fits_int t ≡ true
    → IsVote v
    → load_words (words (meta_text t v)) before ≡ (t, v)
unfolding load_words bytes_beq
load-meta_text t v before fits h =
    ap (λ ws. load_words ws before) (words-meta_text t v h) ∙ read_term
  where
    scanned : scan_signed (print t) ≡ some (t, [])
    scanned =
        ap scan_signed (sym (append-nil (print t)))
        ∙ scan_signed-print t [] (fits_int-InRange t fits) refl

    read_term :
        load_words (codes "term" ∷ print t ∷ codes "voted_for" ∷ written_vote v ∷ []) before
        ≡ (t, v)
    read_term = rw (scanned, fits, load_words, load_key) (ap (λ w. (t, w)) (vote_of-written v h))
