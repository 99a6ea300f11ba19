-- ===== src/Text/Lacks.antt =====
-- Texts in which a byte does not occur.
use kv.Prelude.{ℕ, List, [], ◌∷◌, ◌++◌, ◌≢◌, Bytes}

module _ {ℓ κ} {A : Type ℓ} (P : A → Type κ) where
  abbrev pub All : List A → Type κ
  All [] = Unit
  All (x ∷ xs) = P x × All xs

  pub All-append : (xs ys : List A) → All xs → All ys → All (xs ++ ys)
  All-append [] ys _ h = h
  All-append (x ∷ xs) ys (p, h) h' = (p, All-append xs ys h h')

abbrev pub Lacks : ℕ → Bytes → Type 0
Lacks b = All (λ c. c ≢ b)
