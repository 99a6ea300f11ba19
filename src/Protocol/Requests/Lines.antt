-- ===== src/Protocol/Requests/Lines.antt =====
-- Lines of text as the server cuts them off its buffer and reads them.
use kv.Prelude.{
  ℕ, ◌≡◌, ◌≢◌, refl, Bool, true, false, some, List, [], ◌∷◌, ◌++◌, Bytes, codes, is_empty, nat_eq,
  bytes_eq, arith, ap, ◌∙◌,
}
use kv.Text.Lacks.{All}
use kv.Text.Decimal.{is_space}
use kv.Text.Words.{
  words, words_from, words-spaced, spaced, spaced-Lacks, lined, lined-eq-spaced, IsWord, NoSpace,
}
use kv.Protocol.{text_protocol, upper, trim, skip_space, drop_space}
use kv.Protocol.Arguments.{parse_args}
use kv.Protocol.Resp.{cut_line, extract_request_frame}
use kv.Protocol.Requests.{
  next_word, next_line, parse_text_request, parse_request, keeps_spaces, received,
}

abbrev pub NoNewline : Bytes → Type 0
NoNewline = All (λ c. c ≢ b'\n')

pub cut_line-line : (l rest : Bytes) → NoNewline l → cut_line (l ++ b'\n' ∷ rest) ≡ some (l, rest)
unfolding cut_line
cut_line-line [] rest h = refl
cut_line-line (c ∷ l) rest (ne, h) = ground (arith, cut_line-line l rest h)

pub drop_space-append :
    (a b : Bytes) → is_empty b ≡ false → drop_space b ≡ b → drop_space (a ++ b) ≡ a ++ b
unfolding drop_space
drop_space-append [] b ne e = e
drop_space-append (c ∷ a) b ne e = rw (drop_space-append a b ne e, not_empty a) refl
  where
    not_empty : (a : Bytes) → is_empty (a ++ b) ≡ false
    not_empty [] = ne
    not_empty (c ∷ a) = refl

pub drop_space-word : (w : Bytes) → NoSpace w → drop_space w ≡ w
unfolding drop_space
drop_space-word [] h = refl
drop_space-word (c ∷ w) (e, h) = rw (drop_space-word w h, e) (ground arith)

pub next_word-word :
    (w rest : Bytes) (c : ℕ)
    → NoSpace w
    → is_space c ≡ true
    → next_word (w ++ c ∷ rest) ≡ (w, c ∷ rest)
unfolding next_word
next_word-word [] rest c h e = rw e refl
next_word-word (d ∷ w) rest c (e', h) e = rw (e', next_word-word w rest c h e) refl

pub next_line-line : (l : Bytes) → NoNewline l → next_line l ≡ l
unfolding next_line
next_line-line [] h = refl
next_line-line (c ∷ l) (ne, h) = ground (arith, next_line-line l h)

pub skip_space-word :
    (w rest : Bytes) → NoSpace w → is_empty w ≡ false → skip_space (b' ' ∷ (w ++ rest)) ≡ w ++ rest
unfolding skip_space
skip_space-word [] rest h ne = cc
skip_space-word (c ∷ w) rest (e, h) ne = unfold is_space in rw e refl

pub received-line :
    (reserves : ℕ → Bool) (line : Bytes)
    → NoNewline line
    → received reserves (b'R' ∷ (line ++ codes "\n")) ≡ some (parse_text_request (b'R' ∷ line))
unfolding extract_request_frame parse_request
received-line reserves line h = rw (cut_line-line (b'R' ∷ line) [] (omega arith, h)) refl

spaced_not_empty :
    (w : Bytes) (ws : List Bytes) → is_empty w ≡ false → is_empty (spaced (w ∷ ws)) ≡ false
spaced_not_empty w [] ne = ne
spaced_not_empty [] (w' ∷ ws) ne = cc
spaced_not_empty (c ∷ w) (w' ∷ ws) ne = refl

drop_space-spaced :
    (w : Bytes) (ws : List Bytes)
    → All IsWord (w ∷ ws)
    → drop_space (spaced (w ∷ ws)) ≡ spaced (w ∷ ws)
drop_space-spaced w [] ((h, _), _) = drop_space-word w h
drop_space-spaced w (w' ∷ ws) ((h, ne), hs) = drop_space-append w (b' ' ∷ spaced (w' ∷ ws)) refl (
    drop_space-append (b' ' ∷ []) (spaced (w' ∷ ws)) (spaced_not_empty w' ws hs.0.1)
      (drop_space-spaced w' ws hs))

trim-spaced :
    (c : ℕ) (w : Bytes) (ws : List Bytes)
    → All IsWord ((c ∷ w) ∷ ws)
    → trim (spaced ((c ∷ w) ∷ ws)) ≡ spaced ((c ∷ w) ∷ ws)
unfolding trim
trim-spaced c w ws h = ap drop_space (first ws) ∙ drop_space-spaced (c ∷ w) ws h
  where
    first : (ws : List Bytes) → skip_space (spaced ((c ∷ w) ∷ ws)) ≡ spaced ((c ∷ w) ∷ ws)
    first [] = unfold skip_space in rw (h.0.0.0) refl
    first (w' ∷ ws) = unfold skip_space in rw (h.0.0.0) refl

words_after :
    (arg : Bytes) (args : List Bytes)
    → All IsWord (arg ∷ args)
    → words (b' ' ∷ spaced (arg ∷ args)) ≡ arg ∷ args
words_after arg args h = skipped ∙ words-spaced (arg ∷ args) h
  where
    skipped : words (b' ' ∷ spaced (arg ∷ args)) ≡ words (spaced (arg ∷ args))
    skipped = unfold words words_from is_space in refl

-- Words with a space between each two are read as the command and its arguments.
pub parse_text_request-spaced :
    (c : ℕ) (command : Bytes) (arg : Bytes) (args : List Bytes)
    → All IsWord ((c ∷ command) ∷ arg ∷ args)
    → keeps_spaces (upper (c ∷ command)) ≡ false
    → parse_text_request (spaced ((c ∷ command) ∷ arg ∷ args))
      ≡ parse_args text_protocol (upper (c ∷ command) ∷ arg ∷ args)
unfolding parse_text_request
parse_text_request-spaced c command arg args h plain =
    rw
      (
        parse_text_request,
        trim-spaced c command (arg ∷ args) h,
        next_word-word (c ∷ command) (spaced (arg ∷ args)) b' ' h.0.0 (unfold is_space in refl),
        plain,
        words_after arg args h.1,
      )
      refl

-- A line of words that a node sends is read as the command and its arguments.
pub received-lined :
    (reserves : ℕ → Bool) (command : Bytes) (arg : Bytes) (args : List Bytes)
    → All IsWord ((b'R' ∷ command) ∷ arg ∷ args)
    → keeps_spaces (upper (b'R' ∷ command)) ≡ false
    → received reserves (lined ((b'R' ∷ command) ∷ arg ∷ args))
      ≡ some (parse_args text_protocol (upper (b'R' ∷ command) ∷ arg ∷ args))
received-lined reserves command arg args h plain =
    ap (received reserves) (lined-eq-spaced ((b'R' ∷ command) ∷ arg ∷ args))
    ∙ received-line reserves (command ++ b' ' ∷ spaced (arg ∷ args))
        (spaced-Lacks ((b'R' ∷ command) ∷ arg ∷ args) h).1
    ∙ ap some (parse_text_request-spaced b'R' command arg args h plain)
