-- ===== src/Protocol/Requests/Forwarding.antt =====
-- What a replica reads from the commands that an owner sends.
use kv.Prelude.{
  ℕ, suc, ◌<◌, ◌^◌, ◌≡◌, ◌≢◌, refl, Bool, false, some, [], ◌∷◌, ◌++◌, Bytes, codes, is_empty,
  nat_eq, bytes_eq, bytes_beq, arith, append_assoc, ap, sym, ◌∙◌,
}
use kv.Prelude.Int.{ℤ, pos}
use kv.Text.Lacks.{All-append}
use kv.Text.Decimal.{is_space, print, All-print, print_not_empty}
use kv.Text.Words.{words, words_from, words_from-word, words-space, space_newline, NoSpace}
use kv.Protocol.Resp.Frames.{parse_long-print, more_than_zero}
use kv.Protocol.{
  request_of, replica_put, replica_expire, replica_del, text_protocol, upper, trim, skip_space,
  drop_space, to_int,
}
use kv.Protocol.Arguments.{parse_args}
use kv.Protocol.Requests.Lines.{
  NoNewline, drop_space-append, drop_space-word, next_word-word, next_line-line, skip_space-word,
  received-line,
}
use kv.Protocol.Requests.{
  next_word, next_line, parse_put_text, parse_text_request, replica_put_line, replica_expire_line,
  replica_del_line, received,
}

-- A value that a text command can carry.
pub record IsPlain (value : Bytes) : Type 0 where
  pub not_empty : is_empty value ≡ false
  pub one_line : NoNewline value
  pub no_space_first : skip_space value ≡ value
  pub no_space_last : drop_space value ≡ value

parse_put_text-line :
    (command key value : Bytes)
    → NoSpace key
    → is_empty key ≡ false
    → IsPlain value
    → parse_put_text command (b' ' ∷ (key ++ b' ' ∷ value))
      ≡ parse_args text_protocol (command ∷ key ∷ value ∷ [])
unfolding parse_put_text is_space
parse_put_text-line command key value hk ek h =
    rw
      (
        parse_put_text,
        skip_space-word key (b' ' ∷ value) hk ek,
        next_word-word key value b' ' hk refl,
        next_line-line value h.one_line,
        h.no_space_first,
        h.no_space_last,
        ek,
        h.not_empty,
      )
      refl

text_after_put :
    (text : Bytes)
    → is_empty text ≡ false
    → drop_space text ≡ text
    → parse_text_request (codes "REPL_PUT " ++ text)
      ≡ parse_put_text (codes "REPL_PUT") (b' ' ∷ text)
unfolding parse_text_request parse_put_text next_line trim skip_space next_word upper is_space
    bytes_beq
text_after_put text ne e = rw (drop_space-append (codes "REPL_PUT ") text ne e) refl

put_args :
    (key value : Bytes)
    → is_empty key ≡ false
    → is_empty value ≡ false
    → parse_args text_protocol (codes "REPL_PUT" ∷ key ∷ value ∷ [])
      ≡ record (request_of text_protocol replica_put) { key = key; value = value }
unfolding parse_args upper bytes_beq
put_args key value ek ev = rw (ek, ev) refl

-- A replica reads the put that an owner sends it as a put of that key and value; the key is a word, and
-- the value is one line without white space at its ends.
pub received-replica_put_line :
    (reserves : ℕ → Bool) (key value : Bytes)
    → NoSpace key
    → is_empty key ≡ false
    → IsPlain value
    → received reserves (replica_put_line key value)
      ≡ some (record (request_of text_protocol replica_put) { key = key; value = value })
unfolding replica_put_line
received-replica_put_line reserves key value hk ek h =
    ap (λ l. received reserves (codes "REPL_PUT " ++ l))
      (sym (append_assoc key (b' ' ∷ value) (codes "\n")))
    ∙ received-line reserves (codes "EPL_PUT " ++ text) (
        ground (
          arith,
          All-append (λ c. c ≢ b'\n') key (b' ' ∷ value) (space_newline key hk)
              (omega arith, h.one_line),
        ))
    ∙ ap some (
        text_after_put text (not_empty key) last
        ∙ parse_put_text-line (codes "REPL_PUT") key value hk ek h
        ∙ put_args key value ek h.not_empty)
  where
    text : Bytes
    text = key ++ b' ' ∷ value

    not_empty : (k : Bytes) → is_empty (k ++ b' ' ∷ value) ≡ false
    not_empty [] = refl
    not_empty (c ∷ k) = refl

    last : drop_space text ≡ text
    last =
        drop_space-append key (b' ' ∷ value) refl
          (drop_space-append (b' ' ∷ []) value h.not_empty h.no_space_last)

words-word : (w : Bytes) → NoSpace w → is_empty w ≡ false → words (b' ' ∷ w) ≡ w ∷ []
unfolding words words_from is_space
words-word w h ne = words_from-word w [] h ne

words-two :
    (v w : Bytes)
    → NoSpace v
    → is_empty v ≡ false
    → NoSpace w
    → is_empty w ≡ false
    → words (b' ' ∷ (v ++ b' ' ∷ w)) ≡ v ∷ w ∷ []
unfolding words words_from is_space
words-two v w hv ev hw ew =
    words-space v b' ' w hv refl ev ∙ ap (λ l. v ∷ l) (words_from-word w [] hw ew)

text_after_expire :
    (text : Bytes)
    → is_empty text ≡ false
    → drop_space text ≡ text
    → parse_text_request (codes "REPL_EXPIRE " ++ text)
      ≡ parse_args text_protocol (codes "REPL_EXPIRE" ∷ words (b' ' ∷ text))
unfolding parse_text_request trim skip_space next_word upper is_space bytes_beq
text_after_expire text ne e = rw (drop_space-append (codes "REPL_EXPIRE ") text ne e) refl

text_after_del :
    (text : Bytes)
    → is_empty text ≡ false
    → drop_space text ≡ text
    → parse_text_request (codes "REPL_DEL " ++ text)
      ≡ parse_args text_protocol (codes "REPL_DEL" ∷ words (b' ' ∷ text))
unfolding parse_text_request trim skip_space next_word upper is_space bytes_beq
text_after_del text ne e = rw (drop_space-append (codes "REPL_DEL ") text ne e) refl

print-NoSpace : (z : ℤ) → NoSpace (print z)
print-NoSpace z =
    All-print (λ c. is_space c ≡ false) (λ d h. unfold is_space in ground arith)
      (unfold is_space in refl) z

pub to_int-small : (n : ℕ) → n < 2 ^ 31 → to_int (pos n) ≡ pos n
unfolding to_int
to_int-small n h = ground arith

expire_args :
    (key : Bytes) (n : ℕ)
    → is_empty key ≡ false
    → suc n < 2 ^ 31
    → parse_args text_protocol (codes "REPL_EXPIRE" ∷ key ∷ print (pos (suc n)) ∷ [])
      ≡ record (request_of text_protocol replica_expire) { key = key; ttl_seconds = pos (suc n) }
unfolding parse_args upper bytes_beq
expire_args key n ek h =
    rw (ek, parse_long-print (suc n) (omega arith), more_than_zero n, to_int-small (suc n) h) refl

-- A replica reads what an owner sends it for an expire as an expire of that key in that many seconds;
-- the key is a word, and the seconds are a positive int.
pub received-replica_expire_line :
    (reserves : ℕ → Bool) (key : Bytes) (n : ℕ)
    → NoSpace key
    → is_empty key ≡ false
    → suc n < 2 ^ 31
    → received reserves (replica_expire_line key (pos (suc n)))
      ≡ some (record (request_of text_protocol replica_expire) {
        key = key;
        ttl_seconds = pos (suc n);
      })
unfolding replica_expire_line
received-replica_expire_line reserves key n hk ek h =
    ap (λ l. received reserves (codes "REPL_EXPIRE " ++ l))
      (sym (append_assoc key (b' ' ∷ seconds) (codes "\n")))
    ∙ received-line reserves (codes "EPL_EXPIRE " ++ text) (
        ground (
          arith,
          All-append (λ c. c ≢ b'\n') key (b' ' ∷ seconds) (space_newline key hk)
              (omega arith, space_newline seconds (print-NoSpace (pos (suc n)))),
        ))
    ∙ ap some (
        text_after_expire text (not_empty key) last
        ∙ ap (λ l. parse_args text_protocol (codes "REPL_EXPIRE" ∷ l))
            (words-two key seconds hk ek (print-NoSpace (pos (suc n)))
              (print_not_empty (pos (suc n))))
        ∙ expire_args key n ek h)
  where
    seconds : Bytes
    seconds = print (pos (suc n))

    text : Bytes
    text = key ++ b' ' ∷ seconds

    not_empty : (k : Bytes) → is_empty (k ++ b' ' ∷ seconds) ≡ false
    not_empty [] = refl
    not_empty (c ∷ k) = refl

    last : drop_space text ≡ text
    last = drop_space-append key (b' ' ∷ seconds) refl (
        drop_space-append (b' ' ∷ []) seconds (print_not_empty (pos (suc n)))
          (drop_space-word seconds (print-NoSpace (pos (suc n)))))

del_args :
    (key : Bytes)
    → is_empty key ≡ false
    → parse_args text_protocol (codes "REPL_DEL" ∷ key ∷ [])
      ≡ record (request_of text_protocol replica_del) { key = key }
unfolding parse_args upper bytes_beq
del_args key ek = rw ek refl

-- A replica reads what an owner sends it for a del as a del of that key, if the key is a word.
pub received-replica_del_line :
    (reserves : ℕ → Bool) (key : Bytes)
    → NoSpace key
    → is_empty key ≡ false
    → received reserves (replica_del_line key)
      ≡ some (record (request_of text_protocol replica_del) { key = key })
unfolding replica_del_line
received-replica_del_line reserves key hk ek =
    received-line reserves (codes "EPL_DEL " ++ key) (ground (arith, space_newline key hk))
    ∙ ap some (
        text_after_del key ek (drop_space-word key hk)
        ∙ ap (λ l. parse_args text_protocol (codes "REPL_DEL" ∷ l)) (words-word key hk ek)
        ∙ del_args key ek)

-- A replica reads the put of a key with a space as a put of what stands before the space, with the rest
-- of the key in the value; what stands before the space is a word, and the rest and the value make
-- one line without white space at its ends.
pub received-replica_put_line_split :
    (reserves : ℕ → Bool) (key rest value : Bytes)
    → NoSpace key
    → is_empty key ≡ false
    → IsPlain (rest ++ b' ' ∷ value)
    → received reserves (replica_put_line (key ++ b' ' ∷ rest) value)
      ≡ some (record (request_of text_protocol replica_put) {
        key = key;
        value = rest ++ b' ' ∷ value;
      })
received-replica_put_line_split reserves key rest value hk ek h =
    ap (received reserves) same
    ∙ received-replica_put_line reserves key (rest ++ b' ' ∷ value) hk ek h
  where
    same : replica_put_line (key ++ b' ' ∷ rest) value ≡ replica_put_line key (rest ++ b' ' ∷ value)
    same =
        unfold replica_put_line in
        ap (λ l. codes "REPL_PUT " ++ l)
          (append_assoc key (b' ' ∷ rest) (b' ' ∷ (value ++ codes "\n"))
            ∙ ap (λ l. key ++ b' ' ∷ l) (sym (append_assoc rest (b' ' ∷ value) (codes "\n"))))
