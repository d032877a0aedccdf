-- ===== src/Query/Lines.antt =====
-- bin/src/query.rs, `FileGen::next_msg`: what is read from a line of a file.
use nailgun.Prelude.{ℕ, ◌≡◌, refl, true, false, none, some, List, [], ◌∷◌, ◌++◌, Result, ok}
use nailgun.Query.{
  is_space, word_rest, next_word, Dns, message, line_message, file_lines_next, file_next,
}

-- A text of white space, a text without any, and a text that ends a word: it is empty or begins
-- with white space.
abbrev pub AllSpace : List ℕ → Type 0
AllSpace [] = Unit {0}
AllSpace (c ∷ cs) = (is_space c ≡ true) × AllSpace cs

abbrev pub NoSpace : List ℕ → Type 0
NoSpace [] = Unit {0}
NoSpace (c ∷ cs) = (is_space c ≡ false) × NoSpace cs

abbrev pub EndsWord : List ℕ → Type 0
EndsWord [] = Unit {0}
EndsWord (c ∷ cs) = is_space c ≡ true

word_rest-append : (w rest : List ℕ) → NoSpace w → EndsWord rest → word_rest (w ++ rest) ≡ (w, rest)
unfolding word_rest
word_rest-append [] [] n e = refl
word_rest-append [] (c ∷ cs) n e = rw e refl
word_rest-append (c ∷ w) rest (clear, n) e = rw (clear, word_rest-append w rest n e) refl

-- The next word after white space is all up to the next white space or the end.
next_word-append :
    (space : List ℕ) (c : ℕ) (w rest : List ℕ)
    → AllSpace space
    → NoSpace (c ∷ w)
    → EndsWord rest
    → next_word (space ++ c ∷ (w ++ rest)) ≡ some (c ∷ w, rest)
unfolding next_word
next_word-append [] c w rest s (clear, n) e = rw (clear, word_rest-append w rest n e) refl
next_word-append (b ∷ space) c w rest (white, s) n e =
    rw white (next_word-append space c w rest s n e)

-- White space alone has no word.
next_word-blank : (space : List ℕ) → AllSpace space → next_word space ≡ none
unfolding next_word
next_word-blank [] s = refl
next_word-blank (b ∷ space) (white, s) = rw white (next_word-blank space s)

module _ {Name RecordType DnsClass : Type 0} (dns : Dns Name RecordType DnsClass) where
  -- A file whose next line has two words, which are a name and a type, with white space before and
  -- between them and nothing or white space and any text after: the generator makes the message with
  -- the id asked for, that name and that type, and goes on with the next line. A line of white space
  -- alone gives no message, and is taken off the file too.
  pub file_next-line :
      (id : ℕ) (before between : List ℕ) (b c d : ℕ) (w v rest : List ℕ)
      (lines : List (Result (List ℕ))) (name : Name) (qtype : RecordType)
      → AllSpace before
      → AllSpace (b ∷ between)
      → NoSpace (c ∷ w)
      → NoSpace (d ∷ v)
      → EndsWord rest
      → dns.name_from_ascii (c ∷ w) ≡ some name
      → dns.record_type_from_str (d ∷ v) ≡ some qtype
      → let line = before ++ c ∷ (w ++ b ∷ (between ++ d ∷ (v ++ rest))) in
        (file_next dns (record { rdr = ok line ∷ lines }) id
          ≡ ok (dns.to_vec (message dns id name qtype none), record { rdr = lines }))
        × (file_next dns (record { rdr = ok before ∷ lines }) id
            ≡ ok (none, record { rdr = lines }))
  unfolding file_next file_lines_next line_message
  file_next-line id before between b c d w v rest lines name qtype s s' n n' e named typed =
      let first = next_word-append before c w (b ∷ (between ++ d ∷ (v ++ rest))) s n s'.0 in
      let second = next_word-append (b ∷ between) d v rest s' n' e in
      (
        rw (file_next, file_lines_next, line_message, first, named, second, typed) refl,
        rw (file_next, file_lines_next, line_message, next_word-blank before s) refl,
      )
