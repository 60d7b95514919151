-- ===== src/Server/Commands/Words.antt =====
-- What a POSIX shell reads where a command has a quoted word.
use hope.Base.{
  ℕ, ◌≡◌, refl, ap, ◌∙◌, ==_iff, and_true, inl, inr, Bool, true, false, ◌&&◌, ◌||◌, Option, none,
  some, List, [], ◌∷◌, ◌++◌, all, any, ◌==◌, codes, Bool-cases, is_digit, arith, if◌then◌else◌,
}
use hope.Server.Commands.{escaped, shell_quote, is_word_byte, shell_word}

-- Where the shell stands in a word (POSIX, 2.2 Quoting).
pub data Quoting : Type 0 where
  bare : Quoting
  single : Quoting
  double : Quoting

-- A character that means something to the shell outside of quotes.
abbrev pub is_special : ℕ → Bool
is_special c = any (λ b. b == c) (codes "\t\n!#$&()*;<>?[\\]^`{|}")

abbrev with_char : ℕ → Option (List ℕ × List ℕ) → Option (List ℕ × List ℕ)
with_char c none = none
with_char c (some (word, rest)) = some (c ∷ word, rest)

-- The word at the front of a text and what follows it; none where the word ends inside of quotes or
-- has a character that the shell would interpret.
abbrev pub read_word : Quoting → List ℕ → Option (List ℕ × List ℕ)
read_word bare [] = some ([], [])
read_word bare (c ∷ cs) =
    let quoted = read_word single cs in
    let twice = read_word double cs in
    let more = read_word bare cs in
    if c == 0x20
    then some ([], c ∷ cs)
    else if c == 0x27
    then quoted
    else if c == 0x22
    then twice
    else if is_special c
    then none
    else with_char c more
read_word single [] = none
read_word single (c ∷ cs) =
    let closed = read_word bare cs in
    let more = read_word single cs in if c == 0x27 then closed else with_char c more
read_word double [] = none
read_word double (c ∷ cs) =
    let closed = read_word bare cs in
    let more = read_word double cs in
    if c == 0x22
    then closed
    else if any (λ b. b == c) (codes "$`\\")
    then none
    else with_char c more

-- The end of the command, or a space.
abbrev pub ends : List ℕ → Bool
ends [] = true
ends (c ∷ cs) = c == 0x20

ends-read : (rest : List ℕ) → ends rest ≡ true → read_word bare rest ≡ some ([], rest)
ends-read [] e = refl
ends-read (c ∷ cs) e = rw e refl

escaped-read :
    (v rest : List ℕ)
    → ends rest ≡ true
    → read_word single (escaped v ++ (0x27 ∷ rest)) ≡ some (v, rest)
escaped-read [] rest e = ends-read rest e
escaped-read (c ∷ cs) rest e = elim (Bool-cases (c == 0x27)) [
  | inl quote ↦ let is = (==_iff c 0x27).0 quote in rw (is, escaped-read cs rest e) refl
  | inr other ↦ rw (other, other, escaped-read cs rest e) refl
]

-- A `~` in front of a word stands for a home directory.
abbrev pub is_home : List ℕ → Bool
is_home [] = false
is_home (c ∷ cs) = c == 0x7e

abbrev pub read_first : List ℕ → Option (List ℕ × List ℕ)
read_first cs = let word = read_word bare cs in if is_home cs then none else word

append-one : (xs : List ℕ) (a : ℕ) (rest : List ℕ) → (xs ++ (a ∷ [])) ++ rest ≡ xs ++ (a ∷ rest)
append-one [] a rest = refl
append-one (x ∷ xs) a rest = ap (λ ys. x ∷ ys) (append-one xs a rest)

shell_quote-read :
    (v rest : List ℕ) → ends rest ≡ true → read_first (shell_quote v ++ rest) ≡ some (v, rest)
unfolding shell_quote
shell_quote-read v rest e = rw (append-one (escaped v) 0x27 rest) (escaped-read v rest e)

plain-special : (c : ℕ) → is_word_byte c ≡ true → is_special c ≡ false
unfolding is_word_byte is_digit
plain-special c h = ground (arith, h)

plain-apart : (c : ℕ) → is_word_byte c ≡ true → ((c == 0x20) || (c == 0x27) || (c == 0x22)) ≡ false
unfolding is_word_byte is_digit
plain-apart c h = ground (arith, h)

plain-step :
    (c : ℕ) (cs : List ℕ)
    → is_word_byte c ≡ true
    → read_word bare (c ∷ cs) ≡ with_char c (read_word bare cs)
plain-step c cs h =
    let apart = plain-apart c h in
    elim (Bool-cases (c == 0x20)) [
      | inl blank ↦ let is = rw blank at apart in cc
      | inr solid ↦ elim (Bool-cases (c == 0x27)) [
        | inl quote ↦ let is = rw (solid, quote) at apart in cc
        | inr other ↦ elim (Bool-cases (c == 0x22)) [
          | inl quote ↦ let is = rw (solid, other, quote) at apart in cc
          | inr rest ↦ rw (solid, other, rest, plain-special c h) refl
        ]
      ]
    ]

plain-read :
    (v rest : List ℕ)
    → ends rest ≡ true
    → all is_word_byte v ≡ true
    → read_word bare (v ++ rest) ≡ some (v, rest)
plain-read [] rest e h = ends-read rest e
plain-read (c ∷ cs) rest e h =
    let (first, others) = and_true (is_word_byte c) (all is_word_byte cs) h in
    plain-step c (cs ++ rest) first ∙ rw (plain-read cs rest e others) refl

-- A quoted text, with a space or nothing behind it, is read by the shell as one word, the text
-- itself, and what follows it is left. So is a text as shell_word puts it, but for one that begins
-- with a tilde and that shell_word leaves without quotes, which the shell takes for a home directory.
pub shell_word-read :
    (v rest : List ℕ)
    → ends rest ≡ true
    → (read_first (shell_quote v ++ rest) ≡ some (v, rest))
      × (read_first (shell_word v ++ rest)
          ≡ (if is_home v && all is_word_byte v then none else some (v, rest)))
unfolding shell_word
shell_word-read [] rest e = (shell_quote-read [] rest e, shell_quote-read [] rest e)
shell_word-read (c ∷ cs) rest e = (
  shell_quote-read (c ∷ cs) rest e,
  elim (Bool-cases (all is_word_byte (c ∷ cs))) [
    | inr other ↦ elim (Bool-cases (is_home (c ∷ cs))) [
      | inl home ↦ rw (other, home) (shell_quote-read (c ∷ cs) rest e)
      | inr away ↦ rw (other, away) (shell_quote-read (c ∷ cs) rest e)
    ]
    | inl plain ↦ elim (Bool-cases (is_home (c ∷ cs))) [
      | inl home ↦ rw (plain, home) refl
      | inr away ↦ rw (plain, away) (plain-read (c ∷ cs) rest e plain)
    ]
  ],
)
