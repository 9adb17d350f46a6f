-- ===== src/Download/Sanitize.antt =====
-- The description of a failed entry (`sanitize` of pdfdownload/errfields.go), over the bytes of the
-- error's text. Each pattern is a matcher: given the byte before a position and the bytes from it
-- on, it returns the length of its leftmost-first match there. No pattern can match nothing, and
-- in each the repeated classes are disjoint from what follows them, so the greedy run is the match.
-- A byte of a longer rune is no ASCII letter, digit or space, so `\S` over bytes is `\S` over runes.
use research_monitor.Base.{
  ℕ, zero, suc, ◌+◌, ◌-◌, Bool, false, ◌&&◌, ◌||◌, not, List, [], ◌∷◌, ◌++◌, Option, none, some,
  ltb, leb, ◌==◌, length, get_elem?, take, drop, if◌then◌else◌, ◌>>=◌,
}
use research_monitor.Text.{codes, lower, is_word, is_re_space}

abbrev pub sanitized_max_len : ℕ
sanitized_max_len = 256

-- How many bytes of the front pass the test.
unfoldable pub span_len : (ℕ → Bool) → List ℕ → ℕ
span_len p [] = 0
span_len p (c ∷ cs) = let n = span_len p cs in if p c then suc n else 0

-- `+` after a class: the run, if it is not empty.
some_of : (ℕ → Bool) → List ℕ → Option ℕ
unfolding span_len
some_of p cs = let n = span_len p cs in if n == 0 then none else some n

abbrev word_before : Option ℕ → Bool
word_before none = false
word_before (some c) = is_word c

-- `\b` before the byte `c`.
abbrev at_boundary : Option ℕ → ℕ → Bool
at_boundary prev c = let w = word_before prev in w && not (is_word c) || not w && is_word c

abbrev is_at : List ℕ → ℕ → ℕ → Bool
is_at cs i v = elim (get_elem? cs i) [ none ↦ false | some c ↦ c == v ]

-- The bytes of one rune that folds to the lower case letter `k` under `(?i)`, by their number:
-- the two cases of the letter, `ſ` for s and the Kelvin sign for k.
fold_one : ℕ → List ℕ → Option ℕ
fold_one k [] = none
fold_one k (c ∷ cs) =
    if lower c == k
    then some 1
    else if k == b's' && c == 0xc5 && is_at cs 0 0xbf
    then some 2
    else if k == b'k' && c == 0xe2 && is_at cs 0 0x84 && is_at cs 1 0xaa
    then some 3
    else none

-- The length of a match of the given lower case letters, under `(?i)`.
fold_match : List ℕ → List ℕ → Option ℕ
fold_match [] cs = some 0
fold_match (k ∷ ks) cs = do n ← fold_one k cs; m ← fold_match ks (drop n cs); some (n + m)

-- The first of the keywords that matches.
first_key : List (List ℕ) → List ℕ → Option ℕ
first_key [] cs = none
first_key (k ∷ ks) cs = elim (fold_match k cs) [ some n ↦ some n | none ↦ first_key ks cs ]

abbrev secret_keys : List (List ℕ)
secret_keys =
    codes "password"
    ∷ codes "passwd"
    ∷ codes "secret"
    ∷ codes "token"
    ∷ codes "api_key"
    ∷ codes "apikey"
    ∷ []

abbrev not_space : ℕ → Bool
not_space c = not (is_re_space c)

abbrev guard_boundary : Option ℕ → List ℕ → Option ℕ
guard_boundary prev [] = none
guard_boundary prev (c ∷ cs) = if at_boundary prev c then some 0 else none

-- `(?i)\b(password|passwd|secret|token|api_key|apikey)\s*=\s*\S+`
unfoldable pub match_secret : Option ℕ → List ℕ → Option ℕ
unfolding span_len some_of fold_one fold_match first_key
match_secret prev cs = do
  _ ← guard_boundary prev cs
  key ← first_key secret_keys cs
  let pad = span_len is_re_space (drop key cs)
  let equals = key + pad
  if is_at cs equals b'='
      then (do
        let gap = span_len is_re_space (drop (equals + 1) cs)
        value ← some_of not_space (drop (equals + 1 + gap) cs)
        some (equals + 1 + gap + value))
      else none

-- `(?i)\bbearer\s+\S+`
unfoldable pub match_bearer : Option ℕ → List ℕ → Option ℕ
unfolding span_len some_of fold_one fold_match
match_bearer prev cs = do
  _ ← guard_boundary prev cs
  word ← fold_match (codes "bearer") cs
  gap ← some_of is_re_space (drop word cs)
  value ← some_of not_space (drop (word + gap) cs)
  some (word + gap + value)

abbrev is_segment : ℕ → Bool
is_segment c =
    leb b'A' c && leb c b'Z'
    || leb b'a' c && leb c b'z'
    || leb b'0' c && leb c b'9'
    || c == b'.'
    || c == b'_'
    || c == b'-'

-- `/[A-Za-z0-9._-]+`
one_segment : List ℕ → Option ℕ
unfolding span_len some_of
one_segment [] = none
one_segment (c ∷ cs) = if c == b'/' then (do n ← some_of is_segment cs; some (suc n)) else none

-- `(?:/[A-Za-z0-9._-]+)*`, with one round of fuel for each byte.
more_segments : ℕ → List ℕ → ℕ
more_segments zero cs = 0
more_segments (suc fuel) cs = elim (one_segment cs) [
  | none ↦ 0
  | some n ↦ n + more_segments fuel (drop n cs)
]

-- `/[A-Za-z0-9._-]+(?:/[A-Za-z0-9._-]+)+`
unfoldable pub match_path : Option ℕ → List ℕ → Option ℕ
unfolding one_segment more_segments
match_path prev cs = do
  n ← one_segment cs
  m ← one_segment (drop n cs)
  let rest = drop (n + m) cs
  some (n + m + more_segments (length rest) rest)

-- `ReplaceAllString`: the number counts what is left of the match that is being skipped.
unfoldable pub replace_all :
    (Option ℕ → List ℕ → Option ℕ) → List ℕ → Option ℕ → ℕ → List ℕ → List ℕ
replace_all matcher text prev skip [] = []
replace_all matcher text prev (suc skip) (c ∷ cs) = replace_all matcher text (some c) skip cs
replace_all matcher text prev zero (c ∷ cs) = elim (matcher prev (c ∷ cs)) [
  | none ↦ c ∷ replace_all matcher text (some c) 0 cs
  | some n ↦ text ++ replace_all matcher text (some c) (n - 1) cs
]

-- The three replacements, in order.
unfoldable pub redact : List ℕ → List ℕ
unfolding match_secret match_bearer match_path replace_all
redact out = replace_all match_path (codes "[PATH]") none 0 (
    replace_all match_bearer (codes "Bearer [REDACTED]") none 0
      (replace_all match_secret (codes "[REDACTED]") none 0 out))

-- `(b & 0xC0) == 0x80`
abbrev pub is_continuation : ℕ → Bool
is_continuation b = leb 0x80 b && ltb b 0xc0

abbrev pub continues_at : List ℕ → ℕ → Bool
continues_at out i = elim (get_elem? out i) [ none ↦ false | some b ↦ is_continuation b ]

-- `for cut > 0 && (out[cut]&0xC0) == 0x80 { cut-- }`
unfoldable pub walk_back : List ℕ → ℕ → ℕ
walk_back out zero = 0
walk_back out (suc cut) =
    let back = walk_back out cut in if continues_at out (suc cut) then back else suc cut

unfoldable pub sanitize : List ℕ → List ℕ
unfolding redact walk_back
sanitize text =
    let out = redact text in
    if ltb sanitized_max_len (length out) then take (walk_back out sanitized_max_len) out else out
