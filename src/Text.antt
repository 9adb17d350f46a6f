-- ===== src/Text.antt =====
-- Texts as lists of numbers (bytes or code points, as each file says) and what the program uses
-- of Go's `strings` and `regexp` on them.
use Prim.Native.Char.{code}
use Prim.Native.String.{[], ◌∷◌}
use research_monitor.Base.{
  ℕ, zero, suc, ◌+◌, ◌/◌, ◌%◌, ◌++◌, String, Bool, true, false, ◌&&◌, ◌||◌, List, leb, ◌==◌,
  if◌then◌else◌,
}

-- The code points of a native text, which are its bytes where it is ASCII.
abbrev pub codes : String → List ℕ
codes [] = List.[]
codes (c ∷ s) = List.◌∷◌ (code c) (codes s)

abbrev pub lower : ℕ → ℕ
lower c = if leb b'A' c && leb c b'Z' then c + 32 else c

-- `\w` of RE2, which is ASCII.
abbrev pub is_word : ℕ → Bool
is_word c =
    leb b'a' c && leb c b'z' || leb b'A' c && leb c b'Z' || leb b'0' c && leb c b'9' || c == b'_'

-- `\s` of RE2: tab, newline, form feed, carriage return, space.
abbrev pub is_re_space : ℕ → Bool
is_re_space c = c == 9 || c == 10 || c == 12 || c == 13 || c == 32

-- `unicode.IsSpace`: what `strings.TrimSpace` and `strings.Fields` take for white space.
abbrev pub is_space : ℕ → Bool
is_space c =
    leb 9 c && leb c 13
    || c == 32
    || c == 0x85
    || c == 0xa0
    || c == 0x1680
    || leb 0x2000 c && leb c 0x200a
    || c == 0x2028
    || c == 0x2029
    || c == 0x202f
    || c == 0x205f
    || c == 0x3000

abbrev pub is_empty {ℓ} : {A : Type ℓ} → List A → Bool
is_empty List.[] = true
is_empty (List.◌∷◌ c cs) = false

-- `strings.HasPrefix`
unfoldable pub has_prefix : List ℕ → List ℕ → Bool
has_prefix List.[] s = true
has_prefix (List.◌∷◌ c p) List.[] = false
has_prefix (List.◌∷◌ c p) (List.◌∷◌ d s) = c == d && has_prefix p s

unfoldable pub trim_left : List ℕ → List ℕ
trim_left List.[] = List.[]
trim_left (List.◌∷◌ c cs) = if is_space c then trim_left cs else List.◌∷◌ c cs

unfoldable pub trim_right : List ℕ → List ℕ
trim_right List.[] = List.[]
trim_right (List.◌∷◌ c cs) =
    let rest = trim_right cs in if is_space c && is_empty rest then List.[] else List.◌∷◌ c rest

-- `strings.TrimSpace`
unfoldable pub trim_space : List ℕ → List ℕ
unfolding trim_left trim_right
trim_space s = trim_right (trim_left s)

-- `strings.TrimSpace(s) == ""`
unfoldable pub is_blank : String → Bool
unfolding trim_space
is_blank s = is_empty (trim_space (codes s))

-- The decimal digits of a number, as `%d` prints it; a number is enough fuel for itself.
unfoldable pub decimal_from : ℕ → ℕ → List ℕ
decimal_from zero n = List.◌∷◌ (48 + n % 10) List.[]
decimal_from (suc fuel) n =
    let front = decimal_from fuel (n / 10) in
    if leb 10 n then front ++ List.◌∷◌ (48 + n % 10) List.[] else List.◌∷◌ (48 + n) List.[]

unfoldable pub decimal : ℕ → List ℕ
unfolding decimal_from
decimal n = decimal_from n n
