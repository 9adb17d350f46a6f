-- ===== src/Download/Description.antt =====
-- The bound on the description of a failed entry, and where it is cut.
use mathlib.Core.List.{append-nil}
use research_monitor.Base.{
  ℕ, zero, suc, ◌≤◌, ◌<◌, ◌≡◌, refl, ap, ◌⊎◌, inl, inr, true, false, List, [], ◌∷◌, ◌++◌, ltb,
  length, take, drop, Bool-cases, arith,
}
use research_monitor.Download.Sanitize.{
  redact, continues_at, walk_back, sanitized_max_len, sanitize,
}

pub walk_back-le : (out : List ℕ) (cut : ℕ) → walk_back out cut ≤ cut
unfolding walk_back
walk_back-le out zero = omega arith
walk_back-le out (suc cut) = ground (arith, walk_back-le out cut)

-- The cut stands at the front or before a byte that begins a rune.
pub walk_back-stop :
    (out : List ℕ) (cut : ℕ)
    → (walk_back out cut ≡ 0) ⊎ (continues_at out (walk_back out cut) ≡ false)
unfolding walk_back
walk_back-stop out zero = inl refl
walk_back-stop out (suc cut) = elim (Bool-cases (continues_at out (suc cut))) [
  | inl c ↦ rw c (walk_back-stop out cut)
  | inr n ↦ rw n (inr n)
]

-- Every byte that the cut steps over continues a rune.
pub walk_back-over :
    (out : List ℕ) (cut i : ℕ) → walk_back out cut < i → i ≤ cut → continues_at out i ≡ true
unfolding walk_back
walk_back-over out zero i lo hi = absurd (omega arith)
walk_back-over out (suc cut) i lo hi = elim (Bool-cases (continues_at out (suc cut))) [
  | inl c ↦ elim (Bool-cases (ltb cut i)) [
    | inl last ↦ let e : i ≡ suc cut = ground arith in rw e c
    | inr inside ↦ walk_back-over out cut i (ground arith) (ground arith)
  ]
  | inr n ↦ absurd (ground arith)
]

length-take_le {ℓ} : {A : Type ℓ} (n : ℕ) (xs : List A) → length (take n xs) ≤ n
length-take_le zero xs = omega arith
length-take_le (suc n) [] = omega arith
length-take_le (suc n) (x ∷ xs) = omega (arith, length-take_le n xs)

take-drop {ℓ} : {A : Type ℓ} (n : ℕ) (xs : List A) → take n xs ++ drop n xs ≡ xs
take-drop zero xs = refl
take-drop (suc n) [] = refl
take-drop (suc n) (x ∷ xs) = ap (λ l. x ∷ l) (take-drop n xs)

length-take_exact {ℓ} : {A : Type ℓ} (n : ℕ) (xs : List A) → n ≤ length xs → length (take n xs) ≡ n
length-take_exact zero xs h = refl
length-take_exact (suc n) [] h = absurd (omega arith)
length-take_exact (suc n) (x ∷ xs) h = ap suc (length-take_exact n xs (omega arith))

-- How a text was cut: the kept part is a front of it, no longer than 256 bytes; if anything was cut
-- off, then the text was longer than that, the kept part ends at the front or before a byte
-- that begins a rune, and is the longest such within 256 bytes.
pub record Cut (whole kept : List ℕ) : Type 0 where
  pub rest : List ℕ
  pub split : kept ++ rest ≡ whole
  pub bounded : length kept ≤ 256
  pub untouched : length whole ≤ 256 → kept ≡ whole
  pub at_rune : 256 < length whole → (length kept ≡ 0) ⊎ (continues_at whole (length kept) ≡ false)
  pub longest :
      (i : ℕ) → 256 < length whole → length kept < i → i ≤ 256 → continues_at whole i ≡ true

long-Cut :
    (out : List ℕ)
    → sanitized_max_len < length out
    → Cut out (take (walk_back out sanitized_max_len) out)
long-Cut out long =
    let n = walk_back out sanitized_max_len in
    let le : n ≤ sanitized_max_len = walk_back-le out sanitized_max_len in
    let same : length (take n out) ≡ n = length-take_exact n out (omega arith) in
    record {
      rest = drop n out;
      split = take-drop n out;
      bounded = omega arith;
      untouched = λ h. absurd (omega arith);
      at_rune = λ _. rw same (walk_back-stop out sanitized_max_len);
      longest = λ i _ lo hi. walk_back-over out sanitized_max_len i (omega arith) hi;
    }

whole-Cut : (out : List ℕ) → length out ≤ sanitized_max_len → Cut out out
whole-Cut out short = record {
  rest = [];
  split = append-nil out;
  bounded = short;
  untouched = λ _. refl;
  at_rune = λ h. absurd (omega arith);
  longest = λ i h. absurd (omega arith);
}

-- The description is the redacted text, cut to at most 256 bytes without splitting a rune, as late
-- as that allows.
pub sanitize-Cut : (text : List ℕ) → Cut (redact text) (sanitize text)
unfolding sanitize
sanitize-Cut text = elim (Bool-cases (ltb sanitized_max_len (length (redact text)))) [
  | inl long ↦ rw long (long-Cut (redact text) (ground arith))
  | inr short ↦ rw short (whole-Cut (redact text) (ground arith))
]
