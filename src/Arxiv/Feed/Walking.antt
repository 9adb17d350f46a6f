-- ===== src/Arxiv/Feed/Walking.antt =====
-- What the loop of `splitAbsID` finds in a text: the version at its end, if it has one.
use Prim.Native.Char.{Char}
use Prim.Native.String.{◌++◌}
use Prim.Native.String.{[] as empty, ◌∷◌ as cons}
use text.Mathlib.TextLemmas.{nil-append, cons-append, append_assoc, append-nil}
use research_monitor.Base.{
  ◌≡◌, refl, sym, ap, ◌∙◌, inl, inr, Bool, true, false, ◌&&◌, String, some, Bool-cases,
  Option-cases, arith,
}
use research_monitor.Arxiv.Feed.{
  is_nil, is_digit, is_v, rev_append, walk_back, or_whole, split_tail,
}

abbrev pub all_digits : String → Bool
all_digits empty = true
all_digits (cons c s) = is_digit c && all_digits s

-- A `v` and at least one digit.
abbrev pub IsVersion : String → Type 0
IsVersion empty = ⊥
IsVersion (cons c ds) = (is_v c ≡ true) × (is_nil ds ≡ false) × (all_digits ds ≡ true)

rev_append-append : (s t acc : String) → rev_append (s ++ t) acc ≡ rev_append t (rev_append s acc)
unfolding rev_append
rev_append-append empty t acc = rw (nil-append t) refl
rev_append-append (cons c s) t acc = rw (cons-append c s t) (rev_append-append s t (cons c acc))

rev_append_twice : (s acc : String) → rev_append (rev_append s acc) empty ≡ rev_append acc s
unfolding rev_append
rev_append_twice empty acc = refl
rev_append_twice (cons c s) acc = rev_append_twice s (cons c acc)

is_nil-rev_append : (s acc : String) → is_nil (rev_append s acc) ≡ is_nil s && is_nil acc
unfolding rev_append
is_nil-rev_append empty acc = refl
is_nil-rev_append (cons c s) acc = is_nil-rev_append s (cons c acc) ∙ ground arith

rev_append-eq : (s acc : String) → rev_append s empty ++ acc ≡ rev_append s acc
unfolding rev_append
rev_append-eq empty acc = nil-append acc
rev_append-eq (cons c s) acc =
    ap (λ q. q ++ acc) (sym (rev_append-eq s (cons c empty)))
    ∙ append_assoc (rev_append s empty) (cons c empty) acc
    ∙ ap (λ q. rev_append s empty ++ q)
        (cons-append c empty acc ∙ ap (λ q. cons c q) (nil-append acc))
    ∙ rev_append-eq s (cons c acc)

walk_back-digit :
    (c : Char) (front back : String)
    → is_digit c ≡ true
    → walk_back (cons c front) back ≡ walk_back front (cons c back)
unfolding walk_back
walk_back-digit c front back h = rw h refl

-- The loop passes over the digits at the end.
walk_back-digits :
    (ds front back : String)
    → all_digits ds ≡ true
    → walk_back (rev_append ds front) back ≡ walk_back front (ds ++ back)
unfolding rev_append
walk_back-digits empty front back h = rw (nil-append back) refl
walk_back-digits (cons d ds) front back h =
    walk_back-digits ds (cons d front) back (ground arith)
    ∙ walk_back-digit d front (ds ++ back) (ground arith)
    ∙ ap (walk_back front) (sym (cons-append d ds back))

v_is_no_digit : (c : Char) → is_v c ≡ true → is_digit c ≡ false
v_is_no_digit c h = ground arith

walk_back-v :
    (c : Char) (front back : String)
    → is_v c ≡ true
    → is_nil front ≡ false
    → is_nil back ≡ false
    → walk_back (cons c front) back ≡ some (rev_append front empty, cons c back)
unfolding walk_back
walk_back-v c front back v f b = rw (v_is_no_digit c v, v, f, b) refl

walk_back-stop :
    (c : Char) (front back : String) {a b : String}
    → is_digit c ≡ false
    → walk_back (cons c front) back ≡ some (a, b)
    → (is_v c ≡ true)
      × (is_nil front ≡ false)
      × (is_nil back ≡ false)
      × (rev_append front empty ≡ a)
      × (cons c back ≡ b)
unfolding walk_back
walk_back-stop c front back n e =
    (ground arith, ground arith, ground arith, ground arith, ground arith)

-- What the loop returns.
record Found (whole : String) (parts : String × String) : Type 0 where
  joined : parts.0 ++ parts.1 ≡ whole
  versioned : IsVersion parts.1
  named : is_nil parts.0 ≡ false

walk_back-Found :
    (front back : String) {a b : String}
    → all_digits back ≡ true
    → walk_back front back ≡ some (a, b)
    → Found (rev_append front back) (a, b)
unfolding rev_append
walk_back-Found empty back h e = absurd (unfold walk_back in ground arith)
walk_back-Found (cons c front) back h e = elim (Bool-cases (is_digit c)) [
  | inl d ↦
      walk_back-Found front (cons c back) (ground arith) (sym (walk_back-digit c front back d) ∙ e)
  | inr n ↦
      let (v, named, digits, same, same') = walk_back-stop c front back n e in
      rw (← same, ← same')
        (record {
          joined = rev_append-eq front (cons c back);
          versioned = (v, digits, h);
          named = rw (is_nil-rev_append front empty, named) refl;
        })
]

walk_back-version :
    (s v : String)
    → IsVersion v
    → is_nil s ≡ false
    → walk_back (rev_append (s ++ v) empty) empty ≡ some (s, v)
unfolding rev_append
walk_back-version s empty h named = absurd h
walk_back-version s (cons c ds) (v, some_digits, digits) named =
    ap (λ q. walk_back q empty) (rev_append-append s (cons c ds) empty)
    ∙ walk_back-digits ds (cons c (rev_append s empty)) empty digits
    ∙ ap (walk_back (cons c (rev_append s empty))) (append-nil ds)
    ∙ walk_back-v c (rev_append s empty) ds v
        (is_nil-rev_append s empty ∙ ap (λ q. q && true) named) some_digits
    ∙ ap (λ q. some (q, cons c ds)) (rev_append_twice s empty)

pub split_tail-version :
    (s v : String) → IsVersion v → is_nil s ≡ false → split_tail (s ++ v) ≡ (s, v)
unfolding split_tail
split_tail-version s v h named = ap (or_whole (s ++ v)) (walk_back-version s v h named)

-- The parts of a text: a name with a version, or the text, which then has none.
pub data Split (whole : String) : String × String → Type 0 where
  with_version :
      (s v : String) → s ++ v ≡ whole → IsVersion v → is_nil s ≡ false → Split whole (s, v)
  no_version :
      ((s v : String) → s ++ v ≡ whole → IsVersion v → is_nil s ≡ true) → Split whole (whole, "")

pub split_tail_lem : (whole : String) → Split whole (split_tail whole)
unfolding split_tail
split_tail_lem whole = elim (Option-cases (walk_back (rev_append whole empty) empty)) [
  | inl none_found ↦ rw none_found (
      no_version (λ s v e h. elim (Bool-cases (is_nil s)) [
        | inl unnamed ↦ unnamed
        | inr named ↦ absurd (
            ground (
              arith,
              ap (λ q. walk_back (rev_append q empty) empty) e,
              walk_back-version s v h named,
            ))
      ]))
  | inr ((a, b), e) ↦
      let f = walk_back-Found (rev_append whole empty) empty refl e in
      rw e (with_version a b (f.joined ∙ rev_append_twice whole empty) f.versioned f.named)
]
