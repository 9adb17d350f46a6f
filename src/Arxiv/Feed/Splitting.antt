-- ===== src/Arxiv/Feed/Splitting.antt =====
-- The id and the version of an entry, as they stand in the URL of its abstract.
use Prim.Native.Char.{Char, code}
use Prim.Native.String.{◌++◌}
use Prim.Native.String.{[] as empty, ◌∷◌ as cons}
use text.Mathlib.TextLemmas.{nil-append, cons-append}
use research_monitor.Base.{◌≡◌, refl, sym, ap, ◌∙◌, Bool, true, false, ◌&&◌, String, some, arith}
use research_monitor.Text.{is_space}
use research_monitor.Arxiv.Feed.{
  is_nil, is_digit, is_v, trim_left, trim_right, trim_space, after_prefix, trim_prefix, split_tail,
  abs_prefix, split_abs_id,
}
use research_monitor.Arxiv.Feed.Walking.{
  all_digits, IsVersion, split_tail-version, Split, split_tail_lem,
}

-- White space is none of a version's characters.
digit_is_no_space : (c : Char) → is_digit c ≡ true → is_space (code c) ≡ false
digit_is_no_space c h = ground arith

v_is_no_space : (c : Char) → is_v c ≡ true → is_space (code c) ≡ false
v_is_no_space c h = ground arith

trim_right-cons :
    (c : Char) (s : String) {t : String}
    → trim_right s ≡ t
    → is_space (code c) && is_nil t ≡ false
    → trim_right (cons c s) ≡ cons c t
unfolding trim_right
trim_right-cons c s e h = rw (e, h) refl

trim_right-digits : (ds : String) → all_digits ds ≡ true → trim_right ds ≡ ds
unfolding trim_right
trim_right-digits empty h = refl
trim_right-digits (cons d ds) h =
    trim_right-cons d ds (trim_right-digits ds (ground arith))
      (rw (digit_is_no_space d (ground arith)) refl)

trim_right-version : (v : String) → IsVersion v → trim_right v ≡ v
trim_right-version empty h = absurd h
trim_right-version (cons c ds) (v, _, digits) =
    trim_right-cons c ds (trim_right-digits ds digits) (rw (v_is_no_space c v) refl)

is_nil-append : (s t : String) → is_nil t ≡ false → is_nil (s ++ t) ≡ false
is_nil-append empty t h = rw (nil-append t) h
is_nil-append (cons c s) t h = rw (cons-append c s t) refl

and_false : (b : Bool) → b && false ≡ false
and_false true = refl
and_false false = refl

trim_right-append :
    (s t : String) → trim_right t ≡ t → is_nil t ≡ false → trim_right (s ++ t) ≡ s ++ t
trim_right-append empty t e h = rw (nil-append t) e
trim_right-append (cons c s) t e h = rw (cons-append c s t) (
    trim_right-cons c (s ++ t) (trim_right-append s t e h)
      (rw (is_nil-append s t h) (and_false (is_space (code c)))))

after_prefix-append : (p s : String) → after_prefix p (p ++ s) ≡ some s
unfolding after_prefix
after_prefix-append empty s = ap some (nil-append s)
after_prefix-append (cons c p) s = rw (cons-append c p s) (ground (arith, after_prefix-append p s))

trim_prefix-append : (p s : String) → trim_prefix p (p ++ s) ≡ s
unfolding trim_prefix
trim_prefix-append p s = rw (after_prefix-append p s, trim_prefix) refl

trim_left-abs : (s : String) → trim_left (abs_prefix ++ s) ≡ abs_prefix ++ s
unfolding trim_left
trim_left-abs s = ap trim_left (cons-append _ _ s) ∙ sym (cons-append _ _ s)

IsVersion-named : (v : String) → IsVersion v → is_nil v ≡ false
IsVersion-named empty h = absurd h
IsVersion-named (cons c v) h = refl

trim_space-abs :
    (s v : String) → IsVersion v → trim_space (abs_prefix ++ (s ++ v)) ≡ abs_prefix ++ (s ++ v)
unfolding trim_space
trim_space-abs s v h =
    ap trim_right (trim_left-abs (s ++ v))
    ∙ trim_right-append abs_prefix (s ++ v)
        (trim_right-append s v (trim_right-version v h) (IsVersion-named v h))
        (is_nil-append s v (IsVersion-named v h))

-- `splitAbsID` takes apart what the URL of an abstract puts together: from the prefix, a name that
-- is not empty, and a version, which is a `v` and decimal digits, it returns this name and this
-- version, whatever the name holds.
pub split_abs_id_round_trip :
    (s v : String) → is_nil s ≡ false → IsVersion v → split_abs_id (abs_prefix ++ (s ++ v)) ≡ (s, v)
unfolding split_abs_id
split_abs_id_round_trip s v named h =
    ap (λ q. split_tail (trim_prefix abs_prefix q)) (trim_space-abs s v h)
    ∙ ap split_tail (trim_prefix-append abs_prefix (s ++ v))
    ∙ split_tail-version s v h named

-- For any id.
pub split_abs_id_lem :
    (id : String) → Split (trim_prefix abs_prefix (trim_space id)) (split_abs_id id)
unfolding split_abs_id
split_abs_id_lem id = split_tail_lem (trim_prefix abs_prefix (trim_space id))
