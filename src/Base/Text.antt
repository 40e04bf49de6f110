-- ===== src/Base/Text.antt =====
-- Prefixes and suffixes of texts, as the program takes them by slicing.
-- Go slices bytes; on UTF-8 texts a byte prefix or suffix that is itself a text is one of characters.
use Prim.Native.Nat.{ℕ, ◌-◌}
use Prim.Native.Char.{Char, code}
use Prim.Native.String.{String, [], ◌∷◌, ◌++◌}
use mathlib.Core.Path.{◌≡◌, refl, sym, ap, ◌∙◌}
use mathlib.Core.Logic.{inl, inr}
use mathlib.Core.Bool.{Bool, true, false, ◌&&◌, ◌||◌}
use mathlib.Core.Option.{Option, none, some}
use native.Mathlib.Omega.{arith}
use text.Mathlib.Text.{◌==◌}
use text.Mathlib.TextEquality.{eq_iff}
use text.Mathlib.TextPositions.{eq_refl}
use text.Mathlib.TextLemmas.{nil-append, cons-append}
use caep_dev.Base.Tests.{eqb, leb, if◌then◌else◌, Bool-cases}

-- `s[len(p):]`, if `s[:len(p)] == p`
unfoldable pub after : String → String → Option String
after [] s = some s
after (c ∷ p) [] = none
after (c ∷ p) (d ∷ s) = if eqb (code c) (code d) then after p s else none

-- `s[len(s)-len(t):] == t`, if `len(s) >= len(t)`
unfoldable pub ends_with : String → String → Bool
ends_with [] t = [] == t
ends_with (c ∷ s) t = (c ∷ s) == t || ends_with s t

pub after-append : (p s : String) → after p (p ++ s) ≡ some s
unfolding after
after-append [] s = rw nil-append
after-append (c ∷ p) s = rw cons-append (ground (arith, after-append p s))

ends_with_self : (s : String) → ends_with s s ≡ true
unfolding ends_with
ends_with_self [] = eq_refl []
ends_with_self (c ∷ s) = ground (arith, eq_refl (c ∷ s))

pub ends_with-append : (s t : String) → ends_with (s ++ t) t ≡ true
unfolding ends_with
ends_with-append [] t = rw nil-append (ends_with_self t)
ends_with-append (c ∷ s) t = rw cons-append (ground (arith, ends_with-append s t))

-- Only a suffix passes.
pub suffix_of_ends_with : (s t : String) → ends_with s t ≡ true → (p : String) × (s ≡ p ++ t)
unfolding ends_with
suffix_of_ends_with [] t h = ([], (eq_iff [] t).0 h ∙ sym (nil-append t))
suffix_of_ends_with (c ∷ s) t h = elim (Bool-cases ((c ∷ s) == t)) [
  | inl whole ↦ ([], (eq_iff (c ∷ s) t).0 whole ∙ sym (nil-append t))
  | inr part ↦
      let (p, e) = suffix_of_ends_with s t (rw part at h) in
      (c ∷ p, ap (λ (r : String). c ∷ r) e ∙ sym (cons-append c p t))
]

-- `unicode.IsSpace`, on a code point
unfoldable pub is_space : ℕ → Bool
is_space c =
    (leb 9 c && leb c 13)
    || (eqb c 32
        || (eqb c 133
            || (eqb c 160
                || (eqb c 5760
                    || ((leb 8192 c && leb c 8202)
                        || (eqb c 8232
                            || (eqb c 8233 || (eqb c 8239 || (eqb c 8287 || eqb c 12288)))))))))

unfoldable pub trim_left : String → String
unfolding is_space
trim_left [] = []
trim_left (c ∷ s) = let rest = trim_left s in if is_space (code c) then rest else c ∷ s

abbrev keep_unless_blank : Bool → Char → String → String
keep_unless_blank true c [] = []
keep_unless_blank _ c s = c ∷ s

unfoldable pub trim_right : String → String
unfolding is_space
trim_right [] = []
trim_right (c ∷ s) = keep_unless_blank (is_space (code c)) c (trim_right s)

-- `strings.TrimSpace`
unfoldable pub trim_space : String → String
unfolding trim_left trim_right
trim_space s = trim_right (trim_left s)

-- `foldRune`, on what can meet an ASCII letter: the letters without case, and the two characters
-- beyond ASCII that fold to k and s
unfoldable pub fold_rune : ℕ → ℕ
fold_rune c =
    if leb 97 c && leb c 122 then c - 32 else if eqb c 8490 then 75 else if eqb c 383 then 83 else c

-- the key and the name, which is ASCII, fold to the same
unfoldable pub same_fold : String → String → Bool
unfolding fold_rune
same_fold [] [] = true
same_fold [] (d ∷ name) = false
same_fold (c ∷ key) [] = false
same_fold (c ∷ key) (d ∷ name) = eqb (fold_rune (code c)) (fold_rune (code d)) && same_fold key name

-- `strings.HasPrefix`
unfoldable pub has_prefix : String → String → Bool
unfolding after
has_prefix s p = elim (after p s) [ some rest ↦ true | none ↦ false ]

-- The text is empty or starts with no blank.
abbrev StartsClean : String → Type 0
StartsClean [] = Unit
StartsClean (c ∷ s) = is_space (code c) ≡ false

trim_left-StartsClean : (s : String) → StartsClean (trim_left s)
unfolding trim_left
trim_left-StartsClean [] = tt
trim_left-StartsClean (c ∷ s) = elim (Bool-cases (is_space (code c))) [
  | inl blank ↦ rw blank (trim_left-StartsClean s)
  | inr clean ↦ rw clean clean
]

trim_left_clean : (s : String) → StartsClean s → trim_left s ≡ s
unfolding trim_left
trim_left_clean [] h = refl
trim_left_clean (c ∷ s) h = rw h refl

trim_right-StartsClean : (s : String) → StartsClean s → StartsClean (trim_right s)
unfolding trim_right
trim_right-StartsClean [] h = tt
trim_right-StartsClean (c ∷ s) h = rw h h

trim_right-keep :
    (b : Bool) (c : Char) (r : String)
    → is_space (code c) ≡ b
    → trim_right r ≡ r
    → trim_right (keep_unless_blank b c r) ≡ keep_unless_blank b c r
unfolding trim_right
trim_right-keep true c [] e h = refl
trim_right-keep true c (d ∷ r) e h = rw (e, h) refl
trim_right-keep false c r e h = rw (e, h) refl

trim_right_again : (s : String) → trim_right (trim_right s) ≡ trim_right s
unfolding trim_right
trim_right_again [] = refl
trim_right_again (c ∷ s) = trim_right-keep _ c (trim_right s) refl (trim_right_again s)

-- A trimmed text has nothing left to trim.
pub trim_space_again : (s : String) → trim_space (trim_space s) ≡ trim_space s
unfolding trim_space
trim_space_again s =
    ap trim_right (
      trim_left_clean (trim_right (trim_left s))
        (trim_right-StartsClean (trim_left s) (trim_left-StartsClean s)))
    ∙ trim_right_again (trim_left s)
