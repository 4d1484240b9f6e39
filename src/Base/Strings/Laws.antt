-- ===== src/Base/Strings/Laws.antt =====
-- The laws of the tests and operations on texts.
use Prim.Native.Nat.{ℕ}
use mathlib.Core.Path.{◌≡◌, refl, sym, ap, ◌∙◌}
use mathlib.Core.Bool.{Bool, true, false}
use mathlib.Core.List.{[], ◌∷◌, ◌++◌}
use mathlib.Core.Logic.{◌↔◌}
use mathlib.Core.Option.{some}
use native.Mathlib.Omega.{arith}
use frit.Base.Lists.{any}
use frit.Base.Strings.{
  fields, fields_from, is_empty, is_space, trim_right, trim_space, Text, text_eq, text_ltb,
  cut_prefix, Lacks, split, cut,
}

pub text_eq_refl : (s : Text) → text_eq s s ≡ true
unfolding text_eq
text_eq_refl [] = refl
text_eq_refl (x ∷ xs) = ground (arith, text_eq_refl xs)

pub eq_of_text_eq : (s t : Text) → text_eq s t ≡ true → s ≡ t
unfolding text_eq
eq_of_text_eq [] [] h = refl
eq_of_text_eq [] (y ∷ ys) h = cc
eq_of_text_eq (x ∷ xs) [] h = cc
eq_of_text_eq (x ∷ xs) (y ∷ ys) h = ground (arith, eq_of_text_eq xs ys)

pub text_eq_iff : (s t : Text) → (text_eq s t ≡ true) ↔ (s ≡ t)
text_eq_iff s t = (eq_of_text_eq s t, λ e. ap (text_eq s) (sym e) ∙ text_eq_refl s)

pub text_ltb_irrefl : (s : Text) → text_ltb s s ≡ false
unfolding text_ltb
text_ltb_irrefl [] = refl
text_ltb_irrefl (x ∷ xs) = ground (arith, text_ltb_irrefl xs)

pub text_ltb_asym : (s t : Text) → text_ltb s t ≡ true → text_ltb t s ≡ false
unfolding text_ltb
text_ltb_asym [] [] h = refl
text_ltb_asym [] (y ∷ ys) h = refl
text_ltb_asym (x ∷ xs) [] h = cc
text_ltb_asym (x ∷ xs) (y ∷ ys) h = ground (arith, text_ltb_asym xs ys)

-- Two texts of which neither is less are equal.
pub text_ltb_total : (s t : Text) → text_ltb s t ≡ false → text_ltb t s ≡ false → s ≡ t
unfolding text_ltb
text_ltb_total [] [] h k = refl
text_ltb_total [] (y ∷ ys) h k = cc
text_ltb_total (x ∷ xs) [] h k = cc
text_ltb_total (x ∷ xs) (y ∷ ys) h k = ground (arith, text_ltb_total xs ys)

pub text_ltb_trans :
    (s t u : Text) → text_ltb s t ≡ true → text_ltb t u ≡ true → text_ltb s u ≡ true
unfolding text_ltb
text_ltb_trans [] [] u h k = cc
text_ltb_trans [] (y ∷ ys) [] h k = cc
text_ltb_trans [] (y ∷ ys) (z ∷ zs) h k = refl
text_ltb_trans (x ∷ xs) [] u h k = cc
text_ltb_trans (x ∷ xs) (y ∷ ys) [] h k = cc
text_ltb_trans (x ∷ xs) (y ∷ ys) (z ∷ zs) h k = ground (arith, text_ltb_trans xs ys zs)

cut_prefix-nil : (s : Text) → cut_prefix s [] ≡ some s
unfolding cut_prefix
cut_prefix-nil [] = refl
cut_prefix-nil (x ∷ s) = refl

pub cut_prefix-append : (p s : Text) → cut_prefix (p ++ s) p ≡ some s
unfolding cut_prefix
cut_prefix-append [] s = cut_prefix-nil s
cut_prefix-append (x ∷ p) s = ground (arith, cut_prefix-append p s)

pub cut_prefix-eq : (s p : Text) {rest : Text} → cut_prefix s p ≡ some rest → s ≡ p ++ rest
unfolding cut_prefix
cut_prefix-eq [] [] e = cc
cut_prefix-eq (x ∷ s) [] e = cc
cut_prefix-eq [] (y ∷ p) e = cc
cut_prefix-eq (x ∷ s) (y ∷ p) {rest} e = ground (arith, cut_prefix-eq s p {rest = rest})

-- Trimming leaves a text with no space alone.
trim_right_of_no_space : (s : Text) → any is_space s ≡ false → trim_right s ≡ s
unfolding trim_right
trim_right_of_no_space [] h = refl
trim_right_of_no_space (x ∷ s) h = ground (arith, trim_right_of_no_space s)

pub trim_space_of_no_space : (s : Text) → any is_space s ≡ false → trim_space s ≡ s
unfolding trim_space
trim_space_of_no_space [] h = refl
trim_space_of_no_space (x ∷ s) h = ground (arith, trim_right_of_no_space (x ∷ s))

-- A separator ends the first piece of a text that lacks it.
pub split-append : (c : ℕ) (s t : Text) → Lacks c s → split c (s ++ c ∷ t) ≡ s ∷ split c t
unfolding split
split-append c [] t h = ground arith
split-append c (x ∷ s) t h = ground (arith, split-append c s t)

pub split-lacking : (c : ℕ) (s : Text) → Lacks c s → split c s ≡ s ∷ []
unfolding split
split-lacking c [] h = refl
split-lacking c (x ∷ s) h = ground (arith, split-lacking c s)

-- `strings.Cut` at a separator that what stands before it lacks.
pub cut-append : (c : ℕ) (s t : Text) → Lacks c s → cut c (s ++ c ∷ t) ≡ some (s, t)
unfolding cut
cut-append c [] t h = ground arith
cut-append c (x ∷ s) t h = ground (arith, cut-append c s t)

-- A text that is one field of its own.
pub record IsWord (s : Text) : Type 0 where
  pub there : is_empty s ≡ false
  pub spaceless : any is_space s ≡ false

-- A space ends the first field of a text that begins with a word.
fields_from-append :
    (begun : Bool) (w t : Text)
    → is_empty w ≡ false
    → any is_space w ≡ false
    → fields_from begun (w ++ 32 ∷ t) ≡ w ∷ fields_from false t
unfolding fields_from is_space
fields_from-append begun [] t h k = absurd (cc)
fields_from-append begun (x ∷ []) t h k = ground arith
fields_from-append begun (x ∷ y ∷ w) t h k = ground (arith, fields_from-append true (y ∷ w) t)

fields_from-word :
    (begun : Bool) (w : Text)
    → is_empty w ≡ false
    → any is_space w ≡ false
    → fields_from begun w ≡ w ∷ []
unfolding fields_from is_space
fields_from-word begun [] h k = absurd (cc)
fields_from-word begun (x ∷ []) h k = ground arith
fields_from-word begun (x ∷ y ∷ w) h k = ground (arith, fields_from-word true (y ∷ w))

pub fields-append : (w t : Text) → IsWord w → fields (w ++ 32 ∷ t) ≡ w ∷ fields t
unfolding fields
fields-append w t h = fields_from-append false w t h.there h.spaceless

pub fields-word : (w : Text) → IsWord w → fields w ≡ w ∷ []
unfolding fields
fields-word w h = fields_from-word false w h.there h.spaceless
