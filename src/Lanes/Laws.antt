-- ===== src/Lanes/Laws.antt =====
-- What `Build` gathers: the lane of a plan, described on its own.
use frit.Base.{◌≡◌, refl, Bool, true, List, [], ◌∷◌, Memᴰ, sort, insert, arith}
use mathlib.Core.List.Memᴰ
use frit.Lanes.{has_any}

has_any-insert :
    {A : Type 0} (less : A → A → Bool) (x : A) (xs : List A) → has_any (insert less x xs) ≡ true
unfolding insert
has_any-insert less x [] = refl
has_any-insert less x (y ∷ ys) = ground arith

pub has_any-sort :
    {A : Type 0} (less : A → A → Bool) (xs : List A) → has_any (sort less xs) ≡ has_any xs
unfolding sort
has_any-sort less [] = refl
has_any-sort less (x ∷ xs) = has_any-insert less x (sort less xs)
