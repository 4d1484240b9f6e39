-- ===== src/Base/Sort.antt =====
-- `sort.SliceStable` and `sort.Slice` of the standard library: a stable insertion sort by a Boolean
-- `less`. For `SliceStable` the result is determined; for `Slice` it is one admissible result.
use mathlib.Core.Path.{◌≡◌, refl, sym, subst}
use mathlib.Core.Bool.{Bool, true, false}
use mathlib.Core.List.Perm
use mathlib.Core.List.Memᴰ
use mathlib.Core.List.{List, [], ◌∷◌, ◌++◌, Memᴰ, Perm}
use native.Mathlib.Omega.{arith}
use mathlib.Core.Logic.{inl, inr}
use Prim.Native.Nat.{suc}
use frit.Base.Tests.{if◌then◌else◌, Bool-cases}
use frit.Base.Lists.{length, keep}

-- A strict weak order, in the form the sorts rely on: `¬ (y < x)` is transitive, `<` is asymmetric.
pub record IsWeakOrder {ℓ} {A : Type ℓ} (less : A → A → Bool) : Type ℓ where
  pub asym : (x y : A) → less x y ≡ true → less y x ≡ false
  pub trans : (x y z : A) → less y x ≡ false → less z y ≡ false → less z x ≡ false

-- Each element stands in the relation to all that come behind it.
abbrev pub IsOrdered {ℓ} : {A : Type ℓ} → (A → A → Type 0) → List A → Type ℓ
IsOrdered R [] = Unit
IsOrdered {A} R (x ∷ xs) = ((y : A) → Memᴰ y xs → R x y) × IsOrdered R xs

module _ {ℓ} {A : Type ℓ} (less : A → A → Bool) where
  -- Inserts before the first element that `x` is not placed behind.
  unfoldable pub insert : A → List A → List A
  insert x [] = x ∷ []
  insert x (y ∷ ys) = let rest = insert x ys in if less y x then y ∷ rest else x ∷ y ∷ ys

  unfoldable pub sort : List A → List A
  unfolding insert
  sort [] = []
  sort (x ∷ xs) = insert x (sort xs)

  -- No element stands behind one that it is less than.
  abbrev pub AllNotLess : A → List A → Type 0
  AllNotLess x [] = Unit
  AllNotLess x (y ∷ ys) = (less y x ≡ false) × AllNotLess x ys

  abbrev pub IsSorted : List A → Type 0
  IsSorted [] = Unit
  IsSorted (x ∷ xs) = AllNotLess x xs × IsSorted xs

  pub insert-perm : (x : A) (xs : List A) → Perm (insert x xs) (x ∷ xs)
  unfolding insert
  insert-perm x [] = Perm.refl _
  insert-perm x (y ∷ ys) = elim (Bool-cases (less y x)) [
    | inl h ↦ rw h (Perm.trans (Perm.cons y (insert-perm x ys)) (Perm.swap x y ys))
    | inr h ↦ rw h (Perm.refl _)
  ]

  pub sort-perm : (xs : List A) → Perm (sort xs) xs
  unfolding sort
  sort-perm [] = Perm.refl _
  sort-perm (x ∷ xs) = Perm.trans (insert-perm x (sort xs)) (Perm.cons x (sort-perm xs))

  mem_of_mem-insert : {z : A} (x : A) (xs : List A) → Memᴰ z (insert x xs) → Memᴰ z (x ∷ xs)
  unfolding insert
  mem_of_mem-insert x [] m = m
  mem_of_mem-insert {z} x (y ∷ ys) m = elim (Bool-cases (less y x)) [
    | inl h ↦ behind (mem_of_mem-insert x ys) (rw h at m)
    | inr h ↦ rw h at m
  ]
    where
      swap : Memᴰ z (x ∷ ys) → Memᴰ z (x ∷ y ∷ ys)
      swap (Memᴰ.head e) = Memᴰ.head e
      swap (Memᴰ.tail m') = Memᴰ.tail (Memᴰ.tail m')

      behind :
          (Memᴰ z (insert x ys) → Memᴰ z (x ∷ ys)) → Memᴰ z (y ∷ insert x ys) → Memᴰ z (x ∷ y ∷ ys)
      behind ih (Memᴰ.head e) = Memᴰ.tail (Memᴰ.head e)
      behind ih (Memᴰ.tail m') = swap (ih m')

  mem-insert : {z : A} (x : A) (xs : List A) → Memᴰ z (x ∷ xs) → Memᴰ z (insert x xs)
  unfolding insert
  mem-insert x [] m = m
  mem-insert {z} x (y ∷ ys) m = elim (Bool-cases (less y x)) [
    | inl h ↦ rw h (behind (mem-insert x ys) m)
    | inr h ↦ rw h m
  ]
    where
      behind :
          (Memᴰ z (x ∷ ys) → Memᴰ z (insert x ys)) → Memᴰ z (x ∷ y ∷ ys) → Memᴰ z (y ∷ insert x ys)
      behind ih (Memᴰ.head e) = Memᴰ.tail (ih (Memᴰ.head e))
      behind ih (Memᴰ.tail (Memᴰ.head e)) = Memᴰ.head e
      behind ih (Memᴰ.tail (Memᴰ.tail m')) = Memᴰ.tail (ih (Memᴰ.tail m'))

  pub mem_of_mem-sort : {z : A} (xs : List A) → Memᴰ z (sort xs) → Memᴰ z xs
  unfolding sort
  mem_of_mem-sort [] m = m
  mem_of_mem-sort {z} (x ∷ xs) m = go (mem_of_mem-sort xs) (mem_of_mem-insert x (sort xs) m)
    where
      go : (Memᴰ z (sort xs) → Memᴰ z xs) → Memᴰ z (x ∷ sort xs) → Memᴰ z (x ∷ xs)
      go ih (Memᴰ.head e) = Memᴰ.head e
      go ih (Memᴰ.tail m') = Memᴰ.tail (ih m')

  pub mem-sort : {z : A} (xs : List A) → Memᴰ z xs → Memᴰ z (sort xs)
  unfolding sort
  mem-sort [] m = m
  mem-sort (x ∷ xs) (Memᴰ.head e) = mem-insert x (sort xs) (Memᴰ.head e)
  mem-sort (x ∷ xs) (Memᴰ.tail m) = mem-insert x (sort xs) (Memᴰ.tail (mem-sort xs m))

  pub length-insert : (x : A) (xs : List A) → length (insert x xs) ≡ suc (length xs)
  unfolding insert
  length-insert x [] = refl
  length-insert x (y ∷ ys) = ground (arith, length-insert x ys)

  pub length-sort : (xs : List A) → length (sort xs) ≡ length xs
  unfolding sort
  length-sort [] = refl
  length-sort (x ∷ xs) = omega (arith, length-insert x (sort xs), length-sort xs)

  -- Elements that a test selects and that are not less than one another keep their order.
  keep-insert :
      (q : A → Bool)
      → ((y z : A) → q y ≡ true → q z ≡ true → less y z ≡ false)
      → (x : A) (xs : List A) → keep q (insert x xs) ≡ keep q (x ∷ xs)
  unfolding insert
  keep-insert q alike x [] = refl
  keep-insert q alike x (y ∷ ys) = ground (arith, keep-insert q alike x ys, alike y x)

  pub keep-sort :
      (q : A → Bool)
      → ((y z : A) → q y ≡ true → q z ≡ true → less y z ≡ false)
      → (xs : List A) → keep q (sort xs) ≡ keep q xs
  unfolding sort
  keep-sort q alike [] = refl
  keep-sort q alike (x ∷ xs) = rw (keep-insert q alike x (sort xs), keep-sort q alike xs)

  pub AllNotLess-mem : (x y : A) (xs : List A) → AllNotLess x xs → Memᴰ y xs → less y x ≡ false
  AllNotLess-mem x y [] a m = elim m [ ]
  AllNotLess-mem x y (z ∷ zs) (h, a) (Memᴰ.head e) = subst (λ w. less w x ≡ false) (sym e) h
  AllNotLess-mem x y (z ∷ zs) (h, a) (Memᴰ.tail m) = AllNotLess-mem x y zs a m

  -- In a sorted list nothing behind a cut is less than anything before it.
  pub IsSorted-append :
      (xs ys : List A) (p q : A) → IsSorted (xs ++ ys) → Memᴰ p xs → Memᴰ q ys → less q p ≡ false
  IsSorted-append [] ys p q s m n = elim m [ ]
  IsSorted-append (x ∷ xs) ys p q (a, s) (Memᴰ.head e) n =
      subst (λ w. less q w ≡ false) (sym e)
        (AllNotLess-mem x q (xs ++ ys) a (Memᴰ.append_right xs n))
  IsSorted-append (x ∷ xs) ys p q (a, s) (Memᴰ.tail m) n = IsSorted-append xs ys p q s m n

  -- A sorted list stands in every order that follows from what `less` denies.
  pub IsSorted-IsOrdered :
      (R : A → A → Type 0)
      → ((x y : A) → less y x ≡ false → R x y)
      → (xs : List A) → IsSorted xs
      → IsOrdered R xs
  IsSorted-IsOrdered R follows [] s = tt
  IsSorted-IsOrdered R follows (x ∷ xs) (a, s) =
      (λ y m. follows x y (AllNotLess-mem x y xs a m), IsSorted-IsOrdered R follows xs s)

  module _ (order : IsWeakOrder less) where
    open order use {asym, trans}

    AllNotLess-trans :
        (x y : A) (ys : List A) → less y x ≡ false → AllNotLess y ys → AllNotLess x ys
    AllNotLess-trans x y [] h a = tt
    AllNotLess-trans x y (z ∷ zs) h (a, as') = (trans x y z h a, AllNotLess-trans x y zs h as')

    AllNotLess-insert :
        (w x : A) (xs : List A) → less x w ≡ false → AllNotLess w xs → AllNotLess w (insert x xs)
    unfolding insert
    AllNotLess-insert w x [] h a = (h, tt)
    AllNotLess-insert w x (y ∷ ys) h (a, as') = elim (Bool-cases (less y x)) [
      | inl e ↦ rw e (a, AllNotLess-insert w x ys h as')
      | inr e ↦ rw e (h, (a, as'))
    ]

    insert-IsSorted : (x : A) (xs : List A) → IsSorted xs → IsSorted (insert x xs)
    unfolding insert
    insert-IsSorted x [] s = (tt, tt)
    insert-IsSorted x (y ∷ ys) (a, s) = elim (Bool-cases (less y x)) [
      | inl e ↦ rw e (AllNotLess-insert y x ys (asym y x e) a, insert-IsSorted x ys s)
      | inr e ↦ rw e ((e, AllNotLess-trans x y ys e a), (a, s))
    ]

    pub sort-IsSorted : (xs : List A) → IsSorted (sort xs)
    unfolding sort
    sort-IsSorted [] = tt
    sort-IsSorted (x ∷ xs) = insert-IsSorted x (sort xs) (sort-IsSorted xs)
