-- ===== src/Base/Lists.antt =====
-- Lists measured and filtered by native numbers and Boolean tests, with membership that can be
-- matched (the library's `Memᴰ`).
use Prim.Native.Nat.{ℕ, zero, suc, ◌+◌, ◌≤◌}
use mathlib.Core.Path.{◌≡◌, refl, ap, subst, sym, ◌∙◌}
use mathlib.Core.Logic.{inl, inr}
use mathlib.Core.Bool.{Bool, true, false}
use mathlib.Core.Option.{Option, none, some}
use mathlib.Core.List.Memᴰ
use mathlib.Core.List.{List, [], ◌∷◌, ◌++◌, Memᴰ, map}
use native.Mathlib.Omega.{arith}
use frit.Base.Tests.{if◌then◌else◌, Bool-cases, Option-cases}

module _ {ℓ} {A : Type ℓ} where
  abbrev pub length : List A → ℕ
  length [] = 0
  length (x ∷ xs) = suc (length xs)

  abbrev pub take : ℕ → List A → List A
  take zero xs = []
  take (suc n) [] = []
  take (suc n) (x ∷ xs) = x ∷ take n xs

  abbrev pub drop : ℕ → List A → List A
  drop zero xs = xs
  drop (suc n) [] = []
  drop (suc n) (x ∷ xs) = drop n xs

  pub length-append : (xs ys : List A) → length (xs ++ ys) ≡ length xs + length ys
  length-append [] ys = omega arith
  length-append (x ∷ xs) ys = omega (arith, length-append xs ys)

  pub length-take : (n : ℕ) (xs : List A) → length (take n xs) ≤ n
  length-take zero xs = omega arith
  length-take (suc n) [] = omega arith
  length-take (suc n) (x ∷ xs) = omega (arith, length-take n xs)

  pub length-take_full : (n : ℕ) (xs : List A) → n ≤ length xs → length (take n xs) ≡ n
  length-take_full zero xs h = refl
  length-take_full (suc n) [] h = omega (arith, h)
  length-take_full (suc n) (x ∷ xs) h = omega (arith, length-take_full n xs)

  pub take-append-drop : (n : ℕ) (xs : List A) → take n xs ++ drop n xs ≡ xs
  take-append-drop zero xs = refl
  take-append-drop (suc n) [] = refl
  take-append-drop (suc n) (x ∷ xs) = ap (λ l. x ∷ l) (take-append-drop n xs)

  -- The loop `for … { if test { out = append(out, x) } }`.
  abbrev pub keep : (A → Bool) → List A → List A
  keep p [] = []
  keep p (x ∷ xs) = let rest = keep p xs in if p x then x ∷ rest else rest

  -- The loop that appends what a reading of each element gives, where it gives anything.
  abbrev pub filter_map {κ} : {B : Type κ} → (A → Option B) → List A → List B
  filter_map read [] = []
  filter_map read (x ∷ xs) =
      let rest = filter_map read xs in elim (read x) [ none ↦ rest | some y ↦ y ∷ rest ]

  -- The loop that appends a list for each element.
  abbrev pub concat_map {κ} : {B : Type κ} → (A → List B) → List A → List B
  concat_map f [] = []
  concat_map f (x ∷ xs) = f x ++ concat_map f xs

  -- The loop that returns true at the first element that passes.
  abbrev pub any : (A → Bool) → List A → Bool
  any p [] = false
  any p (x ∷ xs) = if p x then true else any p xs

  -- The loop that returns false at the first element that does not pass.
  abbrev pub all : (A → Bool) → List A → Bool
  all p [] = true
  all p (x ∷ xs) = if p x then all p xs else false

  pub mem-keep : (p : A → Bool) {x : A} (xs : List A) → Memᴰ x xs → p x ≡ true → Memᴰ x (keep p xs)
  mem-keep p [] m t = elim m [ ]
  mem-keep p (y ∷ ys) (Memᴰ.head e) t = rw (subst (λ z. p z ≡ true) e t) (Memᴰ.head e)
  mem-keep p (y ∷ ys) (Memᴰ.tail m) t = elim (Bool-cases (p y)) [
    | inl h ↦ rw h (Memᴰ.tail (mem-keep p ys m t))
    | inr h ↦ rw h (mem-keep p ys m t)
  ]

  pub mem_of_mem-keep :
      (p : A → Bool) {x : A} (xs : List A) → Memᴰ x (keep p xs) → Memᴰ x xs × (p x ≡ true)
  mem_of_mem-keep p [] m = elim m [ ]
  mem_of_mem-keep p {x} (y ∷ ys) m = elim (Bool-cases (p y)) [
    | inl h ↦ kept h (mem_of_mem-keep p ys) (rw h at m)
    | inr h ↦ let (m', t) = mem_of_mem-keep p ys (rw h at m) in (Memᴰ.tail m', t)
  ]
    where
      kept :
          p y ≡ true
          → (Memᴰ x (keep p ys) → Memᴰ x ys × (p x ≡ true))
          → Memᴰ x (y ∷ keep p ys)
          → Memᴰ x (y ∷ ys) × (p x ≡ true)
      kept h ih (Memᴰ.head e) = (Memᴰ.head e, subst (λ z. p z ≡ true) (sym e) h)
      kept h ih (Memᴰ.tail m') = let (m'', t) = ih m' in (Memᴰ.tail m'', t)

  pub any-true : (p : A → Bool) (xs : List A) → any p xs ≡ true → (x : A) × Memᴰ x xs × (p x ≡ true)
  any-true p [] h = absurd (cc)
  any-true p (y ∷ ys) h = elim (Bool-cases (p y)) [
    | inl t ↦ (y, Memᴰ.head refl, t)
    | inr f ↦ let (x, m, t) = any-true p ys (rw f at h) in (x, Memᴰ.tail m, t)
  ]

  pub length-keep : (p : A → Bool) (xs : List A) → length (keep p xs) ≤ length xs
  length-keep p [] = omega arith
  length-keep p (y ∷ ys) = ground (arith, length-keep p ys)

  pub any_of_mem : (p : A → Bool) {x : A} (xs : List A) → Memᴰ x xs → p x ≡ true → any p xs ≡ true
  any_of_mem p [] m t = elim m [ ]
  any_of_mem p (y ∷ ys) (Memᴰ.head e) t = rw (subst (λ z. p z ≡ true) e t)
  any_of_mem p (y ∷ ys) (Memᴰ.tail m) t = ground (arith, any_of_mem p ys m t)

  pub all-mem : (p : A → Bool) {x : A} (xs : List A) → all p xs ≡ true → Memᴰ x xs → p x ≡ true
  all-mem p [] h m = elim m [ ]
  all-mem p (y ∷ ys) h (Memᴰ.head e) = subst (λ z. p z ≡ true) (sym e) (ground arith)
  all-mem p (y ∷ ys) h (Memᴰ.tail m) = all-mem p ys (ground arith) m

  pub all_of : (p : A → Bool) (xs : List A) → ((x : A) → Memᴰ x xs → p x ≡ true) → all p xs ≡ true
  all_of p [] h = refl
  all_of p (y ∷ ys) h = rw (h y (Memᴰ.head refl)) (all_of p ys (λ x m. h x (Memᴰ.tail m)))

  pub any-append :
      (p : A → Bool) (xs ys : List A)
      → any p xs ≡ false
      → any p ys ≡ false
      → any p (xs ++ ys) ≡ false
  any-append p [] ys h k = k
  any-append p (x ∷ xs) ys h k = ground (arith, any-append p xs ys)

module _ {ℓ κ} {A : Type ℓ} {B : Type κ} where
  pub mem_of_mem-map :
      (f : A → B) (y : B) (xs : List A) → Memᴰ y (map f xs) → (x : A) × Memᴰ x xs × (y ≡ f x)
  mem_of_mem-map f y [] m = elim m [ ]
  mem_of_mem-map f y (x ∷ xs) (Memᴰ.head e) = (x, Memᴰ.head refl, e)
  mem_of_mem-map f y (x ∷ xs) (Memᴰ.tail m) =
      let (z, m', e) = mem_of_mem-map f y xs m in (z, Memᴰ.tail m', e)

  pub mem_of_mem-filter_map :
      (f : A → Option B) (y : B) (xs : List A)
      → Memᴰ y (filter_map f xs)
      → (x : A) × Memᴰ x xs × (f x ≡ some y)
  mem_of_mem-filter_map f y [] m = elim m [ ]
  mem_of_mem-filter_map f y (x ∷ xs) m = elim (Option-cases (f x)) [
    | inl e ↦
        let (z, m', k) = mem_of_mem-filter_map f y xs (rw (e, filter_map) at m) in
        (z, Memᴰ.tail m', k)
    | inr (b, e) ↦ found b e (mem_of_mem-filter_map f y xs) (rw (e, filter_map) at m)
  ]
    where
      found :
          (b : B)
          → f x ≡ some b
          → (Memᴰ y (filter_map f xs) → (z : A) × Memᴰ z xs × (f z ≡ some y))
          → Memᴰ y (b ∷ filter_map f xs)
          → (z : A) × Memᴰ z (x ∷ xs) × (f z ≡ some y)
      found b e ih (Memᴰ.head k) = (x, Memᴰ.head refl, e ∙ ap some (sym k))
      found b e ih (Memᴰ.tail m') = let (z, n, k) = ih m' in (z, Memᴰ.tail n, k)

  pub mem-filter_map :
      (f : A → Option B) (x : A) (y : B) (xs : List A)
      → Memᴰ x xs
      → f x ≡ some y
      → Memᴰ y (filter_map f xs)
  mem-filter_map f x y [] m h = elim m [ ]
  mem-filter_map f x y (z ∷ zs) (Memᴰ.head e) h = rw (ap f (sym e) ∙ h, filter_map) (Memᴰ.head refl)
  mem-filter_map f x y (z ∷ zs) (Memᴰ.tail m) h = elim (Option-cases (f z)) [
    | inl e ↦ rw (e, filter_map) (mem-filter_map f x y zs m h)
    | inr (b, e) ↦ rw (e, filter_map) (Memᴰ.tail (mem-filter_map f x y zs m h))
  ]

  pub mem_of_mem-concat_map :
      (f : A → List B) (y : B) (xs : List A)
      → Memᴰ y (concat_map f xs)
      → (x : A) × Memᴰ x xs × Memᴰ y (f x)
  mem_of_mem-concat_map f y [] m = elim m [ ]
  mem_of_mem-concat_map f y (x ∷ xs) m = elim (Memᴰ.append_cases (f x) m) [
    | inl n ↦ (x, Memᴰ.head refl, n)
    | inr n ↦ let (z, m', k) = mem_of_mem-concat_map f y xs n in (z, Memᴰ.tail m', k)
  ]
