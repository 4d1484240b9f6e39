-- ===== src/Base/Strings/Decimal.antt =====
-- The `%d` verb, `strconv.Atoi` and `strconv.ParseInt`: on numbers that are not negative, and on the
-- 64-bit words of an int in two's complement.
use Prim.Native.Nat.{ℕ, zero, suc, ◌+◌, ◌-◌, ◌*◌, ◌/◌, ◌%◌, ◌<◌, ◌≤◌}
use mathlib.Core.Path.{◌≡◌, refl, ◌∙◌}
use mathlib.Core.Bool.{Bool, true, false, ◌&&◌, not}
use mathlib.Core.List.{[], ◌∷◌, ◌++◌}
use mathlib.Core.Logic.{inl, inr}
use mathlib.Core.Option.{Option, none, some}
use native.Mathlib.Omega.{arith}
use frit.Base.Tests.{ltb, leb, ◌==◌, if◌then◌else◌, Bool-cases}
use frit.Base.Strings.{Text, is_empty, Lacks, is_space, trim_space}
use frit.Base.Lists.{any, any-append}
use frit.Base.Strings.Laws.{trim_space_of_no_space}

-- The digits of `n`, with more fuel than `n` has digits.
digits_from : ℕ → ℕ → Text
digits_from zero n = []
digits_from (suc fuel) n =
    let front = digits_from fuel (n / 10) in
    if ltb n 10 then (48 + n) ∷ [] else front ++ (48 + n % 10) ∷ []

-- `fmt.Sprintf("%d", n)`
unfoldable pub decimal : ℕ → Text
unfolding digits_from
decimal n = digits_from (suc n) n

unfoldable pub is_digit : ℕ → Bool
is_digit c = leb 48 c && leb c 57

-- The value of a run of digits behind those read so far.
unfoldable pub read_from : ℕ → Text → Option ℕ
unfolding is_digit
read_from value [] = some value
read_from value (c ∷ cs) =
    let rest = read_from (value * 10 + (c - 48)) cs in if is_digit c then rest else none

abbrev pub max_int64 : ℕ
max_int64 = 9223372036854775807

abbrev pub read_digits : Text → Option ℕ
read_digits s = if is_empty s then none else read_from 0 s

-- A value past the largest int64 is an error.
abbrev pub in_range : Option ℕ → Option ℕ
in_range none = none
in_range (some n) = if leb n max_int64 then some n else none

-- `-0` alone of the texts with a minus sign is not negative.
abbrev pub negated : Option ℕ → Option ℕ
negated none = none
negated (some n) = if n == 0 then some 0 else none

-- `strconv.ParseInt(s, 10, 64)` and `strconv.Atoi` on a 64-bit machine, where the value is not
-- negative; `none` is an error, or a negative value.
unfoldable pub parse_int : Text → Option ℕ
unfolding read_from
parse_int [] = none
parse_int (c ∷ cs) =
    if c == 43
    then in_range (read_digits cs)
    else if c == 45
    then negated (read_digits cs)
    else in_range (read_digits (c ∷ cs))

-- `fmt.Sprintf("%d", n)` of an int, given as its word.
abbrev pub int_text : ℕ → Text
int_text w = if leb w max_int64 then decimal w else 45 ∷ decimal (18446744073709551616 - w)

-- The word of a number below zero, which is an error past the smallest int64.
abbrev pub word_below : Option ℕ → Option ℕ
word_below none = none
word_below (some n) =
    if n == 0
    then some 0
    else if leb n (max_int64 + 1)
    then some (18446744073709551616 - n)
    else none

-- `strconv.Atoi`, as the word of the int; `none` is an error.
unfoldable pub parse_word : Text → Option ℕ
unfolding read_from
parse_word [] = none
parse_word (c ∷ cs) =
    if c == 43
    then in_range (read_digits cs)
    else if c == 45
    then word_below (read_digits cs)
    else in_range (read_digits (c ∷ cs))

read_from-append :
    (value : ℕ) (s : Text) (d : ℕ) {n : ℕ}
    → d < 10
    → read_from value s ≡ some n
    → read_from value (s ++ (48 + d) ∷ []) ≡ some (n * 10 + d)
unfolding read_from
read_from-append value [] d h e = ground arith
read_from-append value (c ∷ cs) d {n} h e =
    ground (arith, read_from-append (value * 10 + (c - 48)) cs d {n = n})

read_from-digits_from : (fuel n : ℕ) → n < fuel → read_from 0 (digits_from fuel n) ≡ some n
unfolding digits_from
read_from-digits_from zero n h = elim h [ ]
read_from-digits_from (suc fuel) n h = elim (Bool-cases (ltb n 10)) [
  | inl small ↦ rw small (unfold read_from in ground arith)
  | inr big ↦ rw big (
      read_from-append 0 (digits_from fuel (n / 10)) (n % 10) (omega arith)
        (read_from-digits_from fuel (n / 10) (ground arith))
      ∙ ground arith)
]

pub read_from-decimal : (n : ℕ) → read_from 0 (decimal n) ≡ some n
unfolding decimal
read_from-decimal n = read_from-digits_from (suc n) n (omega arith)

-- The first character of a printed number is a digit, and there is one.
abbrev StartsWithDigit : Text → Type 0
StartsWithDigit [] = ⊥
StartsWithDigit (c ∷ cs) = is_digit c ≡ true

StartsWithDigit-append : (s t : Text) → StartsWithDigit s → StartsWithDigit (s ++ t)
StartsWithDigit-append [] t h = absurd h
StartsWithDigit-append (c ∷ s) t h = h

digits_from-StartsWithDigit : (fuel n : ℕ) → n < fuel → StartsWithDigit (digits_from fuel n)
unfolding digits_from is_digit
digits_from-StartsWithDigit zero n h = elim h [ ]
digits_from-StartsWithDigit (suc fuel) n h = elim (Bool-cases (ltb n 10)) [
  | inl small ↦ rw small (ground arith)
  | inr big ↦ rw big (
      StartsWithDigit-append (digits_from fuel (n / 10)) _
        (digits_from-StartsWithDigit fuel (n / 10) (ground arith)))
]

parse_int-eq :
    (s : Text) {n : ℕ}
    → StartsWithDigit s
    → read_from 0 s ≡ some n
    → n ≤ max_int64
    → parse_int s ≡ some n
unfolding parse_int is_digit
parse_int-eq [] d e h = absurd d
parse_int-eq (c ∷ cs) d e h = ground arith

pub parse_int-decimal : (n : ℕ) → n ≤ max_int64 → parse_int (decimal n) ≡ some n
unfolding decimal
parse_int-decimal n h =
    parse_int-eq (decimal n) (digits_from-StartsWithDigit (suc n) n (omega arith))
      (read_from-decimal n) h

parse_word-eq :
    (s : Text) {n : ℕ}
    → StartsWithDigit s
    → read_from 0 s ≡ some n
    → n ≤ max_int64
    → parse_word s ≡ some n
unfolding parse_word is_digit
parse_word-eq [] d e h = absurd d
parse_word-eq (c ∷ cs) d e h = ground arith

pub parse_word-decimal : (n : ℕ) → n ≤ max_int64 → parse_word (decimal n) ≡ some n
unfolding decimal
parse_word-decimal n h =
    parse_word-eq (decimal n) (digits_from-StartsWithDigit (suc n) n (omega arith))
      (read_from-decimal n) h

pub int_text-decimal : (n : ℕ) → n ≤ max_int64 → int_text n ≡ decimal n
int_text-decimal n h = ground arith

starts_there : (s : Text) → StartsWithDigit s → is_empty s ≡ false
starts_there [] h = absurd h
starts_there (c ∷ s) h = refl

digits_from-any :
    (p : ℕ → Bool) (fuel n : ℕ)
    → ((d : ℕ) → d < 10 → p (48 + d) ≡ false)
    → any p (digits_from fuel n) ≡ false
unfolding digits_from
digits_from-any p zero n h = refl
digits_from-any p (suc fuel) n h = elim (Bool-cases (ltb n 10)) [
  | inl small ↦ rw small (rw (h n (ground arith)))
  | inr big ↦ rw big (
      any-append p (digits_from fuel (n / 10)) _ (digits_from-any p fuel (n / 10) h)
        (rw (h (n % 10) (omega arith))))
]

-- A printed number has digits alone.
pub decimal-Lacks : (c n : ℕ) → c < 48 → Lacks c (decimal n)
unfolding decimal
decimal-Lacks c n h = digits_from-any (λ x. x == c) (suc n) n (λ d k. ground arith)

pub decimal-digits : (n : ℕ) → any (λ c. not (is_digit c)) (decimal n) ≡ false
unfolding decimal is_digit
decimal-digits n = digits_from-any (λ c. not (is_digit c)) (suc n) n (λ d k. ground arith)

pub decimal_there : (n : ℕ) → is_empty (decimal n) ≡ false
unfolding decimal
decimal_there n = starts_there (decimal n) (digits_from-StartsWithDigit (suc n) n (omega arith))

pub decimal-spaceless : (n : ℕ) → any is_space (decimal n) ≡ false
unfolding decimal is_space
decimal-spaceless n = digits_from-any is_space (suc n) n (λ d k. ground arith)

pub trim_space-decimal : (n : ℕ) → trim_space (decimal n) ≡ decimal n
trim_space-decimal n = trim_space_of_no_space (decimal n) (decimal-spaceless n)

sample : decimal 2608300937 ≡ 50 ∷ 54 ∷ 48 ∷ 56 ∷ 51 ∷ 48 ∷ 48 ∷ 57 ∷ 51 ∷ 55 ∷ []
unfolding decimal
sample = refl
