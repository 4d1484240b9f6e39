-- ===== src/Repocfg/Pattern.antt =====
-- internal/repocfg/pattern.go: a hold pattern, compiled and matched against a branch.
pub mod Laws
use frit.Base.{
  ℕ, zero, suc, Bool, true, false, ◌&&◌, ◌||◌, not, Option, none, some, List, [], ◌∷◌, Text, codes,
  is_empty, has_prefix, drop, if◌then◌else◌, ◌==◌,
}
use frit.Base.Strings.Decimal.{is_digit, parse_int}

abbrev pub id_token : Text
id_token = codes "{id}"

-- What the regular expression of a pattern is made of: a quoted character, `[^/]*` and `.*`. The dot
-- does not match a line feed.
pub data Piece : Type 0 where
  literal : (c : ℕ) → Piece
  run : Piece
  any_run : Piece

-- `strings.Count(s, "{id}")`: no occurrence overlaps another.
unfoldable pub count_id : Text → ℕ
count_id [] = 0
count_id (c ∷ cs) =
    let rest = count_id cs in if has_prefix (c ∷ cs) id_token then suc rest else rest

-- `strings.Cut(s, "{id}")`
unfoldable pub cut_id : Text → Text × Text
cut_id [] = ([], [])
cut_id (c ∷ cs) =
    let (before, after) = cut_id cs in
    if has_prefix (c ∷ cs) id_token then ([], drop 4 (c ∷ cs)) else (c ∷ before, after)

-- A NUL in the pattern is the placeholder that the expansion itself uses for a doublestar.
abbrev piece : ℕ → Piece
piece c = if c == 42 then run else if c == 0 then any_run else literal c

-- `expandWildcards`
unfoldable pub pieces : Text → List Piece
pieces [] = []
pieces (c ∷ []) = piece c ∷ []
pieces (c ∷ d ∷ cs) = elim (c == 42 && d == 42) [
  | true ↦ any_run ∷ pieces cs
  | false ↦ piece c ∷ pieces (d ∷ cs)
]

pub record Pattern : Type 0 where
  pub source : Text
  pub before : List Piece
  pub after : List Piece

pub data PatternError : Type 0 where
  empty_pattern : PatternError
  no_id : (pattern : Text) → PatternError

pub data Compiled {ℓ} (A : Type ℓ) : Type ℓ where
  compiled : A → Compiled A
  rejected : PatternError → Compiled A

unfoldable pub compile : Text → Compiled Pattern
compile pattern =
    let (before, after) = cut_id pattern in
    if is_empty pattern
    then rejected empty_pattern
    else if not (count_id pattern == 1)
    then rejected (no_id pattern)
    else compiled (record { source = pattern; before = pieces before; after = pieces after })

unfoldable pub compile_all : List Text → Compiled (List Pattern)
compile_all [] = compiled []
compile_all (raw ∷ raws) = elim (compile raw) [
  | rejected e ↦ rejected e
  | compiled p ↦ elim (compile_all raws) [
    | rejected e ↦ rejected e
    | compiled ps ↦ compiled (p ∷ ps)
  ]
]

abbrev pub not_slash : ℕ → Bool
not_slash c = not (c == 47)

abbrev pub not_line_feed : ℕ → Bool
not_line_feed c = not (c == 10)

-- A wildcard takes as much as it can and gives back until what follows it matches.
unfoldable pub spread : {A : Type 0} → (ℕ → Bool) → (Text → Option A) → Text → Option A
spread ok k [] = k []
spread ok k (c ∷ cs) = elim (ok c) [
  | false ↦ k (c ∷ cs)
  | true ↦ elim (spread ok k cs) [ some a ↦ some a | none ↦ k (c ∷ cs) ]
]

unfoldable pub expect : {A : Type 0} → ℕ → (Text → Option A) → Text → Option A
expect x k [] = none
expect x k (c ∷ cs) = elim (c == x) [ true ↦ k cs | false ↦ none ]

-- The pieces in order, and then `k`: the search order of the regular expression.
unfoldable pub through : {A : Type 0} → List Piece → (Text → Option A) → Text → Option A
through [] k s = k s
through (literal x ∷ ps) k s = expect x (through ps k) s
through (run ∷ ps) k s = spread not_slash (through ps k) s
through (any_run ∷ ps) k s = spread not_line_feed (through ps k) s

abbrev pub at_end : Text → Option (Unit {0})
at_end [] = some tt
at_end (c ∷ cs) = none

-- The group `([0-9]+)`: the longest run of digits behind which `k` matches.
unfoldable pub digits : (Text → Option (Unit {0})) → Text → Option Text
digits k [] = none
digits k (c ∷ cs) = elim (is_digit c) [
  | false ↦ none
  | true ↦ elim (digits k cs) [
    | some ds ↦ some (c ∷ ds)
    | none ↦ elim (k cs) [ some u ↦ some (c ∷ []) | none ↦ none ]
  ]
]

-- `FindStringSubmatch`, the text of its group.
unfoldable pub submatch : Pattern → Text → Option Text
submatch p branch = through p.before (digits (through p.after at_end)) branch

abbrev parsed : Option Text → Option ℕ
parsed none = none
parsed (some ds) = parse_int ds

unfoldable pub match_branch : Pattern → Text → Option ℕ
match_branch p branch = parsed (submatch p branch)

-- The first pattern that matches.
unfoldable pub match_holds : List Pattern → Text → Option ℕ
match_holds [] branch = none
match_holds (p ∷ ps) branch = elim (match_branch p branch) [
  | some id ↦ some id
  | none ↦ match_holds ps branch
]
