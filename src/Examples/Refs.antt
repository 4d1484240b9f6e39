-- ===== src/Examples/Refs.antt =====
-- The theorems on hold patterns and on git's batch output, at concrete inputs.
use frit.Base.{
  ◌≡◌, refl, sym, subst, ◌⊎◌, ℕ, none, some, List, [], ◌∷◌, ◌++◌, map, Memᴰ, Text, codes, arith,
  is_space,
}
use frit.Base.Strings.Decimal.{parse_int}
use frit.Claim.Refs.{lease_branch}
use frit.Repocfg.{default_config}
use frit.Repocfg.Laws.{default_holds-lease_branch}
use frit.Repocfg.Pattern.{literal, run, Pattern, compiled, compile_all, match_branch, match_holds}
use frit.Repocfg.Pattern.Laws.{Reads, match_branch_total}
use frit.Gitobj.Batch.Fuel.{IsWhole, parse_batch-IsWhole}
use frit.Gitobj.Batch.{objects, parse_batch}
use frit.Gitobj.Batch.Laws.{
  Answer, absent, found, print_all, object_of, IsAnswer, parse_batch-print_all,
}

abbrev pattern : Pattern
pattern = record {
  source = codes "p{id}-*";
  before = literal b'p' ∷ [];
  after = literal b'-' ∷ run ∷ [];
}

abbrev branch : Text
branch = codes "p7-x"

match_branch_total_example :
    ((id : ℕ) × (ds : Text) × (match_branch pattern branch ≡ some id)
      × (parse_int ds ≡ some id)
      × Reads pattern branch ds)
    ⊎ ((ds : Text) × (match_branch pattern branch ≡ none)
        × (parse_int ds ≡ none)
        × Reads pattern branch ds)
    ⊎ ((match_branch pattern branch ≡ none) × ((ds : Text) → ¬ Reads pattern branch ds))
match_branch_total_example = match_branch_total pattern branch

default_holds-lease_branch_example :
    (holds : List Pattern) × (compile_all default_config.holds ≡ compiled holds)
    × (match_holds holds (lease_branch 7) ≡ some 7)
    × (match_holds holds (lease_branch 7 ++ b'-' ∷ codes "index") ≡ some 7)
default_holds-lease_branch_example = default_holds-lease_branch 7 (codes "index") (omega arith) refl

-- An object whose payload has a line feed and a header-like line, and a missing one.
abbrev answers : List Answer
answers =
    found (codes "ab12") (codes "blob") (codes "id: 7\nx missing\n") ∷ absent (codes "gone") ∷ []

answers-IsAnswer : (a : Answer) → Memᴰ a answers → IsAnswer a
unfolding is_space
answers-IsAnswer a (Memᴰ.head e) = subst IsAnswer (sym e) (
  record { there = refl; spaceless = refl },
  record { there = refl; spaceless = refl },
  omega arith,
)
answers-IsAnswer a (Memᴰ.tail (Memᴰ.head e)) =
    subst IsAnswer (sym e) (record { there = refl; spaceless = refl })
answers-IsAnswer a (Memᴰ.tail (Memᴰ.tail m)) = elim m [ ]

parse_batch-print_all_example : parse_batch (print_all answers) ≡ objects (map object_of answers)
parse_batch-print_all_example = parse_batch-print_all answers answers-IsAnswer

parse_batch-IsWhole_example : IsWhole (parse_batch (codes "ab12 blob 9\nx"))
parse_batch-IsWhole_example = parse_batch-IsWhole (codes "ab12 blob 9\nx")
