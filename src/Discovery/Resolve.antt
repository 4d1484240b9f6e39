-- ===== src/Discovery/Resolve.antt =====
-- internal/discovery/resolve.go and find.go: a selector or a topic turned into plans.
pub mod Laws
use frit.Base.{
  ℕ, Bool, true, false, ◌&&◌, ◌||◌, Option, none, some, List, [], ◌∷◌, Text, text_eq, contains,
  trim_space, is_empty, ◌==◌, if◌then◌else◌, keep, sort,
}
use frit.Base.Strings.Decimal.{parse_int}
use frit.Discovery.{Plan, matches_slug, by_repo_id}
use frit.Discovery.Ready.{sort_by_repo_id}

pub data Resolved : Type 0 where
  found : Plan → Resolved
  not_found : (selector : Text) → Resolved
  ambiguous : (selector : Text) (candidates : List Plan) → Resolved

unfoldable pub with_id : ℕ → List Plan → List Plan
with_id id plans = keep (λ p. p.id == id) plans

unfoldable pub one : Text → List Plan → Resolved
one selector [] = not_found selector
one selector (p ∷ []) = found p
one selector (p ∷ q ∷ ps) = ambiguous selector (sort by_repo_id (p ∷ q ∷ ps))

unfoldable pub by_repo_and_id : Text → ℕ → List Plan → Option Plan
by_repo_and_id repo id [] = none
by_repo_and_id repo id (p ∷ ps) =
    let rest = by_repo_and_id repo id ps in
    if text_eq p.repo repo && (p.id == id) then some p else rest

-- The plans named by id, where the selector is a number that some plan has.
abbrev pub by_number : Option ℕ → List Plan → List Plan
by_number none plans = []
by_number (some id) plans = with_id id plans

abbrev pub or_else : Text → List Plan → List Plan → Resolved
or_else selector [] slugs = one selector slugs
or_else selector (p ∷ ps) slugs = one selector (p ∷ ps)

module _ (to_lower : Text → Text) where
  unfoldable pub by_slug : Text → List Plan → List Plan
  by_slug selector plans = keep (λ p. matches_slug to_lower p (to_lower selector)) plans

  unfoldable pub resolve : Text → List Plan → Resolved
  resolve selector plans =
      or_else selector (by_number (parse_int selector) plans) (by_slug selector plans)

  unfoldable pub find : Text → List Plan → List Plan
  find query plans =
      let needle = to_lower (trim_space query) in
      if is_empty needle
      then []
      else sort_by_repo_id (
          keep (λ p. contains (to_lower p.title) needle || contains (to_lower p.summary) needle)
            plans)
