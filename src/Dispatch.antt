-- ===== src/Dispatch.antt =====
-- internal/dispatch/dispatch.go: the one command that is sent for a plan, and the phase it names.
pub mod Laws
use frit.Base.{
  ℕ, Bool, true, false, Option, none, some, List, [], ◌∷◌, ◌++◌, Text, codes, is_empty,
  if◌then◌else◌,
}
use frit.Base.Strings.Decimal.{decimal}
use frit.Planmeta.{Phase, first_open_phase}

unfoldable pub command : ℕ → Text → Text
command id phase =
    if is_empty phase
    then codes "/plan-phase " ++ decimal id
    else codes "/plan-phase " ++ (decimal id ++ (codes " " ++ phase))

abbrev open_number : Option Phase → Option Text
open_number none = none
open_number (some p) = some p.n

-- `none` where there is nothing to dispatch; an empty text is the whole plan.
unfoldable pub phase_of : List Phase → Text → Option Text
phase_of [] override = if is_empty override then some [] else some override
phase_of (p ∷ ps) override =
    if is_empty override then open_number (first_open_phase (p ∷ ps)) else some override
