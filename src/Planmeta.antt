-- ===== src/Planmeta.antt =====
-- internal/planmeta/plan.go: the lifecycle of a plan, its phase ledger and the first open phase.
-- Reading the markdown and the YAML is mdsmith's and is an argument where it is used. Tiers has the model
-- tiers that a phase is designed and implemented at.
pub mod Tiers
pub mod Files
pub mod Resume
use frit.Base.Strings.Path.{path_base}
use frit.Base.{
  ℕ, codes, text_eq, Bool, true, false, ◌||◌, Option, none, some, List, [], ◌∷◌, Text,
  if◌then◌else◌,
}

-- The front matter's status: the four glyphs 🔲 🔳 ✅ ⛔ in that order, and any other text.
pub data Status : Type 0 where
  not_started in_progress done superseded : Status
  other : Text → Status

pub record Phase : Type 0 where
  pub n : Text
  pub title : Text
  pub status : Status
  pub tier : Text
  pub design : Text
  pub implement : Text
  pub gate : Text
  pub has_execution_row : Bool
  pub body : Text

abbrev pub is_not_started : Status → Bool
is_not_started not_started = true
is_not_started _ = false

abbrev pub is_in_progress : Status → Bool
is_in_progress in_progress = true
is_in_progress _ = false

abbrev pub is_done : Status → Bool
is_done done = true
is_done _ = false

abbrev pub is_superseded : Status → Bool
is_superseded superseded = true
is_superseded _ = false

-- The loop steps over done and superseded phases and returns the first other.
unfoldable pub first_open_phase : List Phase → Option Phase
first_open_phase [] = none
first_open_phase (p ∷ ps) =
    let rest = first_open_phase ps in
    if is_done p.status || is_superseded p.status then rest else some p

pub record Plan : Type 0 where
  pub id : ℕ
  pub title : Text
  pub status : Status
  pub summary : Text
  pub model : Text
  pub depends_on : List ℕ
  pub phases : List Phase
  pub goal : Text

abbrev pub proto_name : Text
proto_name = codes "proto.md"

unfoldable pub is_proto : Text → Bool
is_proto p = text_eq (path_base p) proto_name

-- `Parse`'s result: `ErrNoFrontMatter`, or what the YAML decoder says.
pub data ParseError : Type 0 where
  no_front_matter : ParseError
  front_matter : Text → ParseError

pub data Parsed : Type 0 where
  parsed : Plan → Parsed
  unparsed : ParseError → Parsed
