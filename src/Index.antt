-- ===== src/Index.antt =====
-- internal/index/index.go: plan files of every ref, grouped into one entry per plan.
use frit.Base.{
  ℕ, ◌+◌, Bool, true, false, ◌||◌, not, Option, none, some, List, [], ◌∷◌, ◌++◌, map, Text, text_eq,
  text_ltb, is_empty, length, ltb, any, sort, if◌then◌else◌, ◌==◌,
}
use frit.Base.Order.{bool_eq}
pub use frit.Plans.{File}
use frit.Planmeta.{Plan, Parsed, ParseError, parsed, unparsed, is_proto, is_done, is_superseded}
use frit.Planmeta.Tiers.{parse_with_vocabulary}
pub mod Scan
pub mod Memo
pub mod Added
pub mod Primary
pub mod Laws

pub record Key : Type 0 where
  pub host : Text
  pub repo : Text
  pub id : ℕ

pub record Version : Type 0 where
  pub oid : Text
  pub plan : Plan
  pub path : Text
  pub refs : List Text

pub record Entry : Type 0 where
  pub key : Key
  pub versions : List Version

pub record Problem : Type 0 where
  pub path : Text
  pub err : ParseError

-- An entry of the map from plan ids to the versions by object id. Both maps are kept in the order in which their
-- keys came.
pub record Group : Type 0 where
  pub id : ℕ
  pub versions : List Version

unfoldable pub on_ref : Version → Text → Bool
on_ref v ref = if is_empty ref then false else any (λ r. text_eq r ref) v.refs

-- `Primary` on the versions: the source takes the first, and panics where there is none.
abbrev pub first_version : List Version → Option Version
first_version [] = none
first_version (v ∷ vs) = some v

unfoldable pub primary : Entry → Option Version
primary e = first_version e.versions

abbrev pub is_landed : Text → Option Version → Bool
is_landed preferred none = false
is_landed preferred (some v) =
    if not (on_ref v preferred) then false else is_done v.plan.status || is_superseded v.plan.status

-- `LandedIDs`, as the test of the set it returns.
unfoldable pub landed_ids : List Entry → Text → ℕ → Bool
landed_ids entries preferred i =
    any (λ e. if is_landed preferred (primary e) then e.key.id == i else false) entries

abbrev ref_total : List Version → ℕ
ref_total [] = 0
ref_total (v ∷ vs) = length v.refs + ref_total vs

unfoldable pub ref_count : Entry → ℕ
ref_count e = ref_total e.versions

abbrev pub new_version : Plan → File → Version
new_version plan f = record { oid = f.oid; plan = plan; path = f.path; refs = [] }

abbrev pub carried : File → Version → Version
carried f v = record v { refs = v.refs ++ f.ref ∷ [] }

-- The inner map of `addVersion`: the version of the file's object id gets the file's ref.
unfoldable pub add_ref : Plan → File → List Version → List Version
add_ref plan f [] = carried f (new_version plan f) ∷ []
add_ref plan f (v ∷ vs) =
    let rest = add_ref plan f vs in if text_eq v.oid f.oid then carried f v ∷ vs else v ∷ rest

unfoldable pub add_version : Plan → File → List Group → List Group
add_version plan f [] = record { id = plan.id; versions = add_ref plan f [] } ∷ []
add_version plan f (g ∷ gs) =
    let rest = add_version plan f gs in
    if g.id == plan.id then record g { versions = add_ref plan f g.versions } ∷ gs else g ∷ rest

abbrev pub ranks_before : Text → Version → Version → Bool
ranks_before preferred a b =
    if not (bool_eq (on_ref a preferred) (on_ref b preferred))
    then on_ref a preferred
    else if not (length a.refs == length b.refs)
    then ltb (length b.refs) (length a.refs)
    else text_ltb a.oid b.oid

unfoldable pub rank : List Version → Text → List Version
rank versions preferred = sort (ranks_before preferred) versions

abbrev pub sorted_refs : Version → Version
sorted_refs v = record v { refs = sort text_ltb v.refs }

abbrev pub entry_of : Text → Text → Text → Group → Entry
entry_of host repo preferred g = record {
  key = record { host = host; repo = repo; id = g.id };
  versions = rank (map sorted_refs g.versions) preferred;
}

abbrev pub id_before : Entry → Entry → Bool
id_before a b = ltb a.key.id b.key.id

unfoldable pub collect : Text → Text → Text → List Group → List Entry
collect host repo preferred groups = sort id_before (map (entry_of host repo preferred) groups)
