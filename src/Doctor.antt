-- ===== src/Doctor.antt =====
-- internal/doctor/doctor.go: the gaps of a plan file that only its plan shows. What mdsmith finds and what reads
-- markdown, YAML and files are arguments; Scan has the scan of one file and of a repository.
use frit.Base.{
  ℕ, Bool, true, false, ◌&&◌, ◌||◌, not, Option, none, some, List, [], ◌∷◌, ◌++◌, map, Text, codes,
  text_eq, is_empty, contains, has_prefix, cut, any, filter_map, if◌then◌else◌,
}
use frit.Base.Strings.Decimal.{decimal}
use frit.Base.Strings.Path.{path_base, path_dir, path_join, trim_suffix}
use frit.Plans.{is_folder_plan_file}
use frit.Planmeta.{Phase, Plan, is_done, is_superseded}
use frit.Planmeta.Files.{FileAt, Mismatch, spec_file_name, result_file_name}
use frit.Planmeta.Tiers.{known_tier}
pub mod Scan
pub mod Laws
pub mod Order

-- The finding's check, with the parts of its message.
pub data Check : Type 0 where
  execution_row : Text → Check
  tier : Text → Text → Check
  id_sync : Text → ℕ → Check
  phase_n_sync : Text → Text → Check
  handoff : Text → Text → Check
  goal schema : Text → Check

pub record Finding : Type 0 where
  pub id : ℕ
  pub path : Text
  pub check : Check

abbrev pub is_known : List Text → Text → Bool
is_known vocab s = known_tier s || any (λ t. text_eq t s) vocab

unfoldable pub bad_tier : Text → Text → List Text → Text
bad_tier design implement vocab =
    if not (is_known vocab design)
    then design
    else if not (is_known vocab implement)
    then implement
    else []

abbrev pub phase_gap : Phase → List Text → Option Check
phase_gap ph vocab =
    let bad = bad_tier ph.design ph.implement vocab in
    if not ph.has_execution_row
    then some (execution_row ph.n)
    else if not (is_empty bad)
    then some (tier ph.n bad)
    else none

abbrev pub finding : ℕ → Text → Option Check → Option Finding
finding id path none = none
finding id path (some c) = some (record { id = id; path = path; check = c })

unfoldable pub check_plan : Plan → Text → List Text → List Finding
check_plan p path vocab = filter_map (λ ph. finding p.id path (phase_gap ph vocab)) p.phases

abbrev up_to_underscore : Text → Option (Text × Text) → Text
up_to_underscore name none = name
up_to_underscore name (some (front, rest)) = front

unfoldable pub leading_id_token : Text → Text
leading_id_token rel =
    let name =
      if is_folder_plan_file rel
      then path_base (path_dir rel)
      else trim_suffix (path_base rel) (codes ".md") in
    up_to_underscore name (cut b'_' name)

unfoldable pub check_id_sync : ℕ → Text → Option Finding
check_id_sync id rel =
    let token = leading_id_token rel in
    if text_eq token (decimal id)
    then none
    else some (record { id = id; path = rel; check = id_sync token id })

abbrev mismatch_name : Mismatch → Text
mismatch_name m = if m.result then result_file_name m.file_token else spec_file_name m.file_token

abbrev mismatch_finding : ℕ → Text → Mismatch → Finding
mismatch_finding id plan_rel m = record {
  id = id;
  path = path_join (path_dir plan_rel) (mismatch_name m);
  check = phase_n_sync (mismatch_name m) m.front_matter_n;
}

-- `checkPhaseNumberSync` behind `PhaseFilenameMismatches`; `none` is its error.
unfoldable pub check_phase_number_sync : ℕ → Text → Option (List Mismatch) → Option (List Finding)
check_phase_number_sync id plan_rel none = none
check_phase_number_sync id plan_rel (some ms) = some (map (mismatch_finding id plan_rel) ms)

-- The number of the last done phase behind the one seen so far.
unfoldable pub last_done : Option Text → List Phase → Option Text
last_done seen [] = seen
last_done seen (ph ∷ phs) = last_done (if is_done ph.status then some ph.n else seen) phs

module _ (handoff_of : Text → Option Text) where
  abbrev has_handoff : Text → Bool
  has_handoff source = elim (handoff_of source) [ none ↦ false | some t ↦ true ]

  -- What a result file shows of the phase's handoff; `none` is an error.
  abbrev pub handoff_in : FileAt → Option Bool
  handoff_in (FileAt.content source) = some (has_handoff source)
  handoff_in FileAt.absent = some false
  handoff_in _ = none

  abbrev folder_finding : ℕ → Text → Text → Finding
  folder_finding id plan_rel n = record {
    id = id;
    path = path_join (path_dir plan_rel) (result_file_name n);
    check = handoff n (result_file_name n);
  }

  abbrev behind_handoff : Finding → Option Bool → Option (List Finding) → Option (List Finding)
  behind_handoff f none rest = none
  behind_handoff f (some true) rest = rest
  behind_handoff f (some false) none = none
  behind_handoff f (some false) (some fs) = some (f ∷ fs)

  -- `checkFolderHandoff` over the phases; `file` reads a name of the plan's folder.
  unfoldable pub check_folder_handoff :
      ℕ → Text → (Text → FileAt) → List Phase → Option (List Finding)
  check_folder_handoff id plan_rel file [] = some []
  check_folder_handoff id plan_rel file (ph ∷ phs) =
      let rest = check_folder_handoff id plan_rel file phs in
      if not (is_done ph.status)
      then rest
      else behind_handoff (folder_finding id plan_rel ph.n)
          (handoff_in (file (result_file_name ph.n))) rest

  abbrev flat_handoff : ℕ → Text → Text → Option Text → List Finding
  flat_handoff id plan_rel body none = []
  flat_handoff id plan_rel body (some n) =
      if has_handoff body
      then []
      else record { id = id; path = plan_rel; check = handoff n (path_base plan_rel) } ∷ []

  unfoldable pub check_handoff : Plan → Text → (Text → FileAt) → Text → Bool → Option (List Finding)
  check_handoff p plan_rel file body is_folder =
      if is_done p.status || is_superseded p.status
      then some []
      else if is_folder
      then check_folder_handoff p.id plan_rel file p.phases
      else some (flat_handoff p.id plan_rel body (last_done none p.phases))

pub record Diagnostic : Type 0 where
  pub name : Text
  pub message : Text

abbrev diagnosed : Diagnostic → Option Check
diagnosed d =
    if text_eq d.name (codes "empty-section-body") && contains d.message (codes "\"## Goal\"")
    then some (goal d.message)
    else if text_eq d.name (codes "required-structure") && has_prefix d.message (codes "model:")
    then some (schema d.message)
    else none

unfoldable pub check_diagnostics : ℕ → Text → List Diagnostic → List Finding
check_diagnostics id path diags = filter_map (λ d. finding id path (diagnosed d)) diags
