-- ===== src/Doctor/Scan.antt =====
-- internal/doctor/doctor.go: the scan of a plan file and of the files of a repository.
use frit.Base.{
  ℕ, Bool, true, false, ◌&&◌, not, Option, none, some, List, [], ◌∷◌, ◌++◌, Text, codes, text_eq,
  text_ltb, ltb, sort, if◌then◌else◌, ◌==◌,
}
use frit.Base.Strings.Decimal.{decimal}
use frit.Plans.{is_folder_plan_file}
use frit.Planmeta.{Phase, Plan, Parsed, parsed, unparsed}
use frit.Planmeta.Files.{FileAt, Dir, PhaseFile, Row, phases_from_dir, phase_filename_mismatches}
use frit.Doctor.{
  Finding, Check, Diagnostic, execution_row, tier, id_sync, phase_n_sync, handoff, goal, schema,
  leading_id_token, check_plan, check_id_sync, check_phase_number_sync, check_handoff,
  check_diagnostics,
}

-- What a path of the scan is on disk: its path from the root, where `filepath.Rel` finds one, its
-- content, and the folder it stands in.
pub record PlanFile : Type 0 where
  pub rel : Option Text
  pub file : FileAt
  pub dir : Dir

-- Whether mdsmith's session opens, `Parse`, `parsePhaseFile`, `handoffOf`, the execution table of a
-- body, and mdsmith's check of a file.
pub record Tools : Type 0 where
  pub session_opens : Bool
  pub parse : Text → Parsed
  pub parse_phase_file : Text → PhaseFile
  pub handoff_of : Text → Option Text
  pub rows : Text → Text → Option Row
  pub check : Text → Text → List Diagnostic

abbrev pub check_name : Check → Text
check_name (execution_row n) = codes "execution-row"
check_name (tier n bad) = codes "tier"
check_name (id_sync token id) = codes "id-sync"
check_name (phase_n_sync name n) = codes "phase-n-sync"
check_name (handoff n name) = codes "handoff"
check_name (goal m) = codes "goal"
check_name (schema m) = codes "schema"

abbrev pub finding_before : Finding → Finding → Bool
finding_before a b =
    if not (a.id == b.id) then ltb a.id b.id else text_ltb (check_name a.check) (check_name b.check)

abbrev sync_findings : Option Finding → List Finding
sync_findings none = []
sync_findings (some f) = f ∷ []

-- Two steps of which each may fail.
abbrev pub both : Option (List Finding) → Option (List Finding) → Option (List Finding)
both none ys = none
both (some xs) none = none
both (some xs) (some ys) = some (xs ++ ys)

abbrev has_phases : List Phase → Bool
has_phases [] = false
has_phases (p ∷ ps) = true

module _ (tools : Tools) (vocab : List Text) where
  open tools use {session_opens, parse, parse_phase_file, handoff_of, rows, check}

  -- The plan with the phases of its folder, where it has no ledger; `none` is an error.
  abbrev pub with_folder_phases : PlanFile → Text → Text → Plan → Option Plan
  with_folder_phases f rel source p =
      if not (has_phases p.phases) && is_folder_plan_file rel
      then elim (phases_from_dir parse_phase_file f.dir (rows source)) [
        | none ↦ none
        | some phases ↦ some (record p { phases = phases })
      ]
      else some p

  abbrev number_sync : PlanFile → Text → Plan → Option (List Finding)
  number_sync f rel p =
      if is_folder_plan_file rel
      then check_phase_number_sync p.id rel (phase_filename_mismatches parse_phase_file f.dir)
      else some []

  -- The checks in the order of the source.
  unfoldable pub checks_of : PlanFile → Text → Text → Plan → Option (List Finding)
  checks_of f rel source p =
      both (some (check_plan p rel vocab ++ sync_findings (check_id_sync p.id rel))) (
        both (number_sync f rel p) (
          both (check_handoff handoff_of p rel f.dir.file source (is_folder_plan_file rel))
            (some (check_diagnostics p.id rel (check rel source)))))

  abbrev checks_with : PlanFile → Text → Text → Option Plan → Option (List Finding)
  checks_with f rel source none = none
  checks_with f rel source (some p) = checks_of f rel source p

  abbrev scan_source : PlanFile → Text → Text → Parsed → Option (List Finding)
  scan_source f rel source (unparsed e) = some []
  scan_source f rel source (parsed p) = checks_with f rel source (with_folder_phases f rel source p)

  abbrev scan_at : PlanFile → Text → FileAt → Option (List Finding)
  scan_at f rel FileAt.folder = some []
  scan_at f rel (FileAt.content source) = scan_source f rel source (parse source)
  scan_at f rel _ = none

  unfoldable pub scan_file : PlanFile → Option (List Finding)
  scan_file f = elim f.rel [ none ↦ none | some rel ↦ scan_at f rel f.file ]

  -- The loop over the paths, which the first error ends.
  unfoldable pub scan_all : List PlanFile → Option (List Finding)
  scan_all [] = some []
  scan_all (f ∷ fs) = both (scan_file f) (scan_all fs)

  abbrev pub in_order : Option (List Finding) → Option (List Finding)
  in_order none = none
  in_order (some fs) = some (sort finding_before fs)

  -- `scanPaths`
  unfoldable pub scan_paths : List PlanFile → Option (List Finding)
  scan_paths files = if session_opens then in_order (scan_all files) else none

  abbrev kept_behind : Bool → PlanFile → Option (List PlanFile) → Option (List PlanFile)
  kept_behind here f none = none
  kept_behind here f (some fs) = some (if here then f ∷ fs else fs)

  -- The files whose name leads with the id; a path without one from the root is an error.
  unfoldable pub files_of : ℕ → List PlanFile → Option (List PlanFile)
  files_of id [] = some []
  files_of id (f ∷ fs) = elim f.rel [
    | none ↦ none
    | some rel ↦ kept_behind (text_eq (leading_id_token rel) (decimal id)) f (files_of id fs)
  ]

  -- `ScanID` behind the listing of the paths.
  unfoldable pub scan_id : ℕ → List PlanFile → Option (List Finding)
  scan_id id files = elim (files_of id files) [ none ↦ none | some kept ↦ scan_paths kept ]
