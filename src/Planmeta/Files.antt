-- ===== src/Planmeta/Files.antt =====
-- internal/planmeta/resume.go and plan.go: the files of a folder plan's phases, and the ledger they make.
-- A folder is what listing it and reading a file of it answer; the markdown and YAML readers are arguments.
use frit.Base.{
  ℕ, Bool, true, false, ◌&&◌, ◌||◌, not, Option, none, some, List, [], ◌∷◌, ◌++◌, map, Text, codes,
  text_eq, text_ltb, is_empty, leb, ltb, all, cut_prefix, filter_map, sort, if◌then◌else◌, ◌==◌,
}
use frit.Base.Strings.Decimal.{is_digit, read_from, max_int64}
use frit.Base.Strings.Path.{cut_suffix, span}
use frit.Planmeta.{Phase, other}

-- `os.Stat` and `os.ReadFile` of one name: nothing there, a folder, an error, or a file's content.
pub data FileAt : Type 0 where
  absent folder fault : FileAt
  content : Text → FileAt

-- A name of the folder, and whether it is a folder itself.
pub record DirEntry : Type 0 where
  pub name : Text
  pub is_folder : Bool

pub record Dir : Type 0 where
  pub listing : Option (List DirEntry)
  pub file : Text → FileAt

unfoldable pub spec_file_name : Text → Text
spec_file_name n = codes "phase-" ++ (n ++ codes ".md")

unfoldable pub result_file_name : Text → Text
result_file_name n = codes "phase-" ++ (n ++ codes ".result.md")

abbrev is_letter : ℕ → Bool
is_letter c = leb 65 c && leb c 90 || leb 97 c && leb c 122

-- `strconv.Atoi` on digits alone, its error dropped: at most the largest int.
abbrev number_of : Option ℕ → ℕ
number_of none = 0
number_of (some n) = if leb n max_int64 then n else max_int64

pub record Numbered : Type 0 where
  pub n : ℕ
  pub text : Text

abbrev numbered_parts : Text → Text × Text → Option Numbered
numbered_parts token (digits, letters) =
    if not (is_empty digits) && all is_letter letters
    then some (record { n = number_of (read_from 0 digits); text = token })
    else none

abbrev numbered_token : Option Text → Option Numbered
numbered_token none = none
numbered_token (some token) = numbered_parts token (span is_digit token)

-- The match of `specFileRE` with a name.
unfoldable pub spec_number : Text → Option Numbered
spec_number name = elim (cut_prefix name (codes "phase-")) [
  | none ↦ none
  | some rest ↦ numbered_token (cut_suffix rest (codes ".md"))
]

abbrev entry_number : DirEntry → Option Numbered
entry_number e = if e.is_folder then none else spec_number e.name

abbrev pub numbered_before : Numbered → Numbered → Bool
numbered_before a b = if not (a.n == b.n) then ltb a.n b.n else text_ltb a.text b.text

abbrev texts : List Numbered → List Text
texts [] = []
texts (f ∷ fs) = f.text ∷ texts fs

-- `none` where the folder cannot be listed.
unfoldable pub phase_spec_numbers : Dir → Option (List Text)
phase_spec_numbers dir = elim dir.listing [
  | none ↦ none
  | some entries ↦ some (texts (sort numbered_before (filter_map entry_number entries)))
]

-- What a phase file says: `parsePhaseFile`'s phase, `none` for its errors, and the body.
pub record PhaseFile : Type 0 where
  pub phase : Option Phase
  pub body : Text

pub record Row : Type 0 where
  pub tier : Text
  pub gate : Text
  pub design : Text
  pub implement : Text

abbrev pub bare_phase : Text → Phase
bare_phase n = record {
  n = n;
  title = [];
  status = other [];
  tier = [];
  design = [];
  implement = [];
  gate = [];
  has_execution_row = false;
  body = [];
}

abbrev phase_or_bare : Text → Option Phase → Phase
phase_or_bare n none = bare_phase n
phase_or_bare n (some p) = p

abbrev with_row : Phase → Option Row → Phase
with_row p none = p
with_row p (some r) = record p {
  tier = r.tier;
  gate = r.gate;
  design = r.design;
  implement = r.implement;
  has_execution_row = true;
}

-- `attachExecutionRows`; `rows` is the table of the plan's body.
unfoldable pub attach_execution_rows : (Text → Option Row) → List Phase → List Phase
attach_execution_rows rows phases = map (λ p. with_row p (rows p.n)) phases

abbrev cons_read : {A : Type 0} → A → Option (List A) → Option (List A)
cons_read x none = none
cons_read x (some xs) = some (x ∷ xs)

pub record Mismatch : Type 0 where
  pub file_token : Text
  pub front_matter_n : Text
  pub result : Bool

abbrev mismatch_of : Text → Bool → Option Phase → Option Mismatch
mismatch_of n result none = none
mismatch_of n result (some p) =
    if text_eq p.n n
    then none
    else some (record { file_token = n; front_matter_n = p.n; result = result })

module _ (parse_phase_file : Text → PhaseFile) (dir : Dir) where
  abbrev phase_at : Text → FileAt → Option Phase
  phase_at n (FileAt.content source) = some (phase_or_bare n (parse_phase_file source).phase)
  phase_at n _ = none

  abbrev add_phase : Option Phase → Option (List Phase) → Option (List Phase)
  add_phase none rest = none
  add_phase (some p) rest = cons_read p rest

  unfoldable pub phases_of : List Text → Option (List Phase)
  phases_of [] = some []
  phases_of (n ∷ ns) = add_phase (phase_at n (dir.file (spec_file_name n))) (phases_of ns)

  abbrev attached : (Text → Option Row) → Option (List Phase) → Option (List Phase)
  attached rows none = none
  attached rows (some ps) = some (attach_execution_rows rows ps)

  -- `none` is an error of the file system.
  unfoldable pub phases_from_dir : (Text → Option Row) → Option (List Phase)
  phases_from_dir rows = elim (phase_spec_numbers dir) [
    | none ↦ none
    | some ns ↦ attached rows (phases_of ns)
  ]

  -- `phaseFileMismatch`: `none` is an error, `some none` no mismatch.
  abbrev pub mismatch_at : Text → Bool → FileAt → Option (Option Mismatch)
  mismatch_at n result FileAt.absent = some none
  mismatch_at n result FileAt.folder = some none
  mismatch_at n result FileAt.fault = none
  mismatch_at n result (FileAt.content source) =
      some (mismatch_of n result (parse_phase_file source).phase)

  abbrev pub add_mismatch :
      Option (Option Mismatch) → Option (List Mismatch) → Option (List Mismatch)
  add_mismatch none rest = none
  add_mismatch (some none) rest = rest
  add_mismatch (some (some m)) rest = cons_read m rest

  unfoldable pub mismatches_of : List Text → Option (List Mismatch)
  mismatches_of [] = some []
  mismatches_of (n ∷ ns) =
      add_mismatch (mismatch_at n false (dir.file (spec_file_name n)))
        (add_mismatch (mismatch_at n true (dir.file (result_file_name n))) (mismatches_of ns))

  unfoldable pub phase_filename_mismatches : Option (List Mismatch)
  phase_filename_mismatches = elim (phase_spec_numbers dir) [
    | none ↦ none
    | some ns ↦ mismatches_of ns
  ]
