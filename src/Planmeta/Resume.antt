-- ===== src/Planmeta/Resume.antt =====
-- internal/planmeta/resume.go: the open phase of a plan and the bundle that resumes it.
use frit.Base.{
  Bool, true, false, ◌&&◌, ◌||◌, not, Option, none, some, List, [], ◌∷◌, Text, trim_space,
  if◌then◌else◌,
}
use frit.Planmeta.{
  Phase, Status, Parsed, ParseError, parsed, unparsed, other, is_done, is_superseded,
  first_open_phase,
}
use frit.Planmeta.Tiers.{parse_with_vocabulary, ranked_tier}
use frit.Planmeta.Files.{
  FileAt, Dir, PhaseFile, Row, spec_file_name, result_file_name, phase_spec_numbers,
}
pub mod Laws

pub record Bundle : Type 0 where
  pub n : Text
  pub title : Text
  pub spec : Text
  pub handoff_in : Text
  pub notes : Text
  pub tier : Text
  pub gate : Text
  pub result_path : Text

-- `Resume`'s answer: a bundle, no open phase, an error of a file or of the plan's own parse.
pub data Resumed : Type 0 where
  resumed : Bundle → Resumed
  no_phase unreadable : Resumed
  unparsed_plan : ParseError → Resumed

pub record PhaseState : Type 0 where
  pub is_over : Bool
  pub handoff : Option Text
  pub title : Text
  pub spec_body : Text
  pub result : Option Text

-- `markdown.Parse` and the YAML decoder behind `Parse` and `parsePhaseFile`, the section that
-- `handoffOf` finds, and the row of `executionRowFor`.
pub record Readers : Type 0 where
  pub parse : Text → Parsed
  pub parse_phase_file : Text → PhaseFile
  pub handoff_of : Text → Option Text
  pub row_for : Text → Text → Option Row

abbrev is_there : Option Text → Bool
is_there none = false
is_there (some t) = true

abbrev text_or_empty : Option Text → Text
text_or_empty none = []
text_or_empty (some t) = t

-- A status of the front matter; the empty one is that of a file that carries none.
abbrev pub is_over_at : Status → Option Text → Bool
is_over_at (other []) handoff = is_there handoff
is_over_at s handoff = is_done s || is_superseded s

abbrev blank_row : Option Row → Row
blank_row none = record { tier = []; gate = []; design = []; implement = [] }
blank_row (some r) = r

module _ (readers : Readers) where
  open readers use {parse, parse_phase_file, handoff_of, row_for}

  -- The result file's content, where there is one, and its handoff; `none` is an error.
  abbrev pub result_at : FileAt → Option (Option Text)
  result_at (FileAt.content source) = some (some source)
  result_at FileAt.absent = some none
  result_at _ = none

  abbrev handoff_at : Option Text → Option Text
  handoff_at none = none
  handoff_at (some source) = handoff_of source

  abbrev pub state_of : Text → PhaseFile → Option Text → PhaseState
  state_of spec file result = elim file.phase [
    | none ↦ record {
      is_over = is_there (handoff_at result);
      handoff = handoff_at result;
      title = [];
      spec_body = spec;
      result = result;
    }
    | some p ↦ record {
      is_over = is_over_at p.status (handoff_at result);
      handoff = handoff_at result;
      title = p.title;
      spec_body = file.body;
      result = result;
    }
  ]

  abbrev state_behind : Text → Option (Option Text) → Option PhaseState
  state_behind spec none = none
  state_behind spec (some result) = some (state_of spec (parse_phase_file spec) result)

  abbrev state_at : FileAt → FileAt → Option PhaseState
  state_at (FileAt.content spec) result = state_behind spec (result_at result)
  state_at _ result = none

  unfoldable pub read_phase_state : Dir → Text → Option PhaseState
  read_phase_state dir n = state_at (dir.file (spec_file_name n)) (dir.file (result_file_name n))

  -- Notes travel only where the result file has no handoff.
  abbrev pub notes_of : PhaseState → Text
  notes_of st = if is_there st.handoff then [] else trim_space (text_or_empty st.result)

  abbrev pub bundle_of : List Text → Text → Text → Text → PhaseState → Bundle
  bundle_of vocab body n handoff_in st =
      let row = blank_row (row_for body n) in
      record {
        n = n;
        title = st.title;
        spec = trim_space st.spec_body;
        handoff_in = handoff_in;
        notes = notes_of st;
        tier = ranked_tier row.design row.implement row.tier vocab;
        gate = row.gate;
        result_path = result_file_name n;
      }

  -- The loop over the phases of the folder, with the handoff of the phase before.
  unfoldable pub resume_from : List Text → Text → Dir → List Text → Text → Resumed
  resume_from vocab body dir [] handoff_in = no_phase
  resume_from vocab body dir (n ∷ ns) handoff_in = elim (read_phase_state dir n) [
    | none ↦ unreadable
    | some st ↦
        let rest = resume_from vocab body dir ns (text_or_empty st.handoff) in
        if st.is_over then rest else resumed (bundle_of vocab body n handoff_in st)
  ]

  abbrev ledger_bundle : Text → Option Phase → Resumed
  ledger_bundle body none = no_phase
  ledger_bundle body (some p) = resumed (record {
    n = p.n;
    title = p.title;
    spec = p.body;
    handoff_in = text_or_empty (handoff_of body);
    notes = [];
    tier = p.tier;
    gate = p.gate;
    result_path = [];
  })

  abbrev ledger_of : Text → Parsed → Resumed
  ledger_of body (unparsed e) = unparsed_plan e
  ledger_of body (parsed p) = ledger_bundle body (first_open_phase p.phases)

  unfoldable pub resume_from_ledger : Text → List Text → Resumed
  resume_from_ledger body vocab = ledger_of body (parse_with_vocabulary parse body vocab)

  -- `Resume`; no folder is a flat plan.
  unfoldable pub resume : Option Dir → Text → List Text → Resumed
  resume none body vocab = resume_from_ledger body vocab
  resume (some dir) body vocab = elim (phase_spec_numbers dir) [
    | none ↦ unreadable
    | some [] ↦ resume_from_ledger body vocab
    | some (n ∷ ns) ↦ resume_from vocab body dir (n ∷ ns) []
  ]
