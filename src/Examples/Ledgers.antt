-- ===== src/Examples/Ledgers.antt =====
-- The theorems on tiers, on a folder plan's phases and on the report of a plan, at concrete inputs.
use frit.Base.{
  false, ◌≡◌, ◌≢◌, ◌⊎◌, ◌↔◌, refl, ℕ, true, none, some, List, [], ◌∷◌, Memᴰ, Text, codes, text_eq,
  if◌then◌else◌,
}
use frit.Planmeta.{Status, Phase, Plan, Parsed, unparsed, no_front_matter}
use frit.Planmeta.Tiers.{tier_rank, known_tier, vocab_rank, retiered}
use frit.Planmeta.Tiers.Laws.{IsWidened, IsDemanding, vocab_rank-IsWidened}
use frit.Planmeta.Files.{FileAt, Dir}
use frit.Planmeta.Resume.{Readers}
use frit.Doctor.{phase_gap, Finding, bad_tier, check_plan}
use frit.Doctor.Laws.{IsClean, check_plan-IsClean, clean-IsDemanding}
use frit.Doctor.Scan.{PlanFile, Tools, scan_paths}
use frit.Doctor.Order.{HasError, IsReport, scan_paths_total}

abbrev vocab : List Text
vocab = codes "opus" ∷ codes "mythos" ∷ []

vocab_rank-IsWidened_example : IsWidened vocab (vocab_rank vocab)
vocab_rank-IsWidened_example = vocab_rank-IsWidened vocab

abbrev phase : Phase
phase = record {
  n = codes "1";
  title = [];
  status = Status.not_started;
  tier = [];
  design = codes "mythos";
  implement = codes "haiku";
  gate = [];
  has_execution_row = true;
  body = [];
}

abbrev plan : Plan
plan = record {
  id = 7;
  title = [];
  status = Status.in_progress;
  summary = [];
  model = [];
  depends_on = [];
  phases = phase ∷ [];
  goal = [];
}

check_plan-IsClean_example :
    (check_plan plan (codes "plan/7_x.md") vocab ≡ [])
    ↔ ((ph : Phase) → Memᴰ ph plan.phases → IsClean vocab ph)
check_plan-IsClean_example = check_plan-IsClean plan (codes "plan/7_x.md") vocab

clean : phase_gap phase vocab ≡ none
unfolding bad_tier known_tier tier_rank text_eq
clean = refl

named : (x : ℕ) (xs : Text) → x ∷ xs ≢ []
named x xs e = cc

clean-IsDemanding_example :
    IsDemanding
      (vocab_rank vocab)
      (codes "mythos")
      (codes "haiku")
      (retiered (vocab_rank vocab) phase).tier
clean-IsDemanding_example = clean-IsDemanding vocab phase clean (named _ _) (named _ _)

-- A phase file without front matter, and a result file that is its handoff.
abbrev readers : Readers
readers = record {
  parse = λ source. unparsed no_front_matter;
  parse_phase_file = λ source. record { phase = none; body = source };
  handoff_of = λ source. some source;
  row_for = λ body n. none;
}

abbrev file : Text → FileAt
file name =
    if text_eq name (codes "phase-1.result.md")
    then FileAt.content (codes "handed")
    else if text_eq name (codes "phase-2.result.md")
    then FileAt.absent
    else FileAt.content (codes "brief")

abbrev dir : Dir
dir = record { listing = none; file = file }

abbrev ns : List Text
ns = codes "1" ∷ codes "2" ∷ []

abbrev tools : Tools
tools = record {
  session_opens = true;
  parse = λ source. Parsed.parsed plan;
  parse_phase_file = λ source. record { phase = none; body = source };
  handoff_of = λ source. none;
  rows = λ body n. none;
  check =
      λ rel source. record { name = codes "required-structure"; message = codes "model: x" } ∷ [];
}

abbrev plan_files : List PlanFile
plan_files =
    record { rel = some (codes "plan/7_x.md"); file = FileAt.content []; dir = dir }
    ∷ record { rel = some (codes "plan/8_y.md"); file = FileAt.folder; dir = dir }
    ∷ []

scan_paths_total_example :
    ((true ≡ false) ⊎ HasError tools vocab plan_files) × (scan_paths tools vocab plan_files ≡ none)
    ⊎ (true ≡ true)
      × ¬ HasError tools vocab plan_files
      × (out : List Finding) × (scan_paths tools vocab plan_files ≡ some out)
      × IsReport tools vocab plan_files out
scan_paths_total_example = scan_paths_total tools vocab plan_files
