-- ===== src/Index/Scan.antt =====
-- internal/index/index.go: `Build`'s loop over the files, with its two maps by object id.
use frit.Base.{
  Bool, false, ◌||◌, Option, none, some, List, [], ◌∷◌, ◌++◌, Text, text_eq, if◌then◌else◌,
}
use frit.Planmeta.{Plan, Parsed, parsed, unparsed, is_proto}
use frit.Planmeta.Tiers.{parse_with_vocabulary}
use frit.Index.{File, Problem, Group, Entry, add_version, collect}

-- The two maps by object id, the problems so far and the plans so far.
pub record Scan : Type 0 where
  pub plans : Text → Option Plan
  pub failed : Text → Bool
  pub problems : List Problem
  pub groups : List Group

abbrev pub with_plan : (Text → Option Plan) → Text → Plan → Text → Option Plan
with_plan plans oid p o = if text_eq o oid then some p else plans o

abbrev pub with_failed : (Text → Bool) → Text → Text → Bool
with_failed failed oid o = text_eq o oid || failed o

abbrev pub first_read : File → Scan → Parsed → Scan
first_read f s (unparsed e) = record s {
  failed = with_failed s.failed f.oid;
  problems = s.problems ++ record { path = f.path; err = e } ∷ [];
}
first_read f s (parsed p) = record s {
  plans = with_plan s.plans f.oid p;
  groups = add_version p f s.groups;
}

module _ (parse : Text → Parsed) (vocab : List Text) where
  abbrev pub read_file : File → Scan → Option Plan → Scan
  read_file f s (some p) = record s { groups = add_version p f s.groups }
  read_file f s none = first_read f s (parse_with_vocabulary parse f.content vocab)

  -- The body of the loop.
  unfoldable pub scan_file : File → Scan → Scan
  scan_file f s = if is_proto f.path || s.failed f.oid then s else read_file f s (s.plans f.oid)

  unfoldable pub scan_from : List File → Scan → Scan
  scan_from [] s = s
  scan_from (f ∷ fs) s = scan_from fs (scan_file f s)

  abbrev pub no_scan : Scan
  no_scan = record { plans = λ o. none; failed = λ o. false; problems = []; groups = [] }

  unfoldable pub build : Text → Text → Text → List File → List Entry × List Problem
  build host repo preferred files =
      let s = scan_from files no_scan in (collect host repo preferred s.groups, s.problems)
