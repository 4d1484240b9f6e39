-- ===== src/Claim/Message.antt =====
-- internal/claim/lease.go and claim.go: the text of a marker commit, written and read.
pub mod Laws
use frit.Base.{
  ℕ, Bool, true, false, ◌||◌, Option, none, some, List, [], ◌∷◌, ◌++◌, Text, codes, text_eq,
  is_empty, cut, cut_prefix, has_prefix, split, trim_space, if◌then◌else◌,
}
use frit.Base.Strings.Decimal.{decimal, int_text, parse_word}
use frit.Claim.{Kind, claim, beat, release, takeover, kind_text, LeaseOptions, Marker}

-- `fmt.Sprintf("plan %d: ", planID)`
unfoldable pub subject_prefix : ℕ → Text
subject_prefix id = codes "plan " ++ (decimal id ++ codes ": ")

-- The kind that what follows the prefix spells. A claim may carry a lane's slug.
abbrev kind_of : Text → Option Kind
kind_of rest =
    if text_eq rest (kind_text beat)
    then some beat
    else if text_eq rest (kind_text release)
    then some release
    else if text_eq rest (kind_text takeover)
    then some takeover
    else if text_eq rest (kind_text claim) || has_prefix rest (codes "claim ")
    then some claim
    else none

unfoldable pub marker_kind : Text → ℕ → Option Kind
marker_kind subject id = elim (cut_prefix subject (subject_prefix id)) [
  | none ↦ none
  | some rest ↦ kind_of rest
]

-- `markerSubject`: the lease's own subjects, spelled out whole.
unfoldable pub marker_subject : Text → ℕ → Bool
marker_subject subject id = elim (cut_prefix subject (subject_prefix id)) [
  | none ↦ false
  | some rest ↦
      text_eq rest (kind_text claim)
      || (text_eq rest (kind_text beat)
          || (text_eq rest (kind_text release) || text_eq rest (kind_text takeover)))
]

abbrev not_beat : Kind → Option Kind
not_beat beat = none
not_beat k = some k

-- `none` for a beat, and for what is no marker of the plan.
unfoldable pub terminal_marker_kind : Text → ℕ → Option Kind
unfolding marker_kind
terminal_marker_kind subject id = elim (marker_kind subject id) [
  | none ↦ none
  | some k ↦ not_beat k
]

-- `""` is recorded as `-`.
abbrev pub or_dash : Text → Text
or_dash s = if is_empty s then codes "-" else s

abbrev base_line : Text → Text
base_line base = if is_empty base then [] else codes "\nbase:    " ++ base

unfoldable pub lease_message : Kind → LeaseOptions → ℕ → Text → Text → Text
unfolding subject_prefix
lease_message kind opts epoch nonce base =
    (subject_prefix opts.plan_id ++ kind_text kind)
    ++ (codes "\n\nepoch:   "
        ++ (int_text epoch
            ++ (codes "\nnonce:   "
                ++ (nonce
                    ++ (codes "\nholder:  "
                        ++ (opts.holder
                            ++ (codes "\nlane:    "
                                ++ (or_dash opts.lane
                                    ++ (codes "\nsession: "
                                        ++ (or_dash opts.session ++ base_line base))))))))))

abbrev set_epoch : Option ℕ → Marker → Marker
set_epoch none m = m
set_epoch (some n) m = record m { epoch = n }

unfoldable pub apply_field : Text → Text → Marker → Marker
apply_field key val m =
    if text_eq key (codes "epoch")
    then set_epoch (parse_word val) m
    else if text_eq key (codes "nonce")
    then record m { nonce = val }
    else if text_eq key (codes "holder")
    then record m { holder = val }
    else if text_eq key (codes "lane")
    then record m { lane = val }
    else if text_eq key (codes "session")
    then record m { session = val }
    else if text_eq key (codes "base")
    then record m { base = val }
    else m

-- One line behind the subject; a line with no colon is skipped.
unfoldable pub apply_line : Text → Marker → Marker
unfolding apply_field
apply_line line m = elim (cut 58 line) [
  | none ↦ m
  | some (key, val) ↦ apply_field (trim_space key) (trim_space val) m
]

unfoldable pub apply_lines : List Text → Marker → Marker
unfolding apply_line
apply_lines [] m = m
apply_lines (l ∷ ls) m = apply_lines ls (apply_line l m)

abbrev pub blank : Kind → Marker
blank k = record {
  kind = k;
  epoch = 0;
  nonce = [];
  holder = [];
  lane = [];
  session = [];
  base = [];
}

-- A marker of the old protocol has no nonce, and is none of the lease's.
abbrev with_nonce : Marker → Option Marker
with_nonce m = if is_empty m.nonce then none else some m

abbrev parse_lines : ℕ → List Text → Option Marker
parse_lines id [] = none
parse_lines id (subject ∷ lines) = elim (marker_kind subject id) [
  | none ↦ none
  | some k ↦ with_nonce (apply_lines lines (blank k))
]

unfoldable pub parse_marker : ℕ → Text → Option Marker
unfolding marker_kind apply_lines
parse_marker id body = parse_lines id (split 10 body)

-- `markerHost`: the first line that begins with `host:` or `holder:`.
host_in : List Text → Text
host_in [] = []
host_in (l ∷ ls) =
    let rest = host_in ls in
    elim (cut_prefix (trim_space l) (codes "host:")) [
      | some host ↦ trim_space host
      | none ↦ elim (cut_prefix (trim_space l) (codes "holder:")) [
        | some holder ↦ trim_space holder
        | none ↦ rest
      ]
    ]

unfoldable pub marker_host : Text → Text
unfolding host_in
marker_host body = host_in (split 10 body)
