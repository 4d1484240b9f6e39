-- ===== src/Planmeta/Resume/Laws.antt =====
-- Which phase a folder plan resumes at, and whose handoff it inherits.
use frit.Base.{◌≡◌, ◌⊎◌, true, false, Option, none, some, List, [], ◌∷◌, ◌++◌, Text}
use frit.Planmeta.Files.{Dir}
use frit.Planmeta.Resume.{
  Resumed, resumed, no_phase, unreadable, PhaseState, Readers, read_phase_state, bundle_of,
  text_or_empty,
}

module _ (readers : Readers) (dir : Dir) where
  -- The phase files that read as those of phases that are over.
  abbrev pub AllOver : List Text → Type 0
  AllOver [] = Unit
  AllOver (n ∷ ns) =
      ((st : PhaseState) × (read_phase_state readers dir n ≡ some st) × (st.is_over ≡ true))
      × AllOver ns

  abbrev handoff_by : Option PhaseState → Text
  handoff_by none = []
  handoff_by (some st) = text_or_empty st.handoff

  -- The handoff that the last phase of the list left, and no earlier phase's.
  abbrev pub handoff_left : Text → List Text → Text
  handoff_left start [] = start
  handoff_left start (n ∷ []) = handoff_by (read_phase_state readers dir n)
  handoff_left start (n ∷ m ∷ ms) = handoff_left start (m ∷ ms)

  -- A phase of the list with the phases in front of it, which are over.
  pub record IsFirst (ns front : List Text) (n : Text) : Type 0 where
    pub behind : List Text
    pub split : ns ≡ front ++ n ∷ behind
    pub over : AllOver front

  abbrev pub IsOpen : List Text → List Text → Text → Text → List Text → Resumed → Type 0
  IsOpen vocab ns body start front r =
      (n : Text) × (st : PhaseState) × IsFirst ns front n
      × (read_phase_state readers dir n ≡ some st)
      × (st.is_over ≡ false)
      × (r ≡ resumed (bundle_of readers vocab body n (handoff_left start front) st))

  abbrev pub IsUnread : List Text → List Text → Resumed → Type 0
  IsUnread ns front r =
      (n : Text) × IsFirst ns front n × (read_phase_state readers dir n ≡ none) × (r ≡ unreadable)

  abbrev pub Outcome : List Text → Text → Text → List Text → Resumed → Type 0
  Outcome vocab body start ns r =
      (AllOver ns × (r ≡ no_phase))
      ⊎ ((front : List Text) × (IsOpen vocab ns body start front r ⊎ IsUnread ns front r))
