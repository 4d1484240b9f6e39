-- ===== src/Claim/Message/Laws.antt =====
-- A marker that the lease writes is read back with the facts it was written with.
use frit.Base.{ℕ, ◌≤◌, ◌≡◌, false, List, [], ◌∷◌, ◌++◌, Text, codes, is_empty, trim_space, Lacks}
use frit.Base.Strings.Decimal.{int_text, max_int64}
use frit.Claim.{Kind, LeaseOptions, Marker}
use frit.Claim.Message.{or_dash}

-- A value that fits on a line and that trimming leaves alone.
pub record IsValue (s : Text) : Type 0 where
  pub one_line : Lacks 10 s
  pub trimmed : trim_space s ≡ s

-- The facts that fit on the lines of a marker.
pub record IsRecordable (opts : LeaseOptions) (epoch : ℕ) (nonce base : Text) : Type 0 where
  pub epoch_fits : epoch ≤ max_int64
  pub nonce_value : IsValue nonce
  pub nonce_there : is_empty nonce ≡ false
  pub holder_value : IsValue opts.holder
  pub lane_value : IsValue opts.lane
  pub session_value : IsValue opts.session
  pub base_value : IsValue base

-- The marker that the facts are.
abbrev pub recorded : Kind → LeaseOptions → ℕ → Text → Text → Marker
recorded kind opts epoch nonce base = record {
  kind = kind;
  epoch = epoch;
  nonce = nonce;
  holder = opts.holder;
  lane = or_dash opts.lane;
  session = or_dash opts.session;
  base = base;
}

-- The session's line and the base's, if there is a base.
session_lines : Text → Text → List Text
session_lines session [] = (codes "session: " ++ session) ∷ []
session_lines session (b ∷ bs) = (codes "session: " ++ session) ∷ (codes "base:    " ++ b ∷ bs) ∷ []

module _ (kind : Kind) (opts : LeaseOptions) (epoch : ℕ) (nonce base : Text)
    (r : IsRecordable opts epoch nonce base) where
  fact_lines : List Text
  fact_lines =
      []
      ∷ (codes "epoch:   " ++ int_text epoch)
      ∷ (codes "nonce:   " ++ nonce)
      ∷ (codes "holder:  " ++ opts.holder)
      ∷ (codes "lane:    " ++ or_dash opts.lane)
      ∷ session_lines (or_dash opts.session) base
