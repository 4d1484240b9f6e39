-- ===== src/Claim.antt =====
-- internal/claim: the lease on a plan. This file has the options of a lease, the lease and the
-- marker commit's facts (lease.go); the children have the texts of a marker, the refs, and what a
-- lease does through git.
use frit.Base.{ℕ, Bool, true, false, ◌&&◌, not, Text, codes, text_eq, is_empty, List}
pub mod Message
pub mod Refs
pub mod Host
pub mod Fault
pub mod Effects
pub mod Push
pub mod Remote
pub mod Read
pub mod Token
pub mod Lease
pub mod Rescue
pub mod Decorated

pub data Kind : Type 0 where
  claim beat release takeover : Kind

abbrev pub kind_text : Kind → Text
kind_text claim = codes "claim"
kind_text beat = codes "beat"
kind_text release = codes "release"
kind_text takeover = codes "takeover"

pub record LeaseOptions : Type 0 where
  pub plan_id : ℕ
  pub remote : Text
  pub base : Text
  pub holder : Text
  pub lane : Text
  pub session : Text

-- An epoch is the 64-bit word of an int, in two's complement.
pub record Marker : Type 0 where
  pub kind : Kind
  pub epoch : ℕ
  pub nonce : Text
  pub holder : Text
  pub lane : Text
  pub session : Text
  pub base : Text

unfoldable pub has_lane : Marker → Bool
has_lane m = not (is_empty m.lane) && not (text_eq m.lane (codes "-"))
