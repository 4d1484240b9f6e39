-- ===== src/Discovery/Window.antt =====
-- internal/discovery/stale.go: the staleness window of one work ref, on one host's clock. A time is
-- its nanoseconds, zero the zero time.
pub mod Laws
use frit.Base.{
  ℕ, ◌+◌, ◌*◌, ◌/◌, Bool, true, false, ◌&&◌, ◌||◌, not, Option, none, some, List, [], ◌∷◌, ◌++◌,
  map, Text, codes, text_eq, text_ltb, is_empty, join, ◌==◌, if◌then◌else◌, sort,
}
use frit.Base.Int.{ℤ, pos, sub_ℕ, ltb_ℤ}
use frit.Discovery.{Plan, Gap}

-- Two hours, and a quarter of that.
abbrev pub default_takeover_window : ℤ
default_takeover_window = pos (2 * 3600000000000)

abbrev pub default_sample_gap : ℤ
default_sample_gap = pos (2 * 3600000000000 / 4)

pub record Window : Type 0 where
  pub tip : Text
  pub first : ℕ
  pub last : ℕ
  pub samples : ℕ
  pub voided : Option Gap

unfoldable pub span : Window → ℤ
span w = if w.first == 0 then pos 0 else sub_ℕ w.last w.first

abbrev pub fresh : Text → ℕ → Option Gap → Window
fresh tip now voided = record { tip = tip; first = now; last = now; samples = 1; voided = voided }

unfoldable pub observe : Window → Text → ℕ → ℤ → Window
observe w tip now s_max =
    if is_empty w.tip || not (text_eq w.tip tip)
    then fresh tip now none
    else if ltb_ℤ s_max (sub_ℕ now w.last)
    then fresh tip now (some (record { gap = sub_ℕ now w.last; bound = s_max }))
    else record w { last = now; samples = w.samples + 1 }

unfoldable pub stale_hold : Window → ℕ → ℤ → ℤ → Bool
unfolding span
stale_hold w now t s_max =
    if is_empty w.tip
    then false
    else if ltb_ℤ s_max (sub_ℕ now w.last)
    then false
    else ltb_ℤ t (span w)

-- The entries of the map in branch order.
abbrev branch_before : Text × Text → Text × Text → Bool
branch_before a b = text_ltb a.0 b.0

unfoldable pub watch_tip : Plan → Text
watch_tip p = if not (is_empty p.hold_tip) then p.hold_tip else elim p.decorated_tips [
  | [] ↦ p.hold_tip
  | t ∷ ts ↦ join (codes " ") (map (λ e. e.0 ++ (codes "=" ++ e.1)) (sort branch_before (t ∷ ts)))
]
