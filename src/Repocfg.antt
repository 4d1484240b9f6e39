-- ===== src/Repocfg.antt =====
-- internal/repocfg: the settings of one repository. This file has the config and its defaults
-- (config.go); Pattern has the hold patterns (pattern.go).
use frit.Base.{
  ℕ, Bool, true, false, Option, none, some, List, [], ◌∷◌, Text, codes, is_empty, if◌then◌else◌,
}
use frit.Base.Int.{ℤ}
use frit.Discovery.Window.{default_takeover_window, default_sample_gap}
pub mod Pattern
pub mod Laws

pub record Config : Type 0 where
  pub plan_dir : Text
  pub holds : List Text
  pub remote : Text
  pub base : Text
  pub takeover_window : ℤ
  pub sample_gap : ℤ

-- `holds` is `none` where the file leaves the key out; another field is then empty.
pub record FileConfig : Type 0 where
  pub plan_dir : Text
  pub holds : Option (List Text)
  pub remote : Text
  pub base : Text
  pub takeover_window : Text
  pub sample_gap : Text

abbrev pub lease_hold_pattern : Text
lease_hold_pattern = codes "plan/{id}"

abbrev pub default_hold_pattern : Text
default_hold_pattern = codes "plan/{id}-*"

unfoldable pub default_config : Config
default_config = record {
  plan_dir = codes "plan";
  holds = lease_hold_pattern ∷ default_hold_pattern ∷ [];
  remote = codes "origin";
  base = [];
  takeover_window = default_takeover_window;
  sample_gap = default_sample_gap;
}

-- What `Load` reports: the file's own error, an error of the YAML, or a duration that does not parse.
pub data LoadError : Type 0 where
  unreadable malformed bad_takeover_window bad_sample_gap : LoadError

pub data Loaded : Type 0 where
  loaded : Config → Loaded
  refused : LoadError → Loaded

-- The read of the file: absent, another error, or its content.
pub data FileRead : Type 0 where
  absent unreadable : FileRead
  content : Text → FileRead

abbrev or_default : Text → Text → Text
or_default value default = if is_empty value then default else value

-- A duration that the file leaves out keeps its default; `none` is one that does not parse.
abbrev duration_or : (Text → Option ℤ) → Text → ℤ → Option ℤ
duration_or parse value default = if is_empty value then some default else parse value

abbrev or_holds : Option (List Text) → List Text → List Text
or_holds none default = default
or_holds (some holds) default = holds

-- The merge of a file's fields over the defaults.
unfoldable pub merge : (Text → Option ℤ) → FileConfig → Config → Loaded
merge parse file cfg = elim (duration_or parse file.takeover_window cfg.takeover_window) [
  | none ↦ refused LoadError.bad_takeover_window
  | some window ↦ elim (duration_or parse file.sample_gap cfg.sample_gap) [
    | none ↦ refused LoadError.bad_sample_gap
    | some gap ↦ loaded (record {
      plan_dir = or_default file.plan_dir cfg.plan_dir;
      holds = or_holds file.holds cfg.holds;
      remote = or_default file.remote cfg.remote;
      base = or_default file.base cfg.base;
      takeover_window = window;
      sample_gap = gap;
    })
  ]
]

-- `Load` behind the read of the file. The YAML decoder and `time.ParseDuration` are arguments.
unfoldable pub load : (Text → Option FileConfig) → (Text → Option ℤ) → FileRead → Loaded
load decode parse FileRead.absent = loaded default_config
load decode parse FileRead.unreadable = refused LoadError.unreadable
load decode parse (FileRead.content text) = elim (decode text) [
  | none ↦ refused LoadError.malformed
  | some file ↦ merge parse file default_config
]
