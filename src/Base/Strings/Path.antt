-- ===== src/Base/Strings/Path.antt =====
-- What the source uses of `path` and `path/filepath`, on paths with `/`.
use mathlib.Core.Bool.{Bool}
use mathlib.Core.Option.{Option, none, some}
use mathlib.Core.List.{[], ◌∷◌, ◌++◌}
use Prim.Native.Nat.{ℕ}
use frit.Base.Lists.{any}
use frit.Base.Strings.{Text, codes, is_empty, trim_right_of, text_eq}
use frit.Base.Tests.{◌==◌, if◌then◌else◌}

abbrev pub is_slash : ℕ → Bool
is_slash c = c == b'/'

-- What stands behind the last slash.
unfoldable pub last_segment : Text → Text
last_segment [] = []
last_segment (x ∷ xs) =
    let rest = last_segment xs in
    if any is_slash xs then rest else if is_slash x then xs else x ∷ xs

-- `path.Base` and `filepath.Base`
unfoldable pub path_base : Text → Text
path_base p =
    let last = last_segment (trim_right_of b'/' p) in
    if is_empty p then codes "." else if is_empty last then codes "/" else last

-- What stands before the last slash, the slash included.
unfoldable pub front_segments : Text → Text
front_segments [] = []
front_segments (x ∷ xs) =
    let rest = front_segments xs in
    if any is_slash xs then x ∷ rest else if is_slash x then x ∷ [] else []

-- `filepath.Dir` of a clean path: no slash behind it, none doubled, no `.` segment.
unfoldable pub path_dir : Text → Text
path_dir p =
    let front = trim_right_of b'/' (front_segments p) in
    if is_empty (front_segments p) then codes "." else if is_empty front then codes "/" else front

-- `filepath.Join` of a clean path, which is not empty, and a name.
abbrev pub path_join : Text → Text → Text
path_join dir name = if text_eq dir (codes ".") then name else dir ++ b'/' ∷ name

abbrev before : ℕ → Option Text → Option Text
before x none = none
before x (some rest) = some (x ∷ rest)

-- `strings.CutSuffix`: `none` when the suffix is not there.
unfoldable pub cut_suffix : Text → Text → Option Text
cut_suffix [] suffix = if is_empty suffix then some [] else none
cut_suffix (x ∷ xs) suffix =
    let rest = cut_suffix xs suffix in if text_eq (x ∷ xs) suffix then some [] else before x rest

-- `strings.TrimSuffix`
unfoldable pub trim_suffix : Text → Text → Text
trim_suffix s suffix = elim (cut_suffix s suffix) [ none ↦ s | some rest ↦ rest ]

-- The longest front whose characters all pass, and what stands behind it.
unfoldable pub span : (ℕ → Bool) → Text → Text × Text
span p [] = ([], [])
span p (x ∷ xs) = let (front, rest) = span p xs in if p x then (x ∷ front, rest) else ([], x ∷ xs)
