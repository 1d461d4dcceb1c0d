-- ===== src/Base/Texts.antt =====
-- Go's `strings.TrimPrefix`.
use Prim.Native.String.{String, len, slice, ◌++◌ as ◌⊹◌}
use text.Mathlib.Text.{starts_with}
use text.Mathlib.TextPositions.{len-append, slice-append_right, starts_with-append}
use mathlib.Core.Path.{◌≡◌, refl}
use mathlib.Core.Bool.{false}
use fluxa.Base.Tests.{if◌then◌else◌}

abbrev pub trim_prefix : String → String → String
trim_prefix s prefix = if starts_with s prefix then slice s (len prefix) (len s) else s

-- A prefix that is there is taken away, and the text behind it is left.
pub trim_prefix-append : (prefix s : String) → trim_prefix (prefix ⊹ s) prefix ≡ s
trim_prefix-append prefix s =
    rw (starts_with-append prefix s, len-append prefix s) (slice-append_right prefix s)

pub trim_prefix-absent :
    (prefix s : String) → starts_with s prefix ≡ false → trim_prefix s prefix ≡ s
trim_prefix-absent prefix s h = rw h refl
