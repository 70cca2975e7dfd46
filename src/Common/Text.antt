-- ===== src/Common/Text.antt =====
-- strings.TrimSpace on ASCII text.
use Prim.Native.Nat.{ℕ}
use mathlib.Core.Bool.{Bool, ◌&&◌, ◌||◌}
use mathlib.Core.List.{[], ◌∷◌}
use design_pocs.Common.Tests.{leb, ◌==◌, if◌then◌else◌}
use design_pocs.Common.Files.{Bytes, bytes_eq}

abbrev pub is_space : ℕ → Bool
is_space c = (c == 32) || (leb 9 c && leb c 13)

abbrev pub trim_left : Bytes → Bytes
trim_left [] = []
trim_left (c ∷ s) = let rest = trim_left s in if is_space c then rest else c ∷ s

abbrev pub trim_right : Bytes → Bytes
trim_right [] = []
trim_right (c ∷ s) =
    let rest = trim_right s in if is_space c && bytes_eq rest [] then [] else c ∷ rest

unfoldable pub trim_space : Bytes → Bytes
unfolding bytes_eq
trim_space s = trim_right (trim_left s)
