-- ===== src/Strings/Examples.antt =====
-- The theorems on strings at short strings.
use rpi0_naivegfs.Base.{ℕ, ◌≡◌, ◌↔◌, List, [], ◌∷◌}
use rpi0_naivegfs.Strings.{strncmp}
use rpi0_naivegfs.Strings.Laws.{text, Overlap, strncmp-Overlap_iff}

abbrev short_name : List ℕ
short_name = b'f' ∷ b's' ∷ 0 ∷ []

abbrev long_name : List ℕ
long_name = b'f' ∷ b's' ∷ b'2' ∷ 0 ∷ []

strncmp-Overlap_iff_example :
    (strncmp short_name long_name 30 ≡ 0) ↔ Overlap (text 30 short_name) (text 30 long_name)
strncmp-Overlap_iff_example = strncmp-Overlap_iff 30 short_name long_name
