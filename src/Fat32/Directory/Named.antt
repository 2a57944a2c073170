-- ===== src/Fat32/Directory/Named.antt =====
-- The names of files that `fat32_alloc_local_file` makes, and the search for them.
use rpi0_naivegfs.Base.{
  ℕ, zero, suc, ◌+◌, ◌*◌, ◌/◌, ◌%◌, ◌^◌, ◌≤◌, ◌<◌, ◌≡◌, ◌≢◌, refl, ap, Option, some, List, [], ◌∷◌,
  ◌++◌, length, take, get_or, arith, ne→not_==,
}
use rpi0_naivegfs.Strings.{strncmp}
use rpi0_naivegfs.Fat32.Layout.{DirRecord}
use rpi0_naivegfs.Fat32.Files.{fill_record}
use rpi0_naivegfs.Fat32.Directory.{search_records}
use rpi0_naivegfs.Fat32.Directory.Lookup.{search_records-append}

-- A name that a record can hold and that is not taken for the terminal.
pub record IsName (name : List ℕ) : Type 0 where
  pub long : 11 ≤ length name
  pub real : get_or name 0 0 ≢ 0

strncmp-take : (n : ℕ) (a : List ℕ) → strncmp (take n a) a n ≡ 0
unfolding strncmp
strncmp-take zero a = refl
strncmp-take (suc n) [] = refl
strncmp-take (suc n) (x ∷ a) = ground (arith, strncmp-take n a)

get_or-take : (n : ℕ) (a : List ℕ) → 1 ≤ n → get_or (take n a) 0 0 ≡ get_or a 0 0
get_or-take zero a h = absurd (omega arith)
get_or-take (suc n) [] h = refl
get_or-take (suc n) (x ∷ a) h = refl

-- The search stops at the new record.
pub search-fill_record :
    (name : List ℕ) (c : ℕ) (pre post : List DirRecord) (r : DirRecord)
    → IsName name
    → c < 2 ^ 32
    → search_records name pre ≡ Option.none
    → search_records name (pre ++ (fill_record name c r ∷ post)) ≡ some c
unfolding search_records fill_record
search-fill_record name c pre post r v small quiet =
    let whole : c % 65536 + c / 65536 % 65536 * 65536 ≡ c = omega arith in
    rw
      (
        search_records-append,
        quiet,
        get_or-take 11 name (omega arith),
        ne→not_== (get_or name 0 0) 0 v.real,
        strncmp-take 11 name,
      )
      (ap some whole)
