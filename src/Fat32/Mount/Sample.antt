-- ===== src/Fat32/Mount/Sample.antt =====
-- A card with one partition, whose root directory is empty, and the state that `fat32_init` makes of
-- it.
use rpi0_naivegfs.Base.{
  ℕ, zero, suc, ◌+◌, ◌%◌, ◌^◌, ◌<◌, ◌≡◌, ◌≢◌, refl, sym, ap, ◌∙◌, false, List, ◌∷◌, ◌++◌, Outcome,
  done-injective, done, halted, running, replicate, arith,
}
use rpi0_naivegfs.Fat32.Layout.{partition_of, decode_partition, decode_volume_id}
use rpi0_naivegfs.Fat32.State.{Fs, update, table_sector, blank_sector}
use rpi0_naivegfs.Fat32.Mount.{take_partition, probe_partitions, fat32_init, word_at}
use rpi0_naivegfs.Fat32.Mount.Words.{word_at-words_from, table_sector-IsSector}
use rpi0_naivegfs.Fat32.Mount.Card.{IsVolume, IsCard, IsOnCard, table_of, fat32_init-IsOnCard}
use rpi0_naivegfs.Fat32.Sample.{Disk, memory_device, small_table, small_fs}

-- A partition of 256 sectors that begins at sector 64.
abbrev pub boot_record : List ℕ
boot_record =
    replicate 446 0
    ++ (0 ∷ 0 ∷ 0 ∷ 0 ∷ 0x0b ∷ 0 ∷ 0 ∷ 0 ∷ 64 ∷ 0 ∷ 0 ∷ 0 ∷ 0 ∷ 1 ∷ 0 ∷ 0 ∷ replicate 50 0)

abbrev pub volume_sector : List ℕ
volume_sector =
    replicate 11 0
    ++ (0
        ∷ 2
        ∷ 1
        ∷ 32
        ∷ 0
        ∷ 1
        ∷ (replicate 19 0 ++ (1 ∷ 0 ∷ 0 ∷ 0 ∷ 0 ∷ 0 ∷ 0 ∷ 0 ∷ 2 ∷ replicate 467 0)))

-- The table stands in sector 96, the root directory in sector 97.
abbrev pub card : Disk
card =
    update (update (update (λ lba. blank_sector) 0 boot_record) 64 volume_sector) 96
      (table_sector small_table 0)

abbrev pub cold_fs : Fs Disk
cold_fs = record small_fs { did_init = false; disk = card }

unused_sectors : (j : ℕ) → j < 4 → j ≢ 0 → (partition_of boot_record j).num_sectors ≡ 0
unfolding partition_of decode_partition
unused_sectors zero h ne = absurd (ne refl)
unused_sectors (suc zero) h ne = refl
unused_sectors (suc (suc zero)) h ne = refl
unused_sectors (suc (suc (suc zero))) h ne = refl
unused_sectors (suc (suc (suc (suc j)))) h ne = absurd (omega arith)

card-IsVolume : IsVolume boot_record 0 (decode_volume_id volume_sector)
unfolding partition_of decode_partition decode_volume_id
card-IsVolume = record {
  index = omega arith;
  used = λ e. omega (arith, e);
  others = unused_sectors;
  sector_size = refl;
  one_sector = refl;
  root = refl;
  count_pos = omega arith;
  reserved_pos = omega arith;
  copies_pos = omega arith;
  fits = omega arith;
}

pub card-IsCard : IsCard memory_device card 0
unfolding partition_of decode_partition decode_volume_id
card-IsCard = record { of_volume = card-IsVolume; table = table_sector-IsSector small_table 0 }

abbrev pub state_of : Outcome (Fs Disk) ℕ → Fs Disk
state_of (done a s) = s
state_of (halted s) = s
state_of (running s) = s

abbrev pub warm_fs : Fs Disk
warm_fs = state_of (fat32_init memory_device cold_fs)

pub warm_fs_lem : fat32_init memory_device cold_fs ≡ done 0 warm_fs
unfolding fat32_init probe_partitions take_partition partition_of decode_partition decode_volume_id
warm_fs_lem = refl

-- What the theorem on mounting gives of that state.
warm_fs-loaded :
    IsOnCard memory_device card 0 warm_fs
    × ((i : ℕ) → i < 128 → warm_fs.fat i ≡ word_at (table_of memory_device card 0) i)
warm_fs-loaded =
    let (t, run, on, same, words) = fat32_init-IsOnCard memory_device 0 cold_fs card-IsCard in
    let at : t ≡ warm_fs = (done-injective (sym run ∙ warm_fs_lem)).1 in rw (← at) (on, words)

pub warm_fs-IsOnCard : IsOnCard memory_device card 0 warm_fs
warm_fs-IsOnCard = warm_fs-loaded.0

card_table : table_of memory_device card 0 ≡ table_sector small_table 0
unfolding partition_of decode_partition decode_volume_id
card_table = refl

pub warm_fs-words : (i : ℕ) → i < 128 → warm_fs.fat i ≡ small_table i % 2 ^ 32
warm_fs-words i small =
    let at : 0 + i ≡ i = omega arith in
    warm_fs-loaded.1 i small
    ∙ ap (λ b. word_at b i) card_table
    ∙ word_at-words_from 128 0 i small_table small
    ∙ ap (λ j. small_table j % 2 ^ 32) at
