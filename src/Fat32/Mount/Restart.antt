-- ===== src/Fat32/Mount/Restart.antt =====
-- `fat32_init` on a disk that an earlier session has left.
use rpi0_naivegfs.Base.{ℕ, ◌+◌, ◌%◌, ◌^◌, ◌<◌, ◌≡◌, ap, sym, ◌∙◌, done, arith}
use rpi0_naivegfs.Fat32.State.{SectorDevice, Fs, table_sector, volume}
use rpi0_naivegfs.Fat32.Mount.{word_at, volume_data, fat32_init}
use rpi0_naivegfs.Fat32.Mount.Words.{word_at-words_from, table_sector-IsSector}
use rpi0_naivegfs.Fat32.Mount.Card.{
  IsCard, IsOnCard, partition, volume_id, table_of, begin_lba, fat32_init-IsOnCard,
}

module _ {Store : Type 0} (dev : SectorDevice Store) (d : Store) (k : ℕ) (card : IsCard dev d k)
    (v : Fs Store) (on : IsOnCard dev d k v) where
  same_begin :
      (volume v).fat_begin_lba
      ≡ (partition dev d k).lba_begin + (volume_id dev d k).num_reserved_sectors
  same_begin = ap (λ u. u.fat_begin_lba) on.same_volume ∙ begin_lba card.of_volume

  same_mbr : dev.read_sector v.disk 0 ≡ dev.read_sector d 0
  same_mbr = on.below 0 (omega (arith, same_begin, card.of_volume.reserved_pos))

  same_id :
      dev.read_sector v.disk (partition dev d k).lba_begin
      ≡ dev.read_sector d (partition dev d k).lba_begin
  same_id =
      on.below (partition dev d k).lba_begin
        (omega (arith, same_begin, card.of_volume.reserved_pos))

  same_table : table_of dev v.disk k ≡ table_sector v.fat 0
  same_table =
      rw (table_of, same_mbr, same_id)
        (ap (dev.read_sector v.disk) (omega (arith, same_begin))
          ∙ on.synced 0 (omega (arith, on.mounted.table_pos)))

  left-IsCard : IsCard dev v.disk k
  left-IsCard = record {
    of_volume = rw (same_mbr, same_id) card.of_volume;
    table = rw same_table (table_sector-IsSector v.fat 0);
  }

  -- Let a session that mounted a card, as IsCard describes it, of one partition with a table of one
  -- sector have left a state that is still mounted, with the table on the disk that in memory, and
  -- nothing changed below the table. Then `fat32_init` on that disk, whatever memory holds, returns
  -- 0 and mounts the same volume, its table on the disk again that in memory, which is the one that
  -- the session left, each word cut to 32 bits, and leaves the disk as it is.
  pub fat32_init-again :
      (memory : Fs Store)
      → (w : Fs Store) × (fat32_init dev (record memory { disk = v.disk }) ≡ done 0 w)
        × IsOnCard dev d k w
        × (w.disk ≡ v.disk)
        × ((i : ℕ) → i < 128 → w.fat i ≡ v.fat i % 2 ^ 32)
  fat32_init-again memory =
      let (w, run, now, same, words) =
        fat32_init-IsOnCard dev k (record memory { disk = v.disk }) left-IsCard in
      let volumes : volume w ≡ volume_data (partition dev d k) (volume_id dev d k) =
        now.same_volume ∙ (rw (same_mbr, same_id)) in
      let begin : (volume w).fat_begin_lba ≡ (volume v).fat_begin_lba =
        ap (λ u. u.fat_begin_lba) (volumes ∙ sym on.same_volume) in
      (
        w,
        run,
        record {
          mounted = now.mounted;
          synced = now.synced;
          same_volume = volumes;
          table_end = now.table_end;
          below = λ lba h. now.below lba h ∙ on.below lba (omega (arith, begin));
        },
        same,
        λ i small.
            words i small
            ∙ ap (λ b. word_at b i) same_table
            ∙ word_at-words_from 128 0 i v.fat small
            ∙ ap (λ j. v.fat j % 2 ^ 32) (omega arith),
      )
