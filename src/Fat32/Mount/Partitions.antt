-- ===== src/Fat32/Mount/Partitions.antt =====
-- How `fat32_init` chooses a partition.
use Prim.Native.Nat.{bit_or}
use rpi0_naivegfs.Base.{
  ℕ, zero, suc, ◌+◌, ◌*◌, ◌^◌, ◌≤◌, ◌<◌, ◌≡◌, ◌≢◌, refl, true, inl, inr, List, done, Bool-cases,
  ◌==◌, ==→eq, not_==→ne, eq→==, ==_self, ne→not_==, arith, and_then-done,
}
use rpi0_naivegfs.Fat32.Layout.{decode_volume_id, partition_of}
use rpi0_naivegfs.Fat32.State.{SectorDevice, Fs, update, volume}
use rpi0_naivegfs.Fat32.Mount.{
  take_partition, probe_partitions, volume_data, load_volume, fat32_init,
}

module _ {Store : Type 0} (dev : SectorDevice Store) where
  -- With one partition taken, another in use stops the loop.
  probe_second :
      (mbr : List ℕ) (n i j : ℕ) (s t : Fs Store)
      → i ≤ j
      → j < i + n
      → (partition_of mbr j).num_sectors ≢ 0
      → probe_partitions dev mbr n i 1 s ≢ done tt t
  unfolding probe_partitions
  probe_second mbr zero i j s t lo hi used e = absurd (omega arith)
  probe_second mbr (suc n) i j s t lo hi used e =
      elim (Bool-cases ((partition_of mbr i).num_sectors == 0)) [
        | inl empty ↦
            let later : i ≢ j = λ same. used (==→eq _ 0 (rw (← same) empty)) in
            probe_second mbr n (i + 1) j s t (omega arith) (omega arith) used (rw empty at e)
        | inr taken ↦ let e' = rw taken at e in cc e'
      ]

  probe_two :
      (mbr : List ℕ) (n m i j : ℕ) (s t : Fs Store)
      → m ≤ i
      → i < j
      → j < m + n
      → (partition_of mbr i).num_sectors ≢ 0
      → (partition_of mbr j).num_sectors ≢ 0
      → probe_partitions dev mbr n m 0 s ≢ done tt t
  unfolding probe_partitions
  probe_two mbr zero m i j s t lo lt hi used_i used_j e = absurd (omega arith)
  probe_two mbr (suc n) m i j s t lo lt hi used_i used_j e =
      elim (Bool-cases ((partition_of mbr m).num_sectors == 0)) [
        | inl empty ↦
            let later : m ≢ i = λ same. used_i (==→eq _ 0 (rw (← same) empty)) in
            probe_two mbr n (m + 1) i j s t (omega arith) lt (omega arith) used_i used_j
              (rw empty at e)
        | inr taken ↦
            let (a, u, run, after) =
              and_then-done (take_partition dev (partition_of mbr m) m 0 s)
                (λ _. probe_partitions dev mbr n (m + 1) (0 + 1)) (rw taken at e) in
            probe_second mbr n (m + 1) j u t (omega arith) (omega arith) used_j after
      ]

  -- The state once partition i is taken.
  abbrev pub mounted_at : ℕ → List ℕ → Fs Store → Fs Store
  mounted_at i mbr s =
      let p = partition_of mbr i in
      let v = decode_volume_id (dev.read_sector s.disk p.lba_begin) in
      record s {
        chosen_partition = i;
        partitions_in_use = bit_or s.partitions_in_use (2 ^ i);
        all_vol_ids = update s.all_vol_ids i v;
        vol_data = update s.vol_data i (volume_data p v);
      }

  probe_none :
      (mbr : List ℕ) (n i count : ℕ) (s : Fs Store)
      → ((j : ℕ) → i ≤ j → j < i + n → (partition_of mbr j).num_sectors ≡ 0)
      → probe_partitions dev mbr n i count s ≡ done tt s
  unfolding probe_partitions
  probe_none mbr zero i count s empty = refl
  probe_none mbr (suc n) i count s empty =
      rw (eq→== _ 0 (empty i (omega arith) (omega arith)))
        (probe_none mbr n (i + 1) count s (λ j lo hi. empty j (omega arith) (omega arith)))

  -- With exactly one partition in use, the loop takes that one.
  pub probe_one :
      (mbr : List ℕ) (n i k : ℕ) (s : Fs Store)
      → i ≤ k
      → k < i + n
      → (partition_of mbr k).num_sectors ≢ 0
      → (decode_volume_id (dev.read_sector s.disk (partition_of mbr k).lba_begin)).bytes_per_sector
        ≡ 512
      → ((j : ℕ) → i ≤ j → j < i + n → j ≢ k → (partition_of mbr j).num_sectors ≡ 0)
      → probe_partitions dev mbr n i 0 s ≡ done tt (mounted_at k mbr s)
  unfolding probe_partitions
  probe_one mbr zero i k s lo hi used size others = absurd (omega arith)
  probe_one mbr (suc n) i k s lo hi used size others = elim (Bool-cases (i == k)) [
    | inl here ↦
        let at : i ≡ k = ==→eq i k here in
        rw (at, ne→not_== _ 0 used, eq→== _ 512 size)
          (probe_none mbr n (k + 1) (0 + 1) (mounted_at k mbr s)
            (λ j a b. others j (omega arith) (omega arith) (omega arith)))
    | inr later ↦
        let away : i ≢ k = not_==→ne i k later in
        rw (eq→== _ 0 (others i (omega arith) (omega arith) away)) (
          probe_one mbr n (i + 1) k s (omega arith) (omega arith) used size
            (λ j a b ne. others j (omega arith) (omega arith) ne))
  ]

  -- With exactly one partition in use, of sectors of 512 bytes, `fat32_init` returns 0 with that
  -- partition chosen, its volume's data computed from its volume id, the file system initialised,
  -- and the table taken to have 128 words for each of its sectors, if its size in bytes fits 32 bits.
  pub fat32_init-one_partition :
      (k : ℕ) (s : Fs Store)
      → let mbr = dev.read_sector s.disk 0 in
        let p = partition_of mbr k in
        let v = decode_volume_id (dev.read_sector s.disk p.lba_begin) in
        k < 4
        → p.num_sectors ≢ 0
        → ((j : ℕ) → j < 4 → j ≢ k → (partition_of mbr j).num_sectors ≡ 0)
        → v.bytes_per_sector ≡ 512
        → 512 * v.sectors_per_fat < 2 ^ 32
        → (t : Fs Store) × (fat32_init dev s ≡ done 0 t)
          × (t.chosen_partition ≡ k)
          × (volume t ≡ volume_data p v)
          × (t.did_init ≡ true)
          × (t.fat_end ≡ 128 * v.sectors_per_fat)
          × (t.disk ≡ s.disk)
  unfolding fat32_init
  fat32_init-one_partition k s lt used others size fits =
      let mbr = dev.read_sector s.disk 0 in
      let run =
        probe_one mbr 4 0 k s (omega arith) (omega arith) used size
          (λ j a b ne. others j (omega arith) ne) in
      (
        load_volume dev (mounted_at k mbr s),
        rw run,
        refl,
        rw (==_self k),
        refl,
        rw (==_self k, size) (omega arith),
        refl,
      )

  -- With two partitions in use, `fat32_init` does not return.
  pub fat32_init-two_partitions :
      (i j : ℕ) (s t : Fs Store) (r : ℕ)
      → let mbr = dev.read_sector s.disk 0 in
        i < j
        → j < 4
        → (partition_of mbr i).num_sectors ≢ 0
        → (partition_of mbr j).num_sectors ≢ 0
        → fat32_init dev s ≢ done r t
  unfolding fat32_init
  fat32_init-two_partitions i j s t r lt fits used_i used_j e =
      let (u, v, run, after) =
        and_then-done (probe_partitions dev (dev.read_sector s.disk 0) 4 0 0 s)
          (λ _ w. done 0 (load_volume dev w)) e in
      probe_two (dev.read_sector s.disk 0) 4 0 i j s v (omega arith) lt (omega arith) used_i used_j
        run
