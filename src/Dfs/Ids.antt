-- ===== src/Dfs/Ids.antt =====
-- `id_for_dfs` on sectors with a free entry and on full ones.
use rpi0_naivegfs.Base.{
  ℕ, ◌≡◌, ◌≢◌, refl, ◌∙◌, false, List, ◌∷◌, done, length, u16, minus_one, arith,
}
use rpi0_naivegfs.Strings.{ends}
use rpi0_naivegfs.Fat32.State.{SectorDevice, Fs, cluster_no_to_lba}
use rpi0_naivegfs.Dfs.{
  Entry, encode_entries, Scan, known, stop, write_back, scan_entries, config_entries, id_for_dfs,
  conclude,
}
use rpi0_naivegfs.Dfs.Scans.{HasFree, AllOther, scan_other, scan_known-ne, scan_again}
use rpi0_naivegfs.Dfs.Entries.{
  AllEntries, decode-encode_entries, length-encode_entries, length-decode_entries,
}

module _ {Store : Type 0} (dev : SectorDevice Store) where
  -- A sector of sixteen entries that is written is the one that is read.
  pub config_entries-write :
      (cfg : ℕ) (es : List Entry) (s : Fs Store)
      → AllEntries es
      → length es ≡ 16
      → config_entries dev cfg (record s {
        disk = dev.write_sector (encode_entries es) (cluster_no_to_lba s cfg) s.disk;
      })
        ≡ es
  unfolding config_entries cluster_no_to_lba
  config_entries-write cfg es s all len =
      rw
        (dev.read-write_same (encode_entries es) (cluster_no_to_lba s cfg) s.disk
          (omega (arith, length-encode_entries es all)))
        (rw (← len) (decode-encode_entries es all))

  config_len : (cfg : ℕ) (s : Fs Store) → length (config_entries dev cfg s) ≡ 16
  unfolding config_entries
  config_len cfg s = length-decode_entries 16 _

  -- A result -1 means that the sector was written back, where no entry has the id -1.
  written :
      (cfg : ℕ) (s t : Fs Store) (r : Scan)
      → r ≢ known minus_one
      → conclude dev cfg r s ≡ done minus_one t
      → (es : List Entry) × (r ≡ write_back es)
        × (t ≡ record s {
          disk = dev.write_sector (encode_entries es) (cluster_no_to_lba s cfg) s.disk;
        })
  written cfg s t (known i) ne e = absurd (ne (cc e))
  written cfg s t stop ne e = cc e
  written cfg s t (write_back es) ne e = (es, refl, cc e)

  -- Where the configuration sector has a free entry and the name does not start with a byte that ends
  -- strings, an id that `id_for_dfs` reports as taken, by -1, is what it returns for the same name
  -- from then on, cut to 16 bits, whatever id it is offered.
  pub id_for_dfs-again :
      (cfg c : ℕ) (cs : List ℕ) (unassigned other : ℕ) (s t : Fs Store)
      → ends c ≡ false
      → unassigned ≢ minus_one
      → AllEntries (config_entries dev cfg s)
      → HasFree (config_entries dev cfg s)
      → id_for_dfs dev cfg (c ∷ cs) unassigned s ≡ done minus_one t
      → id_for_dfs dev cfg (c ∷ cs) other t ≡ done (u16 unassigned) t
  unfolding id_for_dfs
  id_for_dfs-again cfg c cs unassigned other s t real given all has e =
      let es = config_entries dev cfg s in
      let (new, wrote, state) =
        written cfg s t (scan_entries (c ∷ cs) unassigned es)
          (λ h. scan_known-ne (c ∷ cs) unassigned es all h) e in
      let (found, all', len) = scan_again cs c real unassigned other es new given has all wrote in
      let len' : length new ≡ 16 = len ∙ config_len cfg s in
      rw (state, config_entries-write cfg new s all' len', found)

  -- Where every entry is in use for another name, `id_for_dfs` returns -1 as well, which reports
  -- the offered id as taken, but the entries stay as they were.
  pub id_for_dfs-full :
      (cfg unassigned : ℕ) (name : List ℕ) (s : Fs Store)
      → AllEntries (config_entries dev cfg s)
      → AllOther name (config_entries dev cfg s)
      → (t : Fs Store) × (id_for_dfs dev cfg name unassigned s ≡ done minus_one t)
        × (config_entries dev cfg t ≡ config_entries dev cfg s)
  unfolding id_for_dfs
  id_for_dfs-full cfg unassigned name s all other =
      let es = config_entries dev cfg s in
      (
        record s { disk = dev.write_sector (encode_entries es) (cluster_no_to_lba s cfg) s.disk },
        rw (scan_other name unassigned es other),
        config_entries-write cfg es s all (config_len cfg s),
      )
