-- ===== src/Fat32/Directory/Written.antt =====
-- What `insert_at` leaves in the sectors that it writes.
use rpi0_naivegfs.Fat32.Directory.Insert.{
  get_or-append_len, set-append_len, get_or-append_next, set-append_next,
}
use rpi0_naivegfs.Base.{
  ℕ, ◌+◌, ◌-◌, ◌≤◌, ◌<◌, ◌≡◌, ◌≢◌, ap, ◌∙◌, inl, inr, Bool-cases, ◌==◌, not_==→ne, ne→not_==, List,
  [], ◌∷◌, ◌++◌, Outcome, done, length, get_or, set, u32, arith, length-take, length-set,
  length-append, append-nil_lem,
}
use rpi0_naivegfs.Fat32.Layout.{DirRecord, decode_records, encode_records}
use rpi0_naivegfs.Fat32.Layout.RoundTrip.{
  IsRecord, AllRecords, decode-encode_records, length-encode_records,
}
use rpi0_naivegfs.Fat32.Layout.Sectors.{AllRecords-append, AllRecords-split}
use rpi0_naivegfs.Fat32.State.{SectorDevice, Fs, sectors_per_cluster, cluster_no_to_lba}
use rpi0_naivegfs.Fat32.Files.{fill_record, alloc_local_file_at}
use rpi0_naivegfs.Fat32.Directory.{zero_record, read_records, write_records, terminate, insert_at}

pub fill_record-IsRecord :
    (name : List ℕ) (c : ℕ) {r : DirRecord}
    → 11 ≤ length name
    → IsRecord r
    → IsRecord (fill_record name c r)
unfolding fill_record
fill_record-IsRecord name c long v = record {
  name_len = length-take 11 name long;
  attr_byte = omega arith;
  pad1_len = v.pad1_len;
  high_half = omega arith;
  pad2_len = v.pad2_len;
  low_half = omega arith;
  size_word = v.size_word;
}

terminate-IsRecord : {r : DirRecord} → IsRecord r → IsRecord (terminate r)
unfolding terminate
terminate-IsRecord {r} v = record {
  name_len = length-set r.dir_name 0 0 ∙ v.name_len;
  attr_byte = v.attr_byte;
  pad1_len = v.pad1_len;
  high_half = v.high_half;
  pad2_len = v.pad2_len;
  low_half = v.low_half;
  size_word = v.size_word;
}

module _ {Store : Type 0} (dev : SectorDevice Store) where
  -- What is written to a sector of a cluster is read from it.
  read_records-write_records :
      (records : List DirRecord) (c k : ℕ) (s : Fs Store)
      → AllRecords records
      → length records ≡ 16
      → read_records dev (write_records dev records c k s) c k ≡ records
  unfolding read_records write_records cluster_no_to_lba
  read_records-write_records records c k s all len =
      ap (decode_records 16) (
        dev.read-write_same (encode_records records) _ s.disk
          (omega (arith, length-encode_records records all)))
      ∙ (rw (append-nil_lem, len) at (decode-encode_records records [] all))

  -- The sector before the one that is written.
  read_records-write_records_next :
      (records : List DirRecord) (c k : ℕ) (s : Fs Store)
      → read_records dev (write_records dev records c (k + 1) s) c k ≡ read_records dev s c k
  unfolding read_records write_records cluster_no_to_lba
  read_records-write_records_next records c k s =
      ap (decode_records 16)
        (dev.read-write_other (encode_records records) _ _ s.disk (λ e. omega (arith, e)))

  write_records-kept :
      (records : List DirRecord) (c k lba : ℕ) (s : Fs Store)
      → lba ≢ u32 (cluster_no_to_lba s c + k)
      → dev.read_sector (write_records dev records c k s).disk lba ≡ dev.read_sector s.disk lba
  unfolding write_records
  write_records-kept records c k lba s ne =
      dev.read-write_other (encode_records records) (u32 (cluster_no_to_lba s c + k)) lba s.disk ne

  -- The state after an insertion: the sector of the free record holds the new one, and at most that
  -- sector and the one behind it in the cluster of `count` sectors are written.
  pub record IsInserted (count first c k : ℕ) (pre : List DirRecord) (f : DirRecord) (t1 : Fs Store)
      (o : Outcome (Fs Store) ℕ) : Type 0 where
    pub state : Store
    pub post : List DirRecord
    pub run : o ≡ done first (record t1 { disk = state })
    pub now : read_records dev (record t1 { disk = state }) c k ≡ pre ++ (f ∷ post)
    pub kept :
        (lba : ℕ)
        → lba ≢ u32 (cluster_no_to_lba t1 c + k)
        → (k + 1 < count → lba ≢ u32 (cluster_no_to_lba t1 c + (k + 1)))
        → dev.read_sector state lba ≡ dev.read_sector t1.disk lba

  pub insert_at-IsInserted :
      (count : ℕ) (name : List ℕ) (c k first : ℕ) (pre post : List DirRecord) (r f : DirRecord)
      (s t1 : Fs Store)
      → alloc_local_file_at dev r count name s ≡ done (first, f) t1
      → AllRecords (pre ++ (f ∷ post))
      → length (pre ++ (f ∷ post)) ≡ 16
      → k < sectors_per_cluster s
      → IsInserted
          (sectors_per_cluster s)
          first
          c
          k
          pre
          f
          t1
          (insert_at dev count name c k (length pre) (pre ++ (r ∷ post)) s)
  unfolding insert_at write_records cluster_no_to_lba
  insert_at-IsInserted count name c k first pre [] r f s t1 run all len small =
      let t2 = write_records dev (pre ++ (f ∷ [])) c k t1 in
      let at15 : length pre ≡ 15 = omega (arith, length-append pre (f ∷ [])) in
      let now2 = read_records-write_records (pre ++ (f ∷ [])) c k t1 all len in
      elim (Bool-cases (k == sectors_per_cluster s - 1)) [
        | inl last ↦ record {
          state = t2.disk;
          post = [];
          run =
              rw (
                get_or-append_len pre [] r zero_record,
                run,
                set-append_len pre [] r f,
                at15,
                last,
              );
          now = now2;
          kept = λ lba a b. write_records-kept (pre ++ (f ∷ [])) c k lba t1 a;
        }
        | inr more ↦
            let next =
              set (pre ++ (f ∷ [])) 0 (terminate (get_or (pre ++ (f ∷ [])) 0 zero_record)) in
            record {
              state = (write_records dev next c (k + 1) t2).disk;
              post = [];
              run = rw (
                get_or-append_len pre [] r zero_record,
                run,
                set-append_len pre [] r f,
                at15,
                more,
              );
              now = read_records-write_records_next next c k t2 ∙ now2;
              kept = λ lba a b.
                  write_records-kept next c (k + 1) lba t2
                    (b (omega (arith, not_==→ne k (sectors_per_cluster s - 1) more)))
                  ∙ write_records-kept (pre ++ (f ∷ [])) c k lba t1 a;
            }
      ]
  insert_at-IsInserted count name c k first pre (q ∷ qs) r f s t1 run all len small =
      let parts = AllRecords-split pre (f ∷ q ∷ qs) all in
      let written = pre ++ (f ∷ terminate q ∷ qs) in
      let inside : length pre ≢ 15 = λ e. omega (arith, length-append pre (f ∷ q ∷ qs)) in
      record {
        state = (write_records dev written c k t1).disk;
        post = terminate q ∷ qs;
        run = rw (
          get_or-append_len pre (q ∷ qs) r zero_record,
          run,
          set-append_len pre (q ∷ qs) r f,
          ne→not_== (length pre) 15 inside,
          get_or-append_next pre qs f q zero_record,
          set-append_next pre qs f q (terminate q),
        );
        now =
            read_records-write_records written c k t1
              (AllRecords-append pre (f ∷ terminate q ∷ qs) parts.0
                (parts.1.0, (terminate-IsRecord parts.1.1.0, parts.1.1.1)))
              (omega
                (arith, length-append pre (f ∷ q ∷ qs), length-append pre (f ∷ terminate q ∷ qs)));
        kept = λ lba a b. write_records-kept written c k lba t1 a;
      }
