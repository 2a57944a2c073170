-- ===== src/Protocol/Dialogue/Pi.antt =====
-- What `entry` does with what the mac sends.
use Prim.Native.Nat.{bit_or}
use mathlib.Core.List.{append_assoc}
use rpi0_naivegfs.Base.{
  ℕ, zero, suc, ◌*◌, ◌/◌, ◌%◌, ◌≤◌, ◌<◌, ◌^◌, ◌≡◌, refl, ap, ◌∙◌, Bool, true, false, inl, inr,
  Bool-cases, ◌==◌, ◌&&◌, List, [], ◌∷◌, ◌++◌, done, length, drop, bytes32, word32, minus_one,
  arith, ==→eq, not_==→ne,
}
use rpi0_naivegfs.Output.{exit_text}
use rpi0_naivegfs.Fat32.State.{SectorDevice, Fs}
use rpi0_naivegfs.Fat32.Mount.{fat32_init}
use rpi0_naivegfs.Dfs.{dfs_init_config, id_for_dfs}
use rpi0_naivegfs.Protocol.Line.{Line, send, fs_id_start, config_init, request_id}
use rpi0_naivegfs.Protocol.Mac.{frame}
use rpi0_naivegfs.Protocol.Pi.{
  uart_get8, uart_put_dummy, uart_put_dummy2, get_word, wait_rounds, wait_for, on_line, on_fs,
  report_id, entry,
}
use rpi0_naivegfs.Protocol.Names.{
  AllChars, get_word_lem, answers, answered, get_string-frame_aligned,
}
use rpi0_naivegfs.Protocol.Dialogue.{dummies, claim, mac_text, pi_text, answers_lem}

-- What `dfs_name` holds once the name is received, over what the array held before.
abbrev pub dfs_name_of : List ℕ → List ℕ → List ℕ
dfs_name_of name buf =
    let received = name ++ (0xff ∷ 0xff ∷ 0xff ∷ 0xff ∷ []) in
    received ++ drop (length received) buf

wait_fs_id_start :
    (more t : List ℕ)
    → wait_for fs_id_start 0 (record { rx = bytes32 fs_id_start ++ more; tx = t })
      ≡ done fs_id_start (record { rx = more; tx = t })
unfolding wait_for wait_rounds uart_get8
wait_fs_id_start more t = refl

wait_config_init :
    (more t : List ℕ)
    → wait_for config_init fs_id_start (record { rx = bytes32 config_init ++ more; tx = t })
      ≡ done config_init (record { rx = more; tx = t })
unfolding wait_for wait_rounds uart_get8
wait_config_init more t = refl

wait_request_id :
    (more t : List ℕ)
    → wait_for request_id 0 (record { rx = bytes32 request_id ++ more; tx = t })
      ≡ done request_id (record { rx = more; tx = t })
unfolding wait_for wait_rounds uart_get8
wait_request_id more t = refl

-- The low byte of the word that offers an id.
abbrev all_low : ℕ → Bool
all_low zero = true
all_low (suc i) = (bit_or 0xffff_ff00 i % 256 == i) && all_low i

all_low_lem : (n i : ℕ) → all_low n ≡ true → i < n → bit_or 0xffff_ff00 i % 256 ≡ i
all_low_lem zero i h small = absurd (omega arith)
all_low_lem (suc n) i h small =
    let (here, rest) = both (bit_or 0xffff_ff00 n % 256 == n) (all_low n) h in
    elim (Bool-cases (i == n)) [
      | inl at ↦ rw (==→eq i n at) (==→eq (bit_or 0xffff_ff00 n % 256) n here)
      | inr below ↦ all_low_lem n i rest (omega (arith, not_==→ne i n below))
    ]
  where
    both : (a b : Bool) → (a && b) ≡ true → (a ≡ true) × (b ≡ true)
    both true b e = (refl, e)
    both false b e = cc e

pub low_byte : (i : ℕ) → i < 256 → bit_or 0xffff_ff00 i % 256 ≡ i
low_byte i small = all_low_lem 256 i refl small

get_offer :
    (op i : ℕ) (t : List ℕ)
    → op < 2 ^ 32
    → i < 256
    → (word : ℕ) × (get_word op (record { rx = bytes32 (bit_or 0xffff_ff00 i); tx = t })
        ≡ done word (record { rx = []; tx = t }))
      × (word % 256 ≡ i)
get_offer op i t small low =
    let w = bit_or 0xffff_ff00 i in
    (
      word32 (w % 256) ((w / 256) % 256) ((w / 65536) % 256) ((w / 16777216) % 256),
      get_word_lem op (w % 256) ((w / 256) % 256) ((w / 65536) % 256) ((w / 16777216) % 256) [] t
          small (omega arith) (omega arith) (omega arith) (omega arith),
      omega (arith, low_byte i low),
    )

pub report_id_lem : (result i : ℕ) (l : Line) → report_id result i l ≡ send (claim result i) l
unfolding report_id uart_put_dummy uart_put_dummy2
report_id_lem result i l = elim (Bool-cases (result == minus_one)) [
  | inl taken ↦ rw taken (ap (λ u. record l { tx = u }) (append_assoc l.tx _ _))
  | inr known ↦ rw known (ap (λ u. record l { tx = u }) (append_assoc l.tx _ _))
]

module _ {Store : Type 0} (dev : SectorDevice Store) where
  -- Given all that the mac sends for a name and an id, `entry` sends all that belongs to it.
  pub entry_lem :
      (rounds k count cfg result id : ℕ) (name buf : List ℕ) (f0 f1 f2 f3 : Fs Store)
      → k ≤ 6
      → length name ≡ 4 * k
      → AllChars name
      → id < 256
      → fat32_init dev f0 ≡ done count f1
      → dfs_init_config dev rounds f1 ≡ done cfg f2
      → id_for_dfs dev cfg (dfs_name_of name buf) id f2 ≡ done result f3
      → entry dev rounds buf (record { fs = f0; line = record { rx = mac_text name id; tx = [] } })
        ≡ done tt (record { fs = f3; line = record { rx = []; tx = pi_text k result id } })
  unfolding entry uart_put_dummy on_line on_fs
  entry_lem rounds k count cfg result id name buf f0 f1 f2 f3 short len all low init config ask =
      let request_fits : request_id < 2 ^ 32 = omega arith in
      let offer = bytes32 (bit_or 0xffff_ff00 id) in
      let told = claim result id in
      let dummy1 = 0x78 ∷ 0x56 ∷ 0x34 ∷ 0x12 ∷ [] in
      let more1 = bytes32 request_id ++ offer in
      let more0 = bytes32 config_init ++ more1 in
      let t1 = answers (suc k) (answered []) in
      let t2 = t1 ++ dummy1 in
      let t3 = t2 ++ dummy1 in
      let (word, taken, low_word) = get_offer request_id id t3 request_fits low in
      rw
        (
          on_line,
          on_fs,
          wait_fs_id_start (frame name ++ more0) [],
          get_string-frame_aligned k name more0 (answered []) short len all,
          wait_config_init more1 t1,
          init,
          config,
          wait_request_id offer t2,
          taken,
          low_word,
          ask,
          report_id_lem result id (record { rx = []; tx = t3 }),
        )
        (ap (λ u. done tt (record { fs = f3; line = record { rx = []; tx = u } }))
          (append_assoc t3 told exit_text
            ∙ append_assoc t2 dummy1 (told ++ exit_text)
            ∙ append_assoc t1 dummy1 (dummy1 ++ (told ++ exit_text))
            ∙ answers_lem (suc k) (answered []) (dummies 2 (told ++ exit_text))))
