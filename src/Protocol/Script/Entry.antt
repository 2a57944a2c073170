-- ===== src/Protocol/Script/Entry.antt =====
-- `entry` follows its script.
use Prim.Native.Nat.{bit_or}
use rpi0_naivegfs.Base.{
  ℕ, zero, suc, ◌*◌, ◌%◌, ◌^◌, ◌<◌, ◌≡◌, refl, ap, List, [], ◌∷◌, ◌++◌, done, modify, length,
  bytes32, word32, bytes32-word32, minus_one, arith,
}
use rpi0_naivegfs.Output.{exit_text}
use rpi0_naivegfs.Fat32.State.{SectorDevice, Fs}
use rpi0_naivegfs.Fat32.Mount.{fat32_init}
use rpi0_naivegfs.Dfs.{dfs_init_config, id_for_dfs}
use rpi0_naivegfs.Protocol.Line.{send, fs_id_start, config_init, request_id}
use rpi0_naivegfs.Protocol.Pi.{
  get_word, get_string, wait_for, on_line, uart_put_dummy, report_id, entry,
}
use rpi0_naivegfs.Protocol.Mac.{words_of, name_to_send}
use rpi0_naivegfs.Protocol.Names.{AllChars}
use rpi0_naivegfs.Protocol.Dialogue.{claim}
use rpi0_naivegfs.Protocol.Dialogue.Mac.{put_words}
use rpi0_naivegfs.Protocol.Dialogue.Pi.{dfs_name_of, low_byte, report_id_lem}
use rpi0_naivegfs.Protocol.Script.{Event, hear, say}
use rpi0_naivegfs.Protocol.Script.Talks.{Talks, Talks-bind, Talks-then, Talks-script, Talks-modify}
use rpi0_naivegfs.Protocol.Script.Pi.{
  line_at, pi_at, Talks-on_line, Talks-on_fs, dummy_bytes, Talks-uart_put_dummy, Talks-fs_id_start,
  Talks-config_init, Talks-request_id, Talks-get_low_word, listens, end_of_name, AllWords,
  Talks-get_string,
}

listens-behind :
    (ws : List ℕ) (es : List Event)
    → listens ws (listens (minus_one ∷ []) []) ++ es ≡ listens (ws ++ (minus_one ∷ [])) es
listens-behind [] es = refl
listens-behind (w ∷ ws) es = ap (λ l. hear (bytes32 w) ∷ say dummy_bytes ∷ l) (listens-behind ws es)

abbrev pub offer : ℕ → ℕ
offer id = bit_or 0xffff_ff00 id

abbrev pub up_to_claim : ℕ → ℕ → List Event
up_to_claim id result =
    hear (bytes32 config_init)
    ∷ say dummy_bytes
    ∷ hear (bytes32 request_id)
    ∷ say dummy_bytes
    ∷ hear (bytes32 (offer id))
    ∷ say (claim result id)
    ∷ []

abbrev pub after_name : ℕ → ℕ → List Event
after_name id result = up_to_claim id result ++ (say exit_text ∷ [])

-- For the words of a name, an id offered and the answer to it.
abbrev pub script : List ℕ → ℕ → ℕ → List Event
script ws id result =
    hear (bytes32 fs_id_start) ∷ say dummy_bytes ∷ listens ws (after_name id result)

-- The words of a name of 4 * k characters.
pub words_of-name :
    (k : ℕ) (name : List ℕ)
    → length name ≡ 4 * k
    → AllChars name
    → (ws : List ℕ) × (words_of (suc k) (name_to_send name) ≡ ws ++ (minus_one ∷ []))
      × (length ws ≡ k)
      × AllWords ws
      × (put_words ws ≡ name)
unfolding words_of name_to_send AllChars AllWords
words_of-name zero [] len all = ([], refl, refl, tt, refl)
words_of-name zero (a ∷ name) len all = absurd (omega arith)
words_of-name (suc k) [] len all = absurd (omega arith)
words_of-name (suc k) (a ∷ []) len all = absurd (omega arith)
words_of-name (suc k) (a ∷ b ∷ []) len all = absurd (omega arith)
words_of-name (suc k) (a ∷ b ∷ c ∷ []) len all = absurd (omega arith)
words_of-name (suc k) (a ∷ b ∷ c ∷ d ∷ name) len (ha, (hb, (hc, (hd, hs)))) =
    let (ws, e, n, h, p) = words_of-name k name (omega arith) hs in
    (
      word32 a b c d ∷ ws,
      ap (λ l. word32 a b c d ∷ l) e,
      ap suc n,
      ((omega arith, λ bad. omega arith), h),
      rw p (
          ap (λ l. l ++ name)
            (bytes32-word32 a b c d (omega arith) (omega arith) (omega arith) (omega arith))),
    )

Talks-report_id :
    (result id : ℕ)
    → Talks line_at (modify (report_id result id)) tt tt (say (claim result id) ∷ []) tt
Talks-report_id result id =
    Talks-modify line_at tt (claim result id) (report_id result id) (report_id_lem result id)

module _ {Store : Type 0} (dev : SectorDevice Store) where
  -- From the answer to the name on.
  pub entry-Talks :
      (rounds count cfg result id : ℕ) (ws buf : List ℕ) (f0 f1 f2 f3 : Fs Store)
      → length ws < 7
      → AllWords ws
      → id < 256
      → fat32_init dev f0 ≡ done count f1
      → dfs_init_config dev rounds f1 ≡ done cfg f2
      → id_for_dfs dev cfg (dfs_name_of (put_words ws) buf) id f2 ≡ done result f3
      → Talks pi_at (entry dev rounds buf) f0 f3 (script (ws ++ (minus_one ∷ [])) id result) tt
  unfolding entry
  entry-Talks rounds count cfg result id ws buf f0 f1 f2 f3 short all low init config ask =
      let name = put_words ws ++ end_of_name in
      let offered = offer id % 2 ^ 32 in
      let low_word : offered % 256 ≡ id = omega (arith, low_byte id low) in
      let ask' : id_for_dfs dev cfg (dfs_name_of (put_words ws) buf) (offered % 256) f2
          ≡ done result f3 =
        rw low_word ask in
      let tell : Talks pi_at (on_line (modify (report_id result (offered % 256)))) f3 f3
          (say (claim result id) ∷ []) tt =
        rw low_word (Talks-on_line (modify (report_id result id)) f3 (Talks-report_id result id)) in
      Talks-bind pi_at (on_line (wait_for fs_id_start 0)) _
        (Talks-on_line (wait_for fs_id_start 0) f0 Talks-fs_id_start)
        (Talks-then pi_at (on_line (modify uart_put_dummy)) _
          (Talks-on_line (modify uart_put_dummy) f0 Talks-uart_put_dummy)
          (Talks-script pi_at (listens-behind ws (after_name id result)) (
            Talks-bind pi_at (on_line (get_string 7 0)) _
              (Talks-on_line (get_string 7 0) f0 (Talks-get_string 7 0 ws short all (omega arith)))
              (Talks-bind pi_at (on_line (wait_for config_init fs_id_start)) _
                (Talks-on_line (wait_for config_init fs_id_start) f0 Talks-config_init)
                (Talks-on_fs (fat32_init dev) _ f0 f1 f3 count init (
                  Talks-on_fs (dfs_init_config dev rounds) _ f1 f2 f3 cfg config (
                    Talks-then pi_at (on_line (modify uart_put_dummy)) _
                      (Talks-on_line (modify uart_put_dummy) f2 Talks-uart_put_dummy)
                      (Talks-bind pi_at (on_line (wait_for request_id 0)) _
                        (Talks-on_line (wait_for request_id 0) f2 Talks-request_id)
                        (Talks-then pi_at (on_line (modify uart_put_dummy)) _
                          (Talks-on_line (modify uart_put_dummy) f2 Talks-uart_put_dummy)
                          (Talks-bind pi_at (on_line (get_word request_id)) _
                            (Talks-on_line (get_word request_id) f2
                              (Talks-get_low_word request_id (offer id) (omega arith)))
                            (Talks-on_fs
                              (id_for_dfs dev cfg (dfs_name_of (put_words ws) buf) (offered % 256))
                              _ f2 f3 f3 result ask'
                              (Talks-then pi_at
                                (on_line (modify (report_id result (offered % 256)))) _ tell
                                (Talks-on_line (modify (send exit_text)) f3 (
                                  Talks-modify line_at tt exit_text (send exit_text)
                                    (λ l. refl)))))))))))))))
