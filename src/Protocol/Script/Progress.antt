-- ===== src/Protocol/Script/Progress.antt =====
-- The dialogue of `entry` and `dfs_boot`, byte by byte.
use mathlib.Core.List.{append_assoc}
use rpi0_naivegfs.Base.{
  ℕ, suc, ◌+◌, ◌*◌, ◌%◌, ◌≤◌, ◌<◌, ◌≡◌, ◌⊎◌, inl, inr, refl, sym, ap, ◌∙◌, Bool, true,
  if◌then◌else◌, ◌==◌, List, [], ◌∷◌, ◌++◌, done, length, minus_one, bytes32, u32, arith,
}
use rpi0_naivegfs.Output.{exit_text}
use rpi0_naivegfs.Fat32.State.{SectorDevice, Fs}
use rpi0_naivegfs.Fat32.Mount.{fat32_init}
use rpi0_naivegfs.Dfs.{dfs_init_config, id_for_dfs}
use rpi0_naivegfs.Protocol.Line.{Line, fs_id_start}
use rpi0_naivegfs.Protocol.Pi.{entry}
use rpi0_naivegfs.Protocol.Mac.{words_of, words_in_name, name_to_send, frame, dfs_boot}
use rpi0_naivegfs.Protocol.Names.{AllChars}
use rpi0_naivegfs.Protocol.Dialogue.{dummies, mac_text, pi_text}
use rpi0_naivegfs.Protocol.Dialogue.Mac.{
  put_words, put_words-words_of, words_in_name_lem, dfs_boot_lem,
}
use rpi0_naivegfs.Protocol.Dialogue.Pi.{dfs_name_of, entry_lem}
use rpi0_naivegfs.Protocol.Script.{
  Event, hear, say, reply, input, output, dual, Prefix, Short, input-dual,
}
use rpi0_naivegfs.Protocol.Script.Parts.{length_behind}
use rpi0_naivegfs.Protocol.Script.Talks.{input-append}
use rpi0_naivegfs.Protocol.Script.Pi.{line_at, pi_at, dummy_bytes, listens}
use rpi0_naivegfs.Protocol.Script.Entry.{
  script, up_to_claim, after_name, words_of-name, entry-Talks,
}
use rpi0_naivegfs.Protocol.Script.Mac.{mac_script, dual-listens, dfs_boot-Talks}
use rpi0_naivegfs.Protocol.Script.Runs.{
  Steps, Steps-ends, Reach, Reach-Prefix, Reach-progress, state_of, sent-reply, sent-reply_all,
}

-- What `entry` has sent when the bytes a have arrived.
abbrev pub pi_sent :
    {Store : Type 0} (dev : SectorDevice Store) → ℕ → List ℕ → Fs Store → List ℕ → List ℕ
pi_sent dev rounds buf f0 a =
    (state_of
      (entry dev rounds buf (record { fs = f0; line = record { rx = a; tx = [] } }))).line.tx

-- What `dfs_boot` has sent when the bytes b have arrived. Where it then finds no byte, it is taken to
-- wait for one.
abbrev pub mac_sent : (Line → Bool) → List ℕ → ℕ → List ℕ → List ℕ
mac_sent select name id b =
    (state_of (
      dfs_boot select (words_of (words_in_name name) (name_to_send name)) id
        (record { rx = b; tx = [] }))).tx

input-listens : (ws : List ℕ) (es : List Event) → input (listens ws es) ≡ put_words ws ++ input es
input-listens [] es = refl
input-listens (w ∷ ws) es =
    ap (λ l. bytes32 w ++ l) (input-listens ws es)
    ∙ sym (append_assoc (bytes32 w) (put_words ws) (input es))

output-listens :
    (ws : List ℕ) (es : List Event) → output (listens ws es) ≡ dummies (length ws) (output es)
output-listens [] es = refl
output-listens (w ∷ ws) es = ap (λ l. dummy_bytes ++ l) (output-listens ws es)

-- The two scripts are each other's, up to the text that the mac does not read.
dual-script :
    (ws : List ℕ) (id result : ℕ)
    → dual (script ws id result) ≡ mac_script ws id result ++ (hear exit_text ∷ [])
dual-script ws id result =
    let behind = dual (up_to_claim id result) in
    ap (λ l. say (bytes32 fs_id_start) ∷ hear dummy_bytes ∷ l)
      (dual-listens ws (after_name id result)
        ∙ sym (append_assoc (dual (listens ws [])) behind (hear exit_text ∷ []))
        ∙ ap (λ l. l ++ (hear exit_text ∷ [])) (sym (dual-listens ws (up_to_claim id result))))

put_words-frame :
    (k : ℕ) (name ws : List ℕ)
    → length name ≡ 4 * k
    → AllChars name
    → words_of (suc k) (name_to_send name) ≡ ws
    → put_words ws ≡ frame name
put_words-frame k name ws len all same = ap put_words (sym same) ∙ put_words-words_of k name len all

module _ {Store : Type 0} (dev : SectorDevice Store) where
  module _ (select : Line → Bool) (rounds k count cfg result id : ℕ) (name buf : List ℕ)
      (f0 f1 f2 f3 : Fs Store) (ready : (l : Line) → select l ≡ true) (short : k ≤ 6)
      (len : length name ≡ 4 * k) (all : AllChars name) (low : id < 256)
      (init : fat32_init dev f0 ≡ done count f1)
      (config : dfs_init_config dev rounds f1 ≡ done cfg f2)
      (ask : id_for_dfs dev cfg (dfs_name_of name buf) id f2 ≡ done result f3) where
    -- The scripts that the two sides follow, with the bytes that they hear and say.
    sides :
        (ws : List ℕ) × (input (script ws id result) ≡ mac_text name id)
        × (output (script ws id result) ≡ pi_text k result id)
        × ((a : List ℕ)
            → Prefix a (input (script ws id result))
            → pi_sent dev rounds buf f0 a ≡ reply (script ws id result) a)
        × ((b : List ℕ)
            → Prefix b (output (script ws id result))
            → mac_sent select name id b ≡ reply (dual (script ws id result)) b)
    sides =
        let (ws0, same, count_ws, words, chars) = words_of-name k name len all in
        let ws = ws0 ++ (minus_one ∷ []) in
        let es = script ws id result in
        let n : length ws ≡ suc k = omega (arith, length_behind ws0 minus_one, count_ws) in
        let ask' : id_for_dfs dev cfg (dfs_name_of (put_words ws0) buf) id f2 ≡ done result f3 =
          rw chars ask in
        let entry_talks =
          entry-Talks dev rounds count cfg result id ws0 buf f0 f1 f2 f3 (omega (arith, count_ws))
            words low init config ask' in
        let boot_talks = dfs_boot-Talks select ws id result ready in
        let name_bytes = put_words-frame k name ws len all same in
        let words_same : words_of (words_in_name name) (name_to_send name) ≡ ws =
          ap (λ m. words_of m (name_to_send name)) (words_in_name_lem k name len) ∙ same in
        let mac_hears : output es ≡ input (mac_script ws id result) ++ exit_text =
          sym (input-dual es)
          ∙ ap input (dual-script ws id result)
          ∙ input-append (mac_script ws id result) (hear exit_text ∷ []) in
        let follow : (b : List ℕ)
            → Prefix b (output es)
            → mac_sent select name id b ≡ reply (dual es) b =
          λ b h.
            let (r, e) = h in
            ap (λ w. (state_of (dfs_boot select w id (record { rx = b; tx = [] }))).tx) words_same
            ∙ sent-reply line_at (λ l. l) (λ u l. refl) (dfs_boot select ws id) tt tt
                (mac_script ws id result) (0, (if result == minus_one then u32 (id + 1) else id))
                boot_talks exit_text b (r, sym mac_hears ∙ e)
            ∙ ap (λ l. reply l b) (sym (dual-script ws id result)) in
        (
          ws,
          ap (λ l. bytes32 fs_id_start ++ l)
              (input-listens ws (after_name id result)
                ∙ ap (λ l. l ++ input (after_name id result)) name_bytes),
          ap (λ l. dummy_bytes ++ l)
              (output-listens ws (after_name id result)
                ∙ ap (λ m. dummies m (output (after_name id result))) n),
          sent-reply_all pi_at (λ s. s.line) (λ f l. refl) (entry dev rounds buf) f0 f3 es tt
              entry_talks,
          follow,
        )

    -- For a name of 4 * k characters below 0xff, k ≤ 6, and an id below 256, let the file system of the
    -- pi mount, find or make its configuration file, and answer `id_for_dfs` for the name with four
    -- bytes 0xff behind it, and let data come in time at the mac. Let the bytes that each side has sent
    -- arrive at the other one by one, the two directions in any order. Then at each moment what has
    -- arrived at the pi and at the mac is a beginning of what the other sends in all, and either both
    -- sides have ended, or a byte that one side has sent is still to arrive at the other, so they never
    -- wait for each other; and the dialogue can go on until all has arrived. Where both have ended, `entry` has taken every byte, `dfs_boot` has returned 0
    -- and left the text "DONE!!!" on the line, and the mac has given the id away, and goes on with the
    -- next one, exactly if `id_for_dfs` returned -1.
    pub entry-dfs_boot-progress :
        (a b : List ℕ)
        → Reach (pi_sent dev rounds buf f0) (mac_sent select name id) a b
        → (Prefix a (mac_text name id) × Prefix b (pi_text k result id))
          × (((entry dev rounds buf (record { fs = f0; line = record { rx = a; tx = [] } })
                  ≡ done tt
                      (record { fs = f3; line = record { rx = []; tx = pi_text k result id } }))
                × (dfs_boot select
                      (words_of (words_in_name name) (name_to_send name))
                      id
                      (record { rx = b; tx = [] })
                    ≡ done
                        (0, (if result == minus_one then id + 1 else id))
                        (record { rx = exit_text; tx = mac_text name id })))
              ⊎ (Short a (mac_sent select name id b) ⊎ Short b (pi_sent dev rounds buf f0 a)))
          × Steps
              (pi_sent dev rounds buf f0)
              (mac_sent select name id)
              a
              b
              (mac_text name id)
              (pi_text k result id)
    entry-dfs_boot-progress a b h =
        let (ws, hears, says, pi_follows, mac_follows) = sides in
        let es = script ws id result in
        let pi = pi_sent dev rounds buf f0 in
        let mac = mac_sent select name id in
        let same : id % 256 ≡ id = omega arith in
        let next : u32 (id + 1) ≡ id + 1 = omega arith in
        let (p, q) = Reach-Prefix pi mac es pi_follows mac_follows a b h in
        (
          (rw hears at p, rw says at q),
          elim (Reach-progress pi mac es pi_follows mac_follows a b p q) [
            | inl both ↦
                let (ea, eb) = both in
                inl (
                  rw (ea, hears)
                      (entry_lem dev rounds k count cfg result id name buf f0 f1 f2 f3 short len all
                        low init config ask),
                  rw (eb, says)
                      (rw (same, next) at (dfs_boot_lem select k result id name ready len all)),
                )
            | inr more ↦ inr more
          ],
          rw (hears, says) at
              (Steps-ends pi mac es pi_follows mac_follows (length (input es) + length (output es))
                a b p q (omega arith)),
        )
