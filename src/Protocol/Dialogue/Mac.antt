-- ===== src/Protocol/Dialogue/Mac.antt =====
-- What `dfs_boot` does with what the pi sends.
use Prim.Native.Nat.{bit_or}
use mathlib.Core.List.{append_assoc, append-nil}
use rpi0_naivegfs.Base.{
  bytes32-word32, ℕ, zero, suc, ◌+◌, ◌*◌, ◌%◌, ◌≡◌, refl, sym, ap, ◌∙◌, Bool, true, inl, inr,
  Bool-cases, if◌then◌else◌, ◌||◌, ◌==◌, List, [], ◌∷◌, ◌++◌, done, length, replicate, bytes32,
  word32, minus_one, u8, u32, arith,
}
use rpi0_naivegfs.Output.{exit_text}
use rpi0_naivegfs.Protocol.Line.{Line, fs_id_start, config_init, request_id, dummy, dummy2}
use rpi0_naivegfs.Protocol.Mac.{
  get8, get32, put32, read_rounds, read_until, await_dummy, send_string, words_of, words_in_name,
  name_to_send, frame, dfs_boot,
}
use rpi0_naivegfs.Protocol.Names.{AllChars, frame_step}
use rpi0_naivegfs.Protocol.Dialogue.{dummies, claim, mac_text, pi_text}

pub await_dummy_lem :
    (more t : List ℕ)
    → await_dummy (record { rx = dummies 1 more; tx = t })
      ≡ done dummy (record { rx = more; tx = t })
unfolding read_until read_rounds get32 get8
await_dummy_lem more t = refl

-- The bytes of words.
abbrev pub put_words : List ℕ → List ℕ
put_words [] = []
put_words (w ∷ ws) = bytes32 w ++ put_words ws

-- Each word is answered by DUMMY.
send_string_lem :
    (ws more t : List ℕ)
    → send_string ws (record { rx = dummies (length ws) more; tx = t })
      ≡ done tt (record { rx = more; tx = t ++ put_words ws })
unfolding send_string put32
send_string_lem [] more t = ap (λ u. done tt (record { rx = more; tx = u })) (sym (append-nil t))
send_string_lem (w ∷ ws) more t =
    rw
      (
        await_dummy_lem (dummies (length ws) more) (t ++ bytes32 w),
        send_string_lem ws more (t ++ bytes32 w),
      )
      (ap (λ u. done tt (record { rx = more; tx = u })) (append_assoc t (bytes32 w) (put_words ws)))

length-words_of : (n : ℕ) (b : List ℕ) → length (words_of n b) ≡ n
unfolding words_of
length-words_of zero b = refl
length-words_of (suc n) b = ap suc (length-words_of n _)

pub words_in_name_lem : (k : ℕ) (name : List ℕ) → length name ≡ 4 * k → words_in_name name ≡ suc k
words_in_name_lem k name len = omega arith

-- The words of the buffer are the bytes of the frame.
pub put_words-words_of :
    (k : ℕ) (name : List ℕ)
    → length name ≡ 4 * k
    → AllChars name
    → put_words (words_of (suc k) (name_to_send name)) ≡ frame name
unfolding words_of name_to_send AllChars
put_words-words_of zero [] len all = refl
put_words-words_of zero (a ∷ name) len all = absurd (omega arith)
put_words-words_of (suc k) [] len all = absurd (omega arith)
put_words-words_of (suc k) (a ∷ []) len all = absurd (omega arith)
put_words-words_of (suc k) (a ∷ b ∷ []) len all = absurd (omega arith)
put_words-words_of (suc k) (a ∷ b ∷ c ∷ []) len all = absurd (omega arith)
put_words-words_of (suc k) (a ∷ b ∷ c ∷ d ∷ name) len (ha, (hb, (hc, (hd, hs)))) =
    ap (λ l. bytes32 (word32 a b c d) ++ l) (put_words-words_of k name (omega arith) hs)
    ∙ ap (λ l. l ++ frame name)
        (bytes32-word32 a b c d (omega arith) (omega arith) (omega arith) (omega arith))
    ∙ sym (frame_step a b c d name)

-- The answer to the offered id, and the id behind it.
pub claim_rounds :
    (result offered : ℕ) (more t : List ℕ)
    → (answer : ℕ) × (claimed : ℕ) × (read_until
          (λ op. op == dummy || op == dummy2)
          (record { rx = claim result offered ++ more; tx = t })
        ≡ done answer (record { rx = replicate 4 claimed ++ more; tx = t }))
      × ((answer == dummy2) ≡ (result == minus_one))
unfolding read_until read_rounds get32 get8
claim_rounds result offered more t = elim (Bool-cases (result == minus_one)) [
  | inl taken ↦ (dummy2, u8 offered, rw taken, rw taken)
  | inr known ↦ (dummy, u8 result, rw known, rw known)
]

pub get32_lem :
    (a b c d : ℕ) (more t : List ℕ)
    → get32 (record { rx = a ∷ b ∷ c ∷ d ∷ more; tx = t })
      ≡ done (word32 a b c d) (record { rx = more; tx = t })
unfolding get32 get8
get32_lem a b c d more t = refl

send_name :
    (k : ℕ) (name more t : List ℕ)
    → length name ≡ 4 * k
    → AllChars name
    → send_string
        (words_of (words_in_name name) (name_to_send name))
        (record { rx = dummies (suc k) more; tx = t })
      ≡ done tt (record { rx = more; tx = t ++ frame name })
send_name k name more t len all =
    let ws = words_of (suc k) (name_to_send name) in
    ap
      (λ n.
        send_string (words_of n (name_to_send name)) (record { rx = dummies (suc k) more; tx = t }))
      (words_in_name_lem k name len)
    ∙ ap (λ n. send_string ws (record { rx = dummies n more; tx = t }))
        (sym (length-words_of (suc k) (name_to_send name)))
    ∙ send_string_lem ws more t
    ∙ ap (λ b. done tt (record { rx = more; tx = t ++ b })) (put_words-words_of k name len all)

-- Given all that the pi sends for a name and a result, `dfs_boot` sends all that belongs to it, behind
-- what was sent before.
pub dfs_boot-behind :
    (select : Line → Bool) (k result id : ℕ) (name t : List ℕ)
    → ((l : Line) → select l ≡ true)
    → length name ≡ 4 * k
    → AllChars name
    → dfs_boot select
        (words_of (words_in_name name) (name_to_send name))
        id
        (record { rx = pi_text k result (id % 256); tx = t })
      ≡ done
          (0, (if result == minus_one then u32 (id + 1) else id))
          (record { rx = exit_text; tx = t ++ mac_text name id })
unfolding dfs_boot put32
dfs_boot-behind select k result id name t ready len all =
    let answer = claim result (id % 256) ++ exit_text in
    let start = bytes32 fs_id_start in
    let t0 = t ++ start in
    let t1 = t0 ++ frame name in
    let t2 = t1 ++ bytes32 config_init in
    let t3 = t2 ++ bytes32 request_id in
    let offer = bytes32 (bit_or 0xffff_ff00 id) in
    let t4 = t3 ++ offer in
    let (op, claimed, run, same) = claim_rounds result (id % 256) exit_text t4 in
    rw
      (
        await_dummy_lem (dummies (suc k) (dummies 2 answer)) t0,
        send_name k name (dummies 2 answer) t0 len all,
        ready (record { rx = dummies 2 answer; tx = t2 }),
        await_dummy_lem (dummies 1 answer) t2,
        await_dummy_lem answer t3,
        run,
        get32_lem claimed claimed claimed claimed exit_text t4,
        same,
      )
      (ap
        (λ u.
          done (0, (if result == minus_one then u32 (id + 1) else id))
            (record { rx = exit_text; tx = u }))
        (append_assoc t2 (bytes32 request_id) offer
          ∙ append_assoc t1 (bytes32 config_init) (bytes32 request_id ++ offer)
          ∙ append_assoc t0 (frame name) (bytes32 config_init ++ (bytes32 request_id ++ offer))
          ∙ append_assoc t start
              (frame name ++ (bytes32 config_init ++ (bytes32 request_id ++ offer)))))

pub dfs_boot_lem :
    (select : Line → Bool) (k result id : ℕ) (name : List ℕ)
    → ((l : Line) → select l ≡ true)
    → length name ≡ 4 * k
    → AllChars name
    → dfs_boot select
        (words_of (words_in_name name) (name_to_send name))
        id
        (record { rx = pi_text k result (id % 256); tx = [] })
      ≡ done
          (0, (if result == minus_one then u32 (id + 1) else id))
          (record { rx = exit_text; tx = mac_text name id })
dfs_boot_lem select k result id name ready len all =
    dfs_boot-behind select k result id name [] ready len all
