-- ===== src/Protocol/Script/Mac.antt =====
-- `dfs_boot` follows the script of the other side.
use rpi0_naivegfs.Base.{
  ℕ, ◌+◌, ◌≡◌, refl, sym, ap, inl, inr, Bool, true, Bool-cases, ◌||◌, List, [], ◌∷◌, ◌++◌, Prog,
  pure, modify, get_state, not, ◌>>=◌, ◌>>◌, replicate, bytes32, minus_one, u8, u32, if◌then◌else◌,
  ◌==◌,
}
use rpi0_naivegfs.Protocol.Line.{Line, fs_id_start, config_init, request_id, dummy, dummy2}
use rpi0_naivegfs.Protocol.Mac.{
  get8, get32, put32, read_rounds, read_until, await_dummy, send_string, dfs_boot,
}
use rpi0_naivegfs.Protocol.Dialogue.{claim}
use rpi0_naivegfs.Protocol.Dialogue.Mac.{claim_rounds, get32_lem}
use rpi0_naivegfs.Protocol.Script.{Event, hear, say, dual, Short}
use rpi0_naivegfs.Protocol.Script.Parts.{Short-four, Short-two}
use rpi0_naivegfs.Protocol.Script.Talks.{
  Talks, Talks-bind, Talks-then, Talks-pure, Talks-same, Talks-script, Talks-modify, Talks-hear,
}
use rpi0_naivegfs.Protocol.Script.Pi.{line_at, Waits, Talks-word, dummy_bytes, listens}
use rpi0_naivegfs.Protocol.Script.Entry.{offer, up_to_claim}

Talks-put32 : (w : ℕ) → Talks line_at (modify (put32 w)) tt tt (say (bytes32 w) ∷ []) tt
unfolding put32
Talks-put32 w = Talks-modify line_at tt (bytes32 w) (put32 w) (λ l. refl)

Talks-await_dummy : Talks line_at await_dummy tt tt (hear dummy_bytes ∷ []) dummy
unfolding read_until read_rounds get32 get8
Talks-await_dummy =
    Talks-word await_dummy 0x78 0x56 0x34 0x12 dummy (λ more t. refl) (λ t. (tt, inr refl))
      (λ t. (tt, inr refl)) (λ t. (tt, inr refl)) (λ t. (tt, inr refl))

Talks-send_string : (ws : List ℕ) → Talks line_at (send_string ws) tt tt (dual (listens ws [])) tt
unfolding send_string
Talks-send_string [] = Talks-pure line_at tt tt
Talks-send_string (w ∷ ws) =
    Talks-then line_at (modify (put32 w)) _ (Talks-put32 w) (
      Talks-bind line_at await_dummy (λ op. send_string ws) Talks-await_dummy
        (Talks-send_string ws))

abbrev is_answer : ℕ → Bool
is_answer op = op == dummy || op == dummy2

abbrev settle : ℕ → Prog Line (ℕ × ℕ)
settle id = do
  answer ← read_until is_answer
  claimed ← get32
  pure (0, (if answer == dummy2 then u32 (id + 1) else id))

settle-Waits :
    (id x y z w b : ℕ) (a t : List ℕ)
    → Waits (settle id) [] t
    → Waits (settle id) (x ∷ []) t
    → Waits (settle id) (x ∷ y ∷ []) t
    → Waits (settle id) (x ∷ y ∷ z ∷ []) t
    → Waits (settle id) (x ∷ y ∷ z ∷ w ∷ []) t
    → Waits (settle id) (x ∷ y ∷ z ∷ w ∷ b ∷ []) t
    → Waits (settle id) (x ∷ y ∷ z ∷ w ∷ b ∷ b ∷ []) t
    → Waits (settle id) (x ∷ y ∷ z ∷ w ∷ b ∷ b ∷ b ∷ []) t
    → Short a (x ∷ y ∷ z ∷ w ∷ replicate 4 b)
    → Waits (settle id) a t
settle-Waits id x y z w b a t w0 w1 w2 w3 w4 w5 w6 w7 short =
    let now : List ℕ → Type 0 = λ c. Waits (settle id) c t in
    Short-two now (x ∷ y ∷ z ∷ w ∷ []) (replicate 4 b) a
      (λ c s. Short-four now x y z w c w0 w1 w2 w3 s)
      (λ c s. Short-four (λ d. now (x ∷ y ∷ z ∷ w ∷ d)) b b b b c w4 w5 w6 w7 s) short

claim-Waits : (result id : ℕ) (a t : List ℕ) → Short a (claim result id) → Waits (settle id) a t
unfolding read_until read_rounds get32 get8
claim-Waits result id a t short = elim (Bool-cases (result == minus_one)) [
  | inl taken ↦
      settle-Waits id 0xff 0xde 0xbc 0x9a (u8 id) a t (tt, inr refl) (tt, inr refl) (tt, inr refl)
        (tt, inr refl) (tt, inr refl) (tt, inr refl) (tt, inr refl) (tt, inr refl)
        (rw taken at short)
  | inr known ↦
      settle-Waits id 0x78 0x56 0x34 0x12 (u8 result) a t (tt, inr refl) (tt, inr refl)
        (tt, inr refl) (tt, inr refl) (tt, inr refl) (tt, inr refl) (tt, inr refl) (tt, inr refl)
        (rw known at short)
]

Talks-settle :
    (id result : ℕ)
    → Talks line_at
        (settle id)
        tt
        tt
        (hear (claim result id) ∷ [])
        (0, (if result == minus_one then u32 (id + 1) else id))
Talks-settle id result =
    Talks-hear line_at (settle id) tt (claim result id) _
      (λ more t.
        let (answer, claimed, run, same) = claim_rounds result id more t in
        rw (run, get32_lem claimed claimed claimed claimed more t, same) refl)
      (λ a t short. claim-Waits result id a t short)

-- `dfs_boot` once data came in time.
abbrev ready_boot : ℕ → Prog Line (ℕ × ℕ)
ready_boot id = do
  op2 ← await_dummy
  modify (put32 request_id)
  op3 ← await_dummy
  modify (put32 (offer id))
  settle id

Talks-ready_boot :
    (id result : ℕ)
    → Talks line_at
        (ready_boot id)
        tt
        tt
        (hear dummy_bytes
          ∷ say (bytes32 request_id)
          ∷ hear dummy_bytes
          ∷ say (bytes32 (offer id))
          ∷ hear (claim result id)
          ∷ [])
        (0, (if result == minus_one then u32 (id + 1) else id))
Talks-ready_boot id result = Talks-bind line_at await_dummy _ Talks-await_dummy (
    Talks-then line_at (modify (put32 request_id)) _ (Talks-put32 request_id) (
      Talks-bind line_at await_dummy _ Talks-await_dummy (
        Talks-then line_at (modify (put32 (offer id))) _ (Talks-put32 (offer id))
          (Talks-settle id result))))

abbrev select_boot : (Line → Bool) → ℕ → Prog Line (ℕ × ℕ)
select_boot select id = do
  s ← get_state
  if not (select s) then pure (minus_one, id) else ready_boot id

Talks-select_boot :
    (select : Line → Bool) (id result : ℕ)
    → ((l : Line) → select l ≡ true)
    → Talks line_at
        (select_boot select id)
        tt
        tt
        (hear dummy_bytes
          ∷ say (bytes32 request_id)
          ∷ hear dummy_bytes
          ∷ say (bytes32 (offer id))
          ∷ hear (claim result id)
          ∷ [])
        (0, (if result == minus_one then u32 (id + 1) else id))
Talks-select_boot select id result ready =
    Talks-same line_at {p = select_boot select id} {q = ready_boot id} (λ s. rw (ready s) refl)
      (Talks-ready_boot id result)

-- The mac goes on until it has the claim, and leaves the text behind it on the line.
abbrev pub mac_script : List ℕ → ℕ → ℕ → List Event
mac_script ws id result =
    say (bytes32 fs_id_start) ∷ hear dummy_bytes ∷ dual (listens ws (up_to_claim id result))

pub dual-listens :
    (ws : List ℕ) (es : List Event) → dual (listens ws es) ≡ dual (listens ws []) ++ dual es
dual-listens [] es = refl
dual-listens (w ∷ ws) es = ap (λ l. say (bytes32 w) ∷ hear dummy_bytes ∷ l) (dual-listens ws es)

pub dfs_boot-Talks :
    (select : Line → Bool) (ws : List ℕ) (id result : ℕ)
    → ((l : Line) → select l ≡ true)
    → Talks line_at
        (dfs_boot select ws id)
        tt
        tt
        (mac_script ws id result)
        (0, (if result == minus_one then u32 (id + 1) else id))
unfolding dfs_boot
dfs_boot-Talks select ws id result ready =
    Talks-then line_at (modify (put32 fs_id_start)) _ (Talks-put32 fs_id_start) (
      Talks-bind line_at await_dummy _ Talks-await_dummy (
        Talks-script line_at (sym (dual-listens ws _)) (
          Talks-then line_at (send_string ws) _ (Talks-send_string ws) (
            Talks-then line_at (modify (put32 config_init)) _ (Talks-put32 config_init)
              (Talks-select_boot select id result ready)))))
