-- ===== src/Protocol/Dialogue.antt =====
-- The dialogue of `dfs_boot` on the mac and `entry` on the pi: what each side sends, in order.
pub mod Mac
pub mod Pi
pub mod Run
pub mod Restart
mod Examples
use Prim.Native.Nat.{bit_or}
use mathlib.Core.List.{append_assoc}
use rpi0_naivegfs.Base.{
  ℕ, zero, suc, ◌+◌, ◌≡◌, refl, sym, ap, ◌∙◌, if◌then◌else◌, ◌==◌, List, [], ◌∷◌, ◌++◌, replicate,
  bytes32, minus_one, u8,
}
use rpi0_naivegfs.Output.{exit_text}
use rpi0_naivegfs.Protocol.Line.{fs_id_start, config_init, request_id}
use rpi0_naivegfs.Protocol.Mac.{frame}
use rpi0_naivegfs.Protocol.Names.{answers, answered}

-- n words DUMMY, in front of other bytes.
abbrev pub dummies : ℕ → List ℕ → List ℕ
dummies zero more = more
dummies (suc n) more = 0x78 ∷ 0x56 ∷ 0x34 ∷ 0x12 ∷ dummies n more

-- Whether the offered id is taken, and the id that the pi claims.
abbrev pub claim : ℕ → ℕ → List ℕ
claim result offered =
    if result == minus_one
    then (0xff ∷ 0xde ∷ 0xbc ∷ 0x9a ∷ replicate 4 (u8 offered))
    else 0x78 ∷ 0x56 ∷ 0x34 ∷ 0x12 ∷ replicate 4 (u8 result)

-- All that the mac sends for a name and an id that it can give away.
abbrev pub mac_text : List ℕ → ℕ → List ℕ
mac_text name assignable =
    bytes32 fs_id_start
    ++ (frame name
        ++ (bytes32 config_init ++ (bytes32 request_id ++ bytes32 (bit_or 0xffff_ff00 assignable))))

-- All that the pi sends, for a name of 4 * k characters and a result of `id_for_dfs`.
abbrev pub pi_text : ℕ → ℕ → ℕ → List ℕ
pi_text k result offered = dummies (suc (suc k)) (dummies 2 (claim result offered ++ exit_text))

pub answers_lem : (n : ℕ) (t more : List ℕ) → answers n t ++ more ≡ t ++ dummies n more
answers_lem zero t more = refl
answers_lem (suc n) t more =
    answers_lem n (answered t) more
    ∙ append_assoc t (0x78 ∷ 0x56 ∷ 0x34 ∷ 0x12 ∷ []) (dummies n more)
