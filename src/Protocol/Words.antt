-- ===== src/Protocol/Words.antt =====
-- `boot_get32` and `boot_put32` of pi-src/get-code.h, and the words that pass between the two sides.
use rpi0_naivegfs.Base.{
  ℕ, ◌<◌, ◌^◌, ◌≡◌, ap, List, [], ◌∷◌, ◌++◌, Prog, done, pure, ◌>>=◌, word32, word32-bytes32, ◌/◌,
  u8,
}
use rpi0_naivegfs.Protocol.Line.{Line, send}
use rpi0_naivegfs.Protocol.Pi.{uart_get8}
use rpi0_naivegfs.Protocol.Mac.{get8, get32, put32}

unfoldable pub boot_get32 : Prog Line ℕ
boot_get32 = do a ← uart_get8; b ← uart_get8; c ← uart_get8; d ← uart_get8; pure (word32 a b c d)

unfoldable pub boot_put32 : ℕ → Line → Line
boot_put32 u s = send (u8 u ∷ u8 (u / 256) ∷ u8 (u / 65536) ∷ u8 (u / 16777216) ∷ []) s

-- A word that one side sends is the one that the other side reads, in both directions, and what
-- follows it stays on the line.
pub get32-put32 :
    (u : ℕ) (more t : List ℕ)
    → u < 2 ^ 32
    → (boot_get32 (record { rx = (put32 u (record { rx = []; tx = [] })).tx ++ more; tx = t })
        ≡ done u (record { rx = more; tx = t }))
      × (get32 (record { rx = (boot_put32 u (record { rx = []; tx = [] })).tx ++ more; tx = t })
          ≡ done u (record { rx = more; tx = t }))
unfolding boot_get32 boot_put32 get32 put32 get8 uart_get8
get32-put32 u more t h = (
  ap (λ w. done w (record { rx = more; tx = t })) (word32-bytes32 u h),
  ap (λ w. done w (record { rx = more; tx = t })) (word32-bytes32 u h),
)
