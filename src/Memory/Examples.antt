-- ===== src/Memory/Examples.antt =====
-- The theorem on `memset` at a length that is no multiple of a word.
use rpi0_naivegfs.Base.{◌+◌, ◌≡◌, ◌&&◌, ltb, leb, if◌then◌else◌, u8}
use rpi0_naivegfs.Memory.{memset}
use rpi0_naivegfs.Memory.Fill.{memset_lem}

memset_lem_example :
    memset 100 0x107 10 (λ i. 0) 109 ≡ (if leb 100 109 && ltb 109 (100 + 10) then u8 0x107 else 0)
memset_lem_example = memset_lem 100 0x107 10 (λ i. 0) 109
