-- ===== src/Protocol/Line.antt =====
-- One end of the serial line, and the words of boot-defs.h. What arrives is given in advance, what is
-- sent is kept in order.
use rpi0_naivegfs.Base.{ℕ, ◌/◌, ◌+◌, ◌*◌, List, ◌++◌}

pub record Line : Type 0 where
  pub rx : List ℕ
  pub tx : List ℕ

abbrev pub send : List ℕ → Line → Line
send bytes s = record s { tx = s.tx ++ bytes }

abbrev pub armbase : ℕ
armbase = 0x8000

abbrev pub get_prog_info : ℕ
get_prog_info = 0x1111_2222

abbrev pub put_prog_info : ℕ
put_prog_info = 0x3333_4444

abbrev pub get_code : ℕ
get_code = 0x5555_6666

abbrev pub put_code : ℕ
put_code = 0x7777_8888

abbrev pub boot_success : ℕ
boot_success = 0x9999_aaaa

abbrev pub print_string : ℕ
print_string = 0xdddd_eeee

abbrev pub dummy : ℕ
dummy = 0x1234_5678

abbrev pub dummy2 : ℕ
dummy2 = 0x9abc_deff

abbrev pub config_init : ℕ
config_init = 0x0000_eeee

abbrev pub fs_id_start : ℕ
fs_id_start = 0x0000_ffff

abbrev pub request_id : ℕ
request_id = 0xcccc_dddd

-- `op >> 8 | b << 24`
abbrev pub shift_in : ℕ → ℕ → ℕ
shift_in op b = op / 256 + b * 16777216
