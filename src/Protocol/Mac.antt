-- ===== src/Protocol/Mac.antt =====
-- The side of the mac: mac-src/bootpi.c, and the name that mac-src/pi-install.c sends. A read that
-- finds nothing ends the program, as `panic` does there. The messages are left out. `get32` is taken
-- to read its four bytes in order, which C leaves open.
use Prim.Native.Nat.{bit_or}
use rpi0_naivegfs.Base.{
  ℕ, zero, suc, ◌+◌, ◌*◌, ◌/◌, Bool, true, ◌||◌, not, if◌then◌else◌, ◌==◌, ltb, List, [], ◌∷◌, ◌++◌,
  Prog, done, halted, pure, halt, get_state, modify, no_rounds, ◌>>=◌, ◌>>◌, length, get_or, take,
  drop, word32, bytes32, minus_one, u32,
}
use rpi0_naivegfs.Output.{Pi}
use rpi0_naivegfs.Protocol.Line.{
  Line, send, shift_in, armbase, get_prog_info, put_prog_info, get_code, put_code, boot_success,
  print_string, dummy, dummy2, config_init, fs_id_start, request_id,
}

unfoldable pub get8 : Prog Line ℕ
get8 s = elim s.rx [ [] ↦ halted s | b ∷ bs ↦ done b (record s { rx = bs }) ]

unfoldable pub put32 : ℕ → Line → Line
put32 v s = send (bytes32 v) s

unfoldable pub get32 : Prog Line ℕ
get32 = do a ← get8; b ← get8; c ← get8; d ← get8; pure (word32 a b c d)

-- Words are read until one that ends the loop.
unfoldable pub read_rounds : (ℕ → Bool) → ℕ → Prog Line ℕ
read_rounds stop zero = no_rounds
read_rounds stop (suc n) = do op ← get32; if stop op then pure op else read_rounds stop n

-- Each round takes four bytes, so the rounds are enough.
unfoldable pub read_until : (ℕ → Bool) → Prog Line ℕ
read_until stop s = read_rounds stop (suc (length s.rx)) s

-- `while((op = get32(p->fd)) != DUMMY)`
abbrev pub await_dummy : Prog Line ℕ
await_dummy = read_until (λ op. op == dummy)

-- The name, four bytes 0xff, and the 0.
unfoldable pub name_to_send : List ℕ → List ℕ
name_to_send name = name ++ (0xff ∷ 0xff ∷ 0xff ∷ 0xff ∷ 0 ∷ [])

-- `(new_len + 1)/4`
abbrev pub words_in_name : List ℕ → ℕ
words_in_name name = (length name + 5) / 4

-- `((uint32_t *)to_send)[i]`, for the n words of a buffer.
unfoldable pub words_of : ℕ → List ℕ → List ℕ
words_of zero b = []
words_of (suc n) b =
    word32 (get_or b 0 0) (get_or b 1 0) (get_or b 2 0) (get_or b 3 0) ∷ words_of n (drop 4 b)

-- The bytes of those words.
abbrev pub frame : List ℕ → List ℕ
frame name = take (4 * words_in_name name) (name_to_send name)

unfoldable pub send_string : List ℕ → Prog Line (Unit {0})
send_string [] = pure tt
send_string (w ∷ ws) = do modify (put32 w); op ← await_dummy; send_string ws

-- The result of `dfs_boot`, and `*assignable_id` after it. `select` tells whether data came in time.
unfoldable pub dfs_boot : (Line → Bool) → List ℕ → ℕ → Prog Line (ℕ × ℕ)
dfs_boot select dfs_words assignable_id = do
  modify (put32 fs_id_start)
  op ← await_dummy
  send_string dfs_words
  modify (put32 config_init)
  s ← get_state
  if not (select s) then pure (minus_one, assignable_id) else (do
    op2 ← await_dummy
    modify (put32 request_id)
    op3 ← await_dummy
    modify (put32 (bit_or 0xffff_ff00 assignable_id))
    answer ← read_until (λ op. op == dummy || op == dummy2)
    claimed ← get32
    pure (0, (if answer == dummy2 then u32 (assignable_id + 1) else assignable_id)))

-- The characters of a string that the pi prints.
unfoldable pub skip_bytes : ℕ → Prog Line (Unit {0})
skip_bytes zero = pure tt
skip_bytes (suc n) = do b ← get8; skip_bytes n

-- `while(op != GET_PROG_INFO)`
unfoldable pub drain_rounds : ℕ → ℕ → Prog Line ℕ
drain_rounds zero op = no_rounds
drain_rounds (suc n) op = if op == get_prog_info then pure op else (do
  b ← get8
  if shift_in op b == print_string
      then (do len ← get32; skip_bytes len; drain_rounds n (shift_in op b))
      else drain_rounds n (shift_in op b))

-- The wait for `BOOT_SUCCESS`, with the count of the words before.
unfoldable pub success_rounds : ℕ → ℕ → Prog Line (Unit {0})
success_rounds zero i = no_rounds
success_rounds (suc n) i = do
  op ← get32
  if op == boot_success
      then pure tt
      else (if ltb 0xffff_0000 i then halt else success_rounds n (i + 1))

-- `boot`; `crc32` is that of boot-crc32.h.
unfoldable pub boot : (List ℕ → ℕ) → Pi → List ℕ → Prog Line (ℕ × Pi)
boot crc32 p program = do
  first ← get32
  s ← get_state
  op ← drain_rounds (suc (length s.rx)) first
  modify (put32 put_prog_info)
  modify (put32 armbase)
  modify (put32 (length program))
  modify (put32 (crc32 program))
  reply ← read_until (λ op. not (op == get_prog_info))
  if not (reply == get_code) then halt else (do
    modify (put32 put_code)
    modify (send program)
    t ← get_state
    success_rounds (suc (length t.rx)) 0
    pure (0, record p { is_open = true }))
