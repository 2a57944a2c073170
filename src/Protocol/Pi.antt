-- ===== src/Protocol/Pi.antt =====
-- The side of the pi: `entry` of pi-src/main.c and what it calls. `uart_get8` waits for a byte, so on
-- an empty line a program is still running.
use rpi0_naivegfs.Base.{
  ℕ, zero, suc, ◌%◌, if◌then◌else◌, ◌==◌, List, [], ◌∷◌, ◌++◌, Prog, done, halted, running, pure,
  modify, no_rounds, ◌>>=◌, ◌>>◌, length, drop, replicate, bytes32, minus_one, u8,
}
use rpi0_naivegfs.Fat32.State.{SectorDevice, Fs}
use rpi0_naivegfs.Fat32.Mount.{fat32_init}
use rpi0_naivegfs.Dfs.{dfs_init_config, id_for_dfs}
use rpi0_naivegfs.Output.{exit_text}
use rpi0_naivegfs.Protocol.Line.{Line, send, shift_in, fs_id_start, config_init, request_id}

unfoldable pub uart_get8 : Prog Line ℕ
uart_get8 s = elim s.rx [ [] ↦ running s | b ∷ bs ↦ done b (record s { rx = bs }) ]

unfoldable pub uart_put_dummy : Line → Line
uart_put_dummy s = send (0x78 ∷ 0x56 ∷ 0x34 ∷ 0x12 ∷ []) s

unfoldable pub uart_put_dummy2 : Line → Line
uart_put_dummy2 s = send (0xff ∷ 0xde ∷ 0xbc ∷ 0x9a ∷ []) s

-- Four bytes shifted in.
unfoldable pub get_word : ℕ → Prog Line ℕ
get_word op = do
  a ← uart_get8
  b ← uart_get8
  c ← uart_get8
  d ← uart_get8
  pure (shift_in (shift_in (shift_in (shift_in op a) b) c) d)

-- The loop of `get_string` with n rounds left: the bytes that it writes to `name`.
unfoldable pub get_string : ℕ → ℕ → Prog Line (List ℕ)
get_string zero op = pure []
get_string (suc n) op = do
  word ← get_word op
  modify uart_put_dummy
  if word == minus_one
      then pure (bytes32 word)
      else (do rest ← get_string n word; pure (bytes32 word ++ rest))

-- `MAX_DFS_NAME_LEN / 4`
abbrev pub name_words : ℕ
name_words = 7

-- `while(op != target)`: a byte is shifted in.
unfoldable pub wait_rounds : ℕ → ℕ → ℕ → Prog Line ℕ
wait_rounds zero target op s = no_rounds s
wait_rounds (suc n) target op s =
    let more = (do b ← uart_get8; wait_rounds n target (shift_in op b)) s in
    if op == target then done op s else more

-- Each round takes a byte, so the rounds are enough.
unfoldable pub wait_for : ℕ → ℕ → Prog Line ℕ
wait_for target op s = wait_rounds (suc (length s.rx)) target op s

-- The file system and the line.
pub record PiState (Store : Type 0) : Type 0 where
  pub fs : Fs Store
  pub line : Line

module _ {Store : Type 0} {A : Type 0} where
  unfoldable pub on_line : Prog Line A → Prog (PiState Store) A
  on_line p s = elim (p s.line) [
    | done a l ↦ done a (record s { line = l })
    | halted l ↦ halted (record s { line = l })
    | running l ↦ running (record s { line = l })
  ]

  unfoldable pub on_fs : Prog (Fs Store) A → Prog (PiState Store) A
  on_fs p s = elim (p s.fs) [
    | done a f ↦ done a (record s { fs = f })
    | halted f ↦ halted (record s { fs = f })
    | running f ↦ running (record s { fs = f })
  ]

-- The answer to a request of the id: that the offered id is taken, or the id that the disk has.
unfoldable pub report_id : ℕ → ℕ → Line → Line
report_id id op s =
    if id == minus_one
    then send (replicate 4 (u8 op)) (uart_put_dummy2 s)
    else send (replicate 4 (u8 id)) (uart_put_dummy s)

module _ {Store : Type 0} (dev : SectorDevice Store) where
  -- `entry`; `buf` is what `dfs_name` holds at first, `rounds` bounds the walks of the directory.
  unfoldable pub entry : ℕ → List ℕ → Prog (PiState Store) (Unit {0})
  entry rounds buf = do
    op ← on_line (wait_for fs_id_start 0)
    on_line (modify uart_put_dummy)
    name ← on_line (get_string name_words 0)
    let dfs_name = name ++ drop (length name) buf
    op2 ← on_line (wait_for config_init op)
    r ← on_fs (fat32_init dev)
    cfg ← on_fs (dfs_init_config dev rounds)
    on_line (modify uart_put_dummy)
    op3 ← on_line (wait_for request_id 0)
    on_line (modify uart_put_dummy)
    word ← on_line (get_word op3)
    let offered = word % 256
    id ← on_fs (id_for_dfs dev cfg dfs_name offered)
    on_line (modify (report_id id offered))
    on_line (modify (send exit_text))
