-- ===== src/Output/Loop.antt =====
-- `get_pi_output` of mac-src/get-pi-output.c: the rounds of selecting a pi and draining it. The calls
-- of the operating system are a parameter with a state of its own; the messages are left out.
use rpi0_naivegfs.Base.{
  and_then, ℕ, zero, suc, Bool, if◌then◌else◌, List, [], ◌∷◌, ◌++◌, Prog, done, no_rounds, length,
  minus_one, Option, none, some,
}
use rpi0_naivegfs.Output.{scan_data, Pi, pi_at, select_pi, reap_pi}

-- What `read` gives: an error, nothing, or data.
pub data Input : Type 0 where
  failed : Input
  nothing : Input
  bytes : List ℕ → Input

-- `select` on several descriptors, `read`, and `select` on the one that is read.
pub record Os (World : Type 0) : Type 0 where
  pub select_any : List ℕ → World → Bool × World
  pub read : ℕ → World → Input × World
  pub select_one : ℕ → World → Bool × World

-- The pies, the static `idx` of `pi_done_scan`, what was written, and the system.
pub record Console (World : Type 0) : Type 0 where
  pub pies : List Pi
  pub idx : ℕ
  pub written : List ℕ
  pub world : World

-- The descriptors in `read_fds`.
unfoldable pub open_fds : List Pi → List ℕ
open_fds [] = []
open_fds (p ∷ ps) = if p.is_open then p.fd ∷ open_fds ps else open_fds ps

module _ {World : Type 0} (os : Os World) where
  abbrev pub reap : ℕ → Console World → Console World
  reap j s = record s { pies = reap_pi s.pies j }

  -- After data was read and scanned.
  unfoldable pub after_scan :
      Prog (Console World) (Unit {0})
      → ℕ
      → ℕ
      → List ℕ
      → Option (ℕ × Bool)
      → Prog (Console World) (Unit {0})
  after_scan again j fd chunk none s = no_rounds s
  after_scan again j fd chunk (some (idx', match)) s =
      let t = record s { idx = idx'; written = s.written ++ chunk } in
      if match
      then done tt (reap j t)
      else (let (ready, w) = os.select_one fd t.world in
          let u = record t { world = w } in if ready then again u else done tt u)

  -- After a call of `read`.
  unfoldable pub after_read :
      Prog (Console World) (Unit {0}) → ℕ → ℕ → Input → Prog (Console World) (Unit {0})
  after_read again j fd failed s = done tt (reap j s)
  after_read again j fd nothing s = done tt s
  after_read again j fd (bytes chunk) s = after_scan again j fd chunk (scan_data chunk s.idx) s

  -- `while(1)`: the pi is read until it fails, has nothing, is done, or is late.
  unfoldable pub drain : ℕ → ℕ → ℕ → Prog (Console World) (Unit {0})
  drain zero j fd s = no_rounds s
  drain (suc n) j fd s =
      let (input, w) = os.read fd s.world in
      after_read (drain n j fd) j fd input (record s { world = w })

  unfoldable pub serve_chosen : ℕ → Option ℕ → Prog (Console World) (Unit {0})
  serve_chosen rounds none s = no_rounds s
  serve_chosen rounds (some j) s = drain rounds j (pi_at s.pies j).fd s

  -- A round in which data is ready: `prev_pi` is -1.
  unfoldable pub serve : ℕ → Prog (Console World) (Unit {0})
  serve rounds s =
      serve_chosen rounds
        (select_pi (suc (length s.pies)) s.pies (length s.pies) minus_one minus_one) s

  -- A round, from the descriptors that are open; `more` is the rounds left.
  unfoldable pub watch :
      ℕ → Prog (Console World) (Unit {0}) → List ℕ → Prog (Console World) (Unit {0})
  watch rounds more [] s = done tt s
  watch rounds more (f ∷ fs) s =
      let (ready, w) = os.select_any (f ∷ fs) s.world in
      let t = record s { world = w } in
      if ready then and_then (serve rounds t) (λ _. more) else done tt t

  -- `for(int i = 0; i < 10; ++i)`, with n rounds left; `rounds` bounds the draining of a pi.
  unfoldable pub output_rounds : ℕ → ℕ → Prog (Console World) (Unit {0})
  output_rounds rounds zero s = done tt s
  output_rounds rounds (suc n) s = watch rounds (output_rounds rounds n) (open_fds s.pies) s

  unfoldable pub get_pi_output : ℕ → Prog (Console World) (Unit {0})
  get_pi_output rounds = output_rounds rounds 10
