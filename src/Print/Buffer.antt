-- ===== src/Print/Buffer.antt =====
-- What `vsnprintk` leaves in its buffer.
use rpi0_naivegfs.Base.{
  ℕ, ◌+◌, ◌<◌, ◌≡◌, ◌==◌, if◌then◌else◌, refl, some, List, [], ◌∷◌, lt→ltb, arith,
}
use rpi0_naivegfs.Print.{Arg, Buf, store, putchar, put_all, vprintk, vsnprintk}

put_all-room : (out : List ℕ) (b : Buf) → b.buf_ptr < b.buf_end → put_all out b ≡ b
unfolding put_all putchar
put_all-room [] b h = refl
put_all-room (c ∷ cs) b h = rw (lt→ltb b.buf_ptr b.buf_end h) (put_all-room cs b h)

-- With a buffer of at least one byte, and where the format and its arguments give `vprintk` a result,
-- `vsnprintk` returns the same, and stores nothing of what `vprintk` prints: where that result is 0,
-- only the ending 0 is stored, at the start of the buffer, and where it is another, as the -1 of an
-- unknown directive, nothing at all.
pub vsnprintk-room :
    (buf n : ℕ) (fmt : List ℕ) (args : List Arg) (mem : ℕ → ℕ) {out : List ℕ} {r : ℕ}
    → 0 < n
    → vprintk fmt args ≡ some (out, r)
    → vsnprintk buf n fmt args mem ≡ (
        let b : Buf = record { mem = mem; buf_ptr = buf; buf_end = buf + n } in
        some (if r == 0 then store 0 b else b, r))
unfolding vsnprintk
vsnprintk-room buf n fmt args mem {out} pos e =
    rw (e, put_all-room out (record { mem = mem; buf_ptr = buf; buf_end = buf + n }) (omega arith))
