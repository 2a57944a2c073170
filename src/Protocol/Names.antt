-- ===== src/Protocol/Names.antt =====
-- How `get_string` on the pi takes the name that the mac sends.
use rpi0_naivegfs.Base.{
  bytes32-word32, ℕ, zero, suc, ◌+◌, ◌*◌, ◌/◌, ◌%◌, ◌^◌, ◌≤◌, ◌<◌, ◌≡◌, ◌≢◌, refl, sym, ap, ◌∙◌,
  List, [], ◌∷◌, ◌++◌, done, running, pure, and_then, length, bytes32, word32, minus_one, arith,
  ne→not_==,
}
use rpi0_naivegfs.Protocol.Pi.{uart_get8, uart_put_dummy, get_word, get_string}
use rpi0_naivegfs.Protocol.Mac.{name_to_send, words_in_name, frame}

-- Each character of a name is below 0xff.
unfoldable pub AllChars : List ℕ → Type 0
AllChars [] = Unit
AllChars (x ∷ xs) = (x < 0xff) × AllChars xs

pub get_word_lem :
    (op a b c d : ℕ) (r t : List ℕ)
    → op < 2 ^ 32
    → a < 256
    → b < 256
    → c < 256
    → d < 256
    → get_word op (record { rx = a ∷ b ∷ c ∷ d ∷ r; tx = t })
      ≡ done (word32 a b c d) (record { rx = r; tx = t })
unfolding get_word uart_get8
get_word_lem op a b c d r t ho ha hb hc hd =
    ap (λ w. done w (record { rx = r; tx = t })) (omega arith)

abbrev pub answered : List ℕ → List ℕ
answered t = t ++ (0x78 ∷ 0x56 ∷ 0x34 ∷ 0x12 ∷ [])

-- A word of characters is taken and answered.
get_string_step :
    (n op a b c d : ℕ) (r t : List ℕ)
    → op < 2 ^ 32
    → a < 256
    → b < 256
    → c < 256
    → d < 256
    → word32 a b c d ≢ minus_one
    → get_string (suc n) op (record { rx = a ∷ b ∷ c ∷ d ∷ r; tx = t })
      ≡ and_then
          (get_string n (word32 a b c d) (record { rx = r; tx = answered t }))
          (λ rest. pure (bytes32 (word32 a b c d) ++ rest))
unfolding get_string uart_put_dummy
get_string_step n op a b c d r t ho ha hb hc hd hw =
    rw (get_word_lem op a b c d r t ho ha hb hc hd, ne→not_== (word32 a b c d) minus_one hw)

get_string_last :
    (n op : ℕ) (r t : List ℕ)
    → op < 2 ^ 32
    → get_string (suc n) op (record { rx = 0xff ∷ 0xff ∷ 0xff ∷ 0xff ∷ r; tx = t })
      ≡ done (0xff ∷ 0xff ∷ 0xff ∷ 0xff ∷ []) (record { rx = r; tx = answered t })
unfolding get_string uart_put_dummy
get_string_last n op r t ho = rw (
    get_word_lem op 0xff 0xff 0xff 0xff r t ho (omega arith) (omega arith) (omega arith)
      (omega arith))

get_string_empty :
    (n op : ℕ) (t : List ℕ)
    → get_string (suc n) op (record { rx = []; tx = t }) ≡ running (record { rx = []; tx = t })
unfolding get_string get_word uart_get8
get_string_empty n op t = refl

words_step :
    (n : ℕ) → 4 * ((suc (suc (suc (suc n))) + 5) / 4) ≡ suc (suc (suc (suc (4 * ((n + 5) / 4)))))
words_step n = omega arith

pub frame_step :
    (a b c d : ℕ) (name : List ℕ) → frame (a ∷ b ∷ c ∷ d ∷ name) ≡ a ∷ b ∷ c ∷ d ∷ frame name
unfolding name_to_send
frame_step a b c d name = rw (words_step (length name))

-- The line's output after n answers more.
abbrev pub answers : ℕ → List ℕ → List ℕ
answers zero t = t
answers (suc n) t = answers n (answered t)

get_string-frame :
    (n k op : ℕ) (name more t : List ℕ)
    → k < n
    → length name ≡ 4 * k
    → AllChars name
    → op < 2 ^ 32
    → get_string n op (record { rx = frame name ++ more; tx = t })
      ≡ done
          (name ++ (0xff ∷ 0xff ∷ 0xff ∷ 0xff ∷ []))
          (record { rx = more; tx = answers (suc k) t })
unfolding AllChars name_to_send
get_string-frame zero k op name more t hn hl hc ho = absurd (omega arith)
get_string-frame (suc n) zero op [] more t hn hl hc ho = get_string_last n op more t ho
get_string-frame (suc n) zero op (a ∷ name) more t hn hl hc ho = absurd (omega arith)
get_string-frame (suc n) (suc k) op [] more t hn hl hc ho = absurd (omega arith)
get_string-frame (suc n) (suc k) op (a ∷ []) more t hn hl hc ho = absurd (omega arith)
get_string-frame (suc n) (suc k) op (a ∷ b ∷ []) more t hn hl hc ho = absurd (omega arith)
get_string-frame (suc n) (suc k) op (a ∷ b ∷ c ∷ []) more t hn hl hc ho = absurd (omega arith)
get_string-frame (suc n) (suc k) op (a ∷ b ∷ c ∷ d ∷ name) more t hn hl (ha, (hb, (hc, (hd, hs))))
      ho =
    rw
      (
        frame_step a b c d name,
        get_string_step n op a b c d (frame name ++ more) t ho (omega arith) (omega arith)
            (omega arith) (omega arith) (λ e. omega arith),
        get_string-frame n k (word32 a b c d) name more (answered t) (omega arith) (omega arith) hs
            (omega arith),
      )
      (ap
        (λ l.
          done (l ++ (name ++ (0xff ∷ 0xff ∷ 0xff ∷ 0xff ∷ [])))
            (record { rx = more; tx = answers (suc (suc k)) t }))
        (bytes32-word32 a b c d (omega arith) (omega arith) (omega arith) (omega arith)))

-- For a name of 4 * k characters below 0xff, k ≤ 6, `get_string` takes exactly the bytes that the mac
-- sends for the name: it returns the name with four bytes 0xff behind it, leaves what the mac sends
-- next on the line, and has answered each of the k + 1 words.
pub get_string-frame_aligned :
    (k : ℕ) (name more t : List ℕ)
    → k ≤ 6
    → length name ≡ 4 * k
    → AllChars name
    → get_string 7 0 (record { rx = frame name ++ more; tx = t })
      ≡ done
          (name ++ (0xff ∷ 0xff ∷ 0xff ∷ 0xff ∷ []))
          (record { rx = more; tx = answers (suc k) t })
get_string-frame_aligned k name more t hk hl hc =
    get_string-frame 7 k 0 name more t (omega arith) hl hc (omega arith)

get_string-frame_waits :
    (n op : ℕ) (name t : List ℕ)
    → words_in_name name < n
    → length name % 4 ≢ 0
    → AllChars name
    → op < 2 ^ 32
    → get_string n op (record { rx = frame name; tx = t })
      ≡ running (record { rx = []; tx = answers (words_in_name name) t })
unfolding AllChars name_to_send
get_string-frame_waits zero op name t hn hl hc ho = absurd (omega arith)
get_string-frame_waits (suc n) op [] t hn hl hc ho = absurd (hl refl)
get_string-frame_waits (suc zero) op (a ∷ name) t hn hl hc ho = absurd (omega arith)
get_string-frame_waits (suc (suc n)) op (a ∷ []) t hn hl hc ho = rw (
  get_string_step (suc n) op a 0xff 0xff 0xff [] t ho (omega arith) (omega arith) (omega arith)
      (omega arith) (λ e. omega arith),
  get_string_empty n (word32 a 0xff 0xff 0xff) (answered t),
)
get_string-frame_waits (suc (suc n)) op (a ∷ b ∷ []) t hn hl hc ho = rw (
  get_string_step (suc n) op a b 0xff 0xff [] t ho (omega arith) (omega arith) (omega arith)
      (omega arith) (λ e. omega arith),
  get_string_empty n (word32 a b 0xff 0xff) (answered t),
)
get_string-frame_waits (suc (suc zero)) op (a ∷ b ∷ c ∷ []) t hn hl hc ho = absurd (omega arith)
get_string-frame_waits (suc (suc (suc n))) op (a ∷ b ∷ c ∷ []) t hn hl hc ho = rw (
  get_string_step (suc (suc n)) op a b c 0xff (0xff ∷ 0xff ∷ 0xff ∷ 0 ∷ []) t ho (omega arith)
      (omega arith) (omega arith) (omega arith) (λ e. omega arith),
  get_string_step (suc n) (word32 a b c 0xff) 0xff 0xff 0xff 0 [] (answered t) (omega arith)
      (omega arith) (omega arith) (omega arith) (omega arith) (λ e. omega arith),
  get_string_empty n (word32 0xff 0xff 0xff 0) (answered (answered t)),
)
get_string-frame_waits (suc (suc n)) op (a ∷ b ∷ c ∷ d ∷ name) t hn hl (ha, (hb, (hc, (hd, hs))))
      ho =
    let words : words_in_name (a ∷ b ∷ c ∷ d ∷ name) ≡ suc (words_in_name name) = omega arith in
    (rw (
      frame_step a b c d name,
      get_string_step (suc n) op a b c d (frame name) t ho (omega arith) (omega arith) (omega arith)
          (omega arith) (λ e. omega arith),
      get_string-frame_waits (suc n) (word32 a b c d) name (answered t) (omega arith)
          (λ e. hl (omega arith)) hs (omega arith),
    ))
    ∙ ap (λ m. running (record { rx = []; tx = answers m t })) (sym words)

-- For a name of less than 23 characters below 0xff whose length is not a multiple of 4, `get_string`
-- has taken all that the mac sends for the name, has answered each of its words, and still waits for
-- another.
pub get_string-frame_unaligned :
    (name t : List ℕ)
    → length name < 23
    → length name % 4 ≢ 0
    → AllChars name
    → get_string 7 0 (record { rx = frame name; tx = t })
      ≡ running (record { rx = []; tx = answers (words_in_name name) t })
get_string-frame_unaligned name t hn hl hc =
    get_string-frame_waits 7 0 name t (omega arith) hl hc (omega arith)
