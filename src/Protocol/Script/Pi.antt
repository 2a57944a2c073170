-- ===== src/Protocol/Script/Pi.antt =====
-- The script of `entry`: what it hears and says, byte by byte.
use mathlib.Core.Path.{subst}
use mathlib.Core.List.{append_assoc, append-nil}
use rpi0_naivegfs.Base.{
  ℕ, zero, suc, ◌/◌, ◌%◌, ◌^◌, ◌<◌, ◌≡◌, ◌≢◌, refl, ap, ◌∙◌, inl, inr, List, [], ◌∷◌, ◌++◌, Prog,
  done, pure, modify, and_then, ◌>>=◌, length, bytes32, minus_one, arith, ne→not_==, if◌then◌else◌,
  ◌==◌,
}
use rpi0_naivegfs.Fat32.State.{Fs}
use rpi0_naivegfs.Protocol.Line.{Line, fs_id_start, config_init, request_id}
use rpi0_naivegfs.Protocol.Pi.{
  PiState, uart_get8, uart_put_dummy, get_word, get_string, wait_rounds, wait_for, on_line, on_fs,
}
use rpi0_naivegfs.Protocol.Names.{get_word_lem}
use rpi0_naivegfs.Protocol.Dialogue.Mac.{put_words}
use rpi0_naivegfs.Protocol.Script.{Event, hear, say}
use rpi0_naivegfs.Protocol.Script.Parts.{Short-four}
use rpi0_naivegfs.Protocol.Script.Talks.{
  Stops, Talks, Talks-bind, Talks-then, Talks-pure, Talks-modify, Talks-hear,
}

abbrev pub line_at : Unit {0} → Line → Line
line_at u l = l

module _ {Store : Type 0} where
  abbrev pub pi_at : Fs Store → Line → PiState Store
  pi_at f l = record { fs = f; line = l }

  on_line-Stops :
      {A : Type 0} (p : Prog Line A) (f : Fs Store) (l m : Line)
      → Stops line_at (p l) m
      → Stops pi_at (on_line p (pi_at f l)) m
  unfolding on_line
  on_line-Stops p f l m (u, inl e) = (f, inl (rw (on_line, e)))
  on_line-Stops p f l m (u, inr e) = (f, inr (rw (on_line, e)))

  pub Talks-on_line :
      {A : Type 0} (p : Prog Line A) (f : Fs Store) {es : List Event} {v : A}
      → Talks line_at p tt tt es v
      → Talks pi_at (on_line p) f f es v
  unfolding on_line
  Talks-on_line p f x = record {
    full = λ more t. rw (on_line, x.full more t);
    part = λ a t short. on_line-Stops p f _ _ (x.part a t short);
  }

  -- The file system says nothing on the line.
  pub Talks-on_fs :
      {A B : Type 0} (p : Prog (Fs Store) A) (k : A → Prog (PiState Store) B) (f g h : Fs Store)
      {es : List Event} (v : A) {u : B}
      → p f ≡ done v g
      → Talks pi_at (k v) g h es u
      → Talks pi_at (on_fs p >>= k) f h es u
  unfolding on_fs
  Talks-on_fs p k f g h v e x = record {
    full = λ more t. rw (on_fs, e) (x.full more t);
    part = λ a t short. rw (on_fs, e) (x.part a t short);
  }

-- A word DUMMY.
abbrev pub dummy_bytes : List ℕ
dummy_bytes = 0x78 ∷ 0x56 ∷ 0x34 ∷ 0x12 ∷ []

pub Talks-uart_put_dummy : Talks line_at (modify uart_put_dummy) tt tt (say dummy_bytes ∷ []) tt
unfolding uart_put_dummy
Talks-uart_put_dummy = Talks-modify line_at tt dummy_bytes uart_put_dummy (λ l. refl)

abbrev pub Waits : {A : Type 0} → Prog Line A → List ℕ → List ℕ → Type 0
Waits p a t = Stops line_at (p (record { rx = a; tx = t })) (record { rx = []; tx = t })

-- A program that hears a word, and stops on each part of it.
pub Talks-word :
    {A : Type 0} (p : Prog Line A) (x y z w : ℕ) (v : A)
    → ((more t : List ℕ)
        → p (record { rx = x ∷ y ∷ z ∷ w ∷ more; tx = t }) ≡ done v (record { rx = more; tx = t }))
    → ((t : List ℕ) → Waits p [] t)
    → ((t : List ℕ) → Waits p (x ∷ []) t)
    → ((t : List ℕ) → Waits p (x ∷ y ∷ []) t)
    → ((t : List ℕ) → Waits p (x ∷ y ∷ z ∷ []) t)
    → Talks line_at p tt tt (hear (x ∷ y ∷ z ∷ w ∷ []) ∷ []) v
Talks-word p x y z w v whole w0 w1 w2 w3 =
    Talks-hear line_at p tt (x ∷ y ∷ z ∷ w ∷ []) v whole
      (λ a t short. Short-four (λ b. Waits p b t) x y z w a (w0 t) (w1 t) (w2 t) (w3 t) short)

pub Talks-fs_id_start :
    Talks line_at (wait_for fs_id_start 0) tt tt (hear (bytes32 fs_id_start) ∷ []) fs_id_start
unfolding wait_for wait_rounds uart_get8
Talks-fs_id_start =
    Talks-word (wait_for fs_id_start 0) 0xff 0xff 0 0 fs_id_start (λ more t. refl)
      (λ t. (tt, inl refl)) (λ t. (tt, inl refl)) (λ t. (tt, inl refl)) (λ t. (tt, inl refl))

pub Talks-config_init :
    Talks line_at
      (wait_for config_init fs_id_start)
      tt
      tt
      (hear (bytes32 config_init) ∷ [])
      config_init
unfolding wait_for wait_rounds uart_get8
Talks-config_init =
    Talks-word (wait_for config_init fs_id_start) 0xee 0xee 0 0 config_init (λ more t. refl)
      (λ t. (tt, inl refl)) (λ t. (tt, inl refl)) (λ t. (tt, inl refl)) (λ t. (tt, inl refl))

pub Talks-request_id :
    Talks line_at (wait_for request_id 0) tt tt (hear (bytes32 request_id) ∷ []) request_id
unfolding wait_for wait_rounds uart_get8
Talks-request_id =
    Talks-word (wait_for request_id 0) 0xdd 0xdd 0xcc 0xcc request_id (λ more t. refl)
      (λ t. (tt, inl refl)) (λ t. (tt, inl refl)) (λ t. (tt, inl refl)) (λ t. (tt, inl refl))

pub Talks-get_low_word :
    (op w : ℕ)
    → op < 2 ^ 32
    → Talks line_at (get_word op) tt tt (hear (bytes32 w) ∷ []) (w % 2 ^ 32)
unfolding get_word uart_get8
Talks-get_low_word op w ho =
    Talks-word (get_word op) (w % 256) ((w / 256) % 256) ((w / 65536) % 256) ((w / 16777216) % 256)
      (w % 2 ^ 32)
      (λ more t.
        get_word_lem op (w % 256) ((w / 256) % 256) ((w / 65536) % 256) ((w / 16777216) % 256) more
          t ho (omega arith) (omega arith) (omega arith) (omega arith)
        ∙ ap (λ u. done u (record { rx = more; tx = t })) (omega arith))
      (λ t. (tt, inl refl)) (λ t. (tt, inl refl)) (λ t. (tt, inl refl)) (λ t. (tt, inl refl))

pub Talks-get_word :
    (op w : ℕ)
    → op < 2 ^ 32
    → w < 2 ^ 32
    → Talks line_at (get_word op) tt tt (hear (bytes32 w) ∷ []) w
Talks-get_word op w ho hw =
    let same : w % 2 ^ 32 ≡ w = omega arith in
    subst (λ v. Talks line_at (get_word op) tt tt (hear (bytes32 w) ∷ []) v) same
      (Talks-get_low_word op w ho)

-- The words of a string, and its end.
abbrev pub listens : List ℕ → List Event → List Event
listens [] es = es
listens (w ∷ ws) es = hear (bytes32 w) ∷ say dummy_bytes ∷ listens ws es

abbrev pub end_of_name : List ℕ
end_of_name = 0xff ∷ 0xff ∷ 0xff ∷ 0xff ∷ []

unfoldable pub AllWords : List ℕ → Type 0
AllWords [] = Unit
AllWords (w ∷ ws) = ((w < 2 ^ 32) × (w ≢ minus_one)) × AllWords ws

pub Talks-get_string :
    (n op : ℕ) (ws : List ℕ)
    → length ws < n
    → AllWords ws
    → op < 2 ^ 32
    → Talks line_at
        (get_string n op)
        tt
        tt
        (listens ws (listens (minus_one ∷ []) []))
        (put_words ws ++ end_of_name)
unfolding get_string AllWords
Talks-get_string zero op ws small all ho = absurd (omega arith)
Talks-get_string (suc n) op [] small all ho =
    Talks-bind line_at (get_word op) _ (Talks-get_word op minus_one ho (omega arith)) (
      Talks-then line_at (modify uart_put_dummy) _ Talks-uart_put_dummy
        (Talks-pure line_at tt end_of_name))
Talks-get_string (suc n) op (w ∷ ws) small ((hw, hn), all) ho =
    let value = put_words ws ++ end_of_name in
    let rest : Talks line_at
        (if w == minus_one
          then pure (bytes32 w)
          else (λ s. and_then (get_string n w s) (λ u. pure (bytes32 w ++ u))))
        tt tt (listens ws (listens (minus_one ∷ []) [])) (bytes32 w ++ value) =
      rw (ne→not_== w minus_one hn, ← append-nil (listens ws (listens (minus_one ∷ []) [])))
        (Talks-bind line_at (get_string n w) _ (Talks-get_string n w ws (omega arith) all hw)
          (Talks-pure line_at tt (bytes32 w ++ value))) in
    rw (append_assoc (bytes32 w) (put_words ws) end_of_name) (
      Talks-bind line_at (get_word op) _ (Talks-get_word op w ho hw)
        (Talks-then line_at (modify uart_put_dummy) _ Talks-uart_put_dummy rest))
