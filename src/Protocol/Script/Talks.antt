-- ===== src/Protocol/Script/Talks.antt =====
-- Programs that follow a script: what they have said, and where they stand, whatever has arrived.
use mathlib.Core.Path.{subst}
use mathlib.Core.List.{append_assoc, append-nil}
use rpi0_naivegfs.Base.{
  ℕ, ◌≡◌, ◌⊎◌, inl, inr, refl, sym, ap, ◌∙◌, List, [], ◌∷◌, ◌++◌, Prog, Outcome, done, halted,
  running, pure, modify, and_then, ◌>>=◌, ◌>>◌,
}
use rpi0_naivegfs.Protocol.Line.{Line, send}
use rpi0_naivegfs.Protocol.Script.Parts.{Short-nil, Short-split}
use rpi0_naivegfs.Protocol.Script.{
  Event, hear, say, reply, reply-hear, reply-wait, input, output, Short, Prefix-split,
}

pub input-append : (es fs : List Event) → input (es ++ fs) ≡ input es ++ input fs
input-append [] fs = refl
input-append (say o ∷ es) fs = input-append es fs
input-append (hear w ∷ es) fs =
    ap (λ l. w ++ l) (input-append es fs) ∙ sym (append_assoc w (input es) (input fs))

output-append : (es fs : List Event) → output (es ++ fs) ≡ output es ++ output fs
output-append [] fs = refl
output-append (hear w ∷ es) fs = output-append es fs
output-append (say o ∷ es) fs =
    ap (λ l. o ++ l) (output-append es fs) ∙ sym (append_assoc o (output es) (output fs))

pub reply-append_full :
    (es fs : List Event) (a : List ℕ) → reply (es ++ fs) (input es ++ a) ≡ output es ++ reply fs a
unfolding reply
reply-append_full [] fs a = refl
reply-append_full (say o ∷ es) fs a =
    ap (λ l. o ++ l) (reply-append_full es fs a) ∙ sym (append_assoc o (output es) (reply fs a))
reply-append_full (hear w ∷ es) fs a =
    ap (reply (hear w ∷ (es ++ fs))) (append_assoc w (input es) a)
    ∙ reply-hear w (input es ++ a) (es ++ fs)
    ∙ reply-append_full es fs a

append_left : (w : List ℕ) {b c : List ℕ} → w ++ b ≡ w ++ c → b ≡ c
append_left [] e = e
append_left (x ∷ w) e = append_left w (cc e)

pub reply-append-Short :
    (es fs : List Event) (a : List ℕ) → Short a (input es) → reply (es ++ fs) a ≡ reply es a
unfolding reply
reply-append-Short [] fs [] (x, r, e) = cc e
reply-append-Short [] fs (y ∷ a) (x, r, e) = cc e
reply-append-Short (say o ∷ es) fs a short = ap (λ l. o ++ l) (reply-append-Short es fs a short)
reply-append-Short (hear w ∷ es) fs a (x, r, e) = elim (Prefix-split w (input es) a (x ∷ r, e)) [
  | inl (y, r', e') ↦ reply-wait w a y r' (es ++ fs) e' ∙ sym (reply-wait w a y r' es e')
  | inr (b, at, (r', e')) ↦
      let left : input es ≡ b ++ (x ∷ r) =
        append_left w (e ∙ ap (λ l. l ++ (x ∷ r)) at ∙ append_assoc w b (x ∷ r)) in
      ap (reply (hear w ∷ (es ++ fs))) at
      ∙ reply-hear w b (es ++ fs)
      ∙ reply-append-Short es fs b (x, r, left)
      ∙ sym (reply-hear w b es)
      ∙ sym (ap (reply (hear w ∷ es)) at)
]

-- The state of a program is a line, and more.
module _ {S F : Type 0} (at : F → Line → S) where
  -- It waits, or gives up waiting, with the line as given.
  abbrev pub Stops : {A : Type 0} → Outcome S A → Line → Type 0
  Stops o l = (f : F) × ((o ≡ running (at f l)) ⊎ (o ≡ halted (at f l)))

  -- On all that the script hears the program ends with the result, and on less it has said what the
  -- script says by then, and stops for more.
  pub record Talks {A : Type 0} (p : Prog S A) (f f' : F) (es : List Event) (v : A) : Type 0 where
    pub full :
        (more t : List ℕ)
        → p (at f (record { rx = input es ++ more; tx = t }))
          ≡ done v (at f' (record { rx = more; tx = t ++ output es }))
    pub part :
        (a t : List ℕ)
        → Short a (input es)
        → Stops (p (at f (record { rx = a; tx = t }))) (record { rx = []; tx = t ++ reply es a })

  Stops-and_then :
      {A B : Type 0} (o : Outcome S A) (k : A → Prog S B) (l : Line)
      → Stops o l
      → Stops (and_then o k) l
  Stops-and_then o k l (f, inl e) = (f, inl (ap (λ u. and_then u k) e))
  Stops-and_then o k l (f, inr e) = (f, inr (ap (λ u. and_then u k) e))

  pub Talks-bind :
      {A B : Type 0} (p : Prog S A) (k : A → Prog S B) {f g h : F} {es fs : List Event} {v : A}
      {u : B}
      → Talks p f g es v
      → Talks (k v) g h fs u
      → Talks (p >>= k) f h (es ++ fs) u
  Talks-bind p k {f = f} {g = g} {h = h} {es = es} {fs = fs} {v = v} {u = u} x y = record {
    full = λ more t.
        ap (λ w. and_then (p (at f (record { rx = w; tx = t }))) k)
          (ap (λ w. w ++ more) (input-append es fs) ∙ append_assoc (input es) (input fs) more)
        ∙ ap (λ o. and_then o k) (x.full (input fs ++ more) t)
        ∙ y.full more (t ++ output es)
        ∙ ap (λ w. done u (at h (record { rx = more; tx = w })))
            (append_assoc t (output es) (output fs) ∙ ap (λ w. t ++ w) (sym (output-append es fs)));
    part = λ a t (z, r, e).
        elim (Short-split (input es) (input fs) a (z, r, sym (input-append es fs) ∙ e)) [
          | inl short ↦
              rw (reply-append-Short es fs a short)
                (Stops-and_then (p (at f (record { rx = a; tx = t }))) k _ (x.part a t short))
          | inr (b, here, short) ↦
              rw
                (
                  here,
                  x.full b t,
                  reply-append_full es fs b,
                  ← append_assoc t (output es) (reply fs b),
                )
                (y.part b (t ++ output es) short)
        ];
  }

  pub Talks-pure : {A : Type 0} (f : F) (v : A) → Talks (pure v) f f [] v
  Talks-pure f v = record {
    full = λ more t. ap (λ w. done v (at f (record { rx = more; tx = w }))) (sym (append-nil t));
    part = λ a t (x, r, e). absurd (Short-nil a (x, r, e));
  }

  pub Talks-then :
      {B : Type 0} (p : Prog S (Unit {0})) (q : Prog S B) {f g h : F} {es fs : List Event} {u : B}
      → Talks p f g es tt
      → Talks q g h fs u
      → Talks (p >> q) f h (es ++ fs) u
  Talks-then p q x y = Talks-bind p (λ _. q) x y

  pub Talks-same :
      {A : Type 0} {p q : Prog S A} {f g : F} {es : List Event} {v : A}
      → ((s : S) → p s ≡ q s)
      → Talks q f g es v
      → Talks p f g es v
  Talks-same same x = record {
    full = λ more t. same _ ∙ x.full more t;
    part = λ a t short. rw (same (at _ (record { rx = a; tx = t }))) (x.part a t short);
  }

  pub Talks-script :
      {A : Type 0} {p : Prog S A} {f g : F} {es fs : List Event} {v : A}
      → es ≡ fs
      → Talks p f g es v
      → Talks p f g fs v
  Talks-script {p = p} {f = f} {g = g} {v = v} e x = subst (λ l. Talks p f g l v) e x

  pub Talks-modify :
      (f : F) (o : List ℕ) (m : S → S)
      → ((l : Line) → m (at f l) ≡ at f (send o l))
      → Talks (modify m) f f (say o ∷ []) tt
  Talks-modify f o m same = record {
    full = λ more t.
        ap (done tt) (same (record { rx = more; tx = t }))
        ∙ ap (λ w. done tt (at f (record { rx = more; tx = t ++ w }))) (sym (append-nil o));
    part = λ a t short. absurd (Short-nil a short);
  }

  -- A program that hears one word at once, and says nothing.
  pub Talks-hear :
      {A : Type 0} (p : Prog S A) (f : F) (w : List ℕ) (v : A)
      → ((more t : List ℕ)
          → p (at f (record { rx = w ++ more; tx = t }))
            ≡ done v (at f (record { rx = more; tx = t })))
      → ((a t : List ℕ)
          → Short a w
          → Stops (p (at f (record { rx = a; tx = t }))) (record { rx = []; tx = t }))
      → Talks p f f (hear w ∷ []) v
  Talks-hear p f w v whole some_of = record {
    full = λ more t.
        ap (λ u. p (at f (record { rx = u; tx = t }))) (ap (λ u. u ++ more) (append-nil w))
        ∙ whole more t
        ∙ ap (λ u. done v (at f (record { rx = more; tx = u }))) (sym (append-nil t));
    part = λ a t (x, r, e).
        let short : w ≡ a ++ (x ∷ r) = sym (append-nil w) ∙ e in
        rw (reply-wait w a x r [] short, append-nil) (some_of a t (x, r, short));
  }
