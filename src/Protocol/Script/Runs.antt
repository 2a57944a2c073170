-- ===== src/Protocol/Script/Runs.antt =====
-- Two sides whose bytes arrive one by one, in any order.
use mathlib.Core.List.{append_assoc, append-nil}
use rpi0_naivegfs.Base.{
  ℕ, zero, suc, ◌+◌, ◌≤◌, length, arith, ◌≡◌, ◌⊎◌, inl, inr, refl, sym, ap, ◌∙◌, Option, none, some,
  List, [], ◌∷◌, ◌++◌, Prog, Outcome, done, halted, running,
}
use rpi0_naivegfs.Protocol.Line.{Line}
use rpi0_naivegfs.Protocol.Script.{
  Event, hear, strip, reply, input, output, dual, Prefix, Short, heard, Prefix-split, reply-Prefix,
  output-dual, dual_progress,
}
use rpi0_naivegfs.Protocol.Script.Parts.{Prefix-length, length_behind}
use rpi0_naivegfs.Protocol.Script.Talks.{Stops, Talks, reply-append_full, reply-append-Short}

-- The state that a program has come to.
abbrev pub state_of : {S A : Type 0} → Outcome S A → S
state_of (done v s) = s
state_of (halted s) = s
state_of (running s) = s

-- What each side has sent, given what has arrived there.
module _ (pi_sent mac_sent : List ℕ → List ℕ) where
  -- From what has arrived at the pi and at the mac to what has arrived later: at each step the next
  -- byte of what one side has sent arrives at the other.
  pub data Steps (a0 b0 : List ℕ) : List ℕ → List ℕ → Type 0 where
    start : Steps a0 b0 a0 b0
    to_pi :
        {a b : List ℕ}
        → Steps a0 b0 a b
        → (x : ℕ) (r : List ℕ) → mac_sent b ≡ a ++ (x ∷ r)
        → Steps a0 b0 (a ++ (x ∷ [])) b
    to_mac :
        {a b : List ℕ}
        → Steps a0 b0 a b
        → (x : ℕ) (r : List ℕ) → pi_sent a ≡ b ++ (x ∷ r)
        → Steps a0 b0 a (b ++ (x ∷ []))

  -- What can have arrived.
  abbrev pub Reach : List ℕ → List ℕ → Type 0
  Reach a b = Steps [] [] a b

  Steps-trans :
      {a0 b0 a1 b1 : List ℕ} (a b : List ℕ) → Steps a0 b0 a1 b1 → Steps a1 b1 a b → Steps a0 b0 a b
  Steps-trans a b g start = g
  Steps-trans a b g (to_pi {a = c} h x r e) = to_pi (Steps-trans c b g h) x r e
  Steps-trans a b g (to_mac {b = c} h x r e) = to_mac (Steps-trans a c g h) x r e

  -- What is sent of a text arrives as a part of it.
  next_Prefix :
      (a l s : List ℕ) (x : ℕ) (r : List ℕ)
      → Prefix s l
      → s ≡ a ++ (x ∷ r)
      → Prefix (a ++ (x ∷ [])) l
  next_Prefix a l s x r (q, e) e' = (
    r ++ q,
    e ∙ ap (λ u. u ++ q) e' ∙ append_assoc a (x ∷ r) q ∙ sym (append_assoc a (x ∷ []) (r ++ q)),
  )

  module _ (es : List Event)
      (pi_follows : (a : List ℕ) → Prefix a (input es) → pi_sent a ≡ reply es a)
      (mac_follows : (b : List ℕ) → Prefix b (output es) → mac_sent b ≡ reply (dual es) b) where
    pi_next :
        (a b : List ℕ) (x : ℕ) (r : List ℕ)
        → Prefix b (output es)
        → mac_sent b ≡ a ++ (x ∷ r)
        → Prefix (a ++ (x ∷ [])) (input es)
    pi_next a b x r q e =
        next_Prefix a (input es) (mac_sent b) x r
          (rw (mac_follows b q, ← output-dual es) (reply-Prefix (dual es) b)) e

    mac_next :
        (a b : List ℕ) (x : ℕ) (r : List ℕ)
        → Prefix a (input es)
        → pi_sent a ≡ b ++ (x ∷ r)
        → Prefix (b ++ (x ∷ [])) (output es)
    mac_next a b x r p e =
        next_Prefix b (output es) (pi_sent a) x r (rw (pi_follows a p) (reply-Prefix es a)) e

    pub Reach-Prefix : (a b : List ℕ) → Reach a b → Prefix a (input es) × Prefix b (output es)
    Reach-Prefix a b start = ((input es, refl), (output es, refl))
    Reach-Prefix a b (to_pi {a = c} h x r e) =
        let (p, q) = Reach-Prefix c b h in (pi_next c b x r q e, q)
    Reach-Prefix a b (to_mac {b = c} h x r e) =
        let (p, q) = Reach-Prefix a c h in (p, mac_next a c x r p e)

    pub Reach-progress :
        (a b : List ℕ)
        → Prefix a (input es)
        → Prefix b (output es)
        → ((a ≡ input es) × (b ≡ output es)) ⊎ (Short a (mac_sent b) ⊎ Short b (pi_sent a))
    Reach-progress a b p q = rw (mac_follows b q, pi_follows a p) (dual_progress es a b p q)

    -- n bytes are still to arrive at most.
    pub Steps-ends :
        (n : ℕ) (a b : List ℕ)
        → Prefix a (input es)
        → Prefix b (output es)
        → length (input es) + length (output es) ≤ n + (length a + length b)
        → Steps a b (input es) (output es)
    Steps-ends zero a b p q left = elim (Reach-progress a b p q) [
      | inl (ea, eb) ↦ rw (← ea, ← eb) start
      | inr (inl (x, r, e)) ↦ absurd (
          omega (
            arith,
            Prefix-length _ _ (pi_next a b x r q e),
            Prefix-length b _ q,
            length_behind a x,
          ))
      | inr (inr (x, r, e)) ↦ absurd (
          omega (
            arith,
            Prefix-length _ _ (mac_next a b x r p e),
            Prefix-length a _ p,
            length_behind b x,
          ))
    ]
    Steps-ends (suc n) a b p q left = elim (Reach-progress a b p q) [
      | inl (ea, eb) ↦ rw (← ea, ← eb) start
      | inr (inl (x, r, e)) ↦ Steps-trans (input es) (output es) (to_pi start x r e) (
          Steps-ends n (a ++ (x ∷ [])) b (pi_next a b x r q e) q (omega (arith, length_behind a x)))
      | inr (inr (x, r, e)) ↦ Steps-trans (input es) (output es) (to_mac start x r e) (
          Steps-ends n a (b ++ (x ∷ [])) p (mac_next a b x r p e)
            (omega (arith, length_behind b x)))
    ]

heard_silent : (r : Option (List ℕ)) → heard (reply []) r ≡ []
unfolding reply
heard_silent none = refl
heard_silent (some a) = refl

-- At its end a script may hear what it does not answer.
reply_silent : (w a : List ℕ) → reply (hear w ∷ []) a ≡ []
unfolding reply
reply_silent w a = heard_silent (strip w a)

reply-input : (es : List Event) → reply es (input es ++ []) ≡ output es ++ []
unfolding reply
reply-input es =
    ap (λ l. reply l (input es ++ [])) (sym (append-nil es)) ∙ reply-append_full es [] []

-- A side that follows a script has sent what belongs to what has arrived.
module _ {S F : Type 0} (at : F → Line → S) (line : S → Line)
    (line_of : (f : F) (l : Line) → line (at f l) ≡ l) where
  module _ {A : Type 0} (p : Prog S A) (f f' : F) (es : List Event) (v : A)
      (x : Talks at p f f' es v) where
    abbrev pub sent : List ℕ → List ℕ
    sent a = (line (state_of (p (at f (record { rx = a; tx = [] }))))).tx

    sent-Stops : (o : Outcome S A) (l : Line) → Stops at o l → (line (state_of o)).tx ≡ l.tx
    sent-Stops o l (g, inl e) = ap (λ u. (line (state_of u)).tx) e ∙ ap (λ u. u.tx) (line_of g l)
    sent-Stops o l (g, inr e) = ap (λ u. (line (state_of u)).tx) e ∙ ap (λ u. u.tx) (line_of g l)

    pub sent_full : (more : List ℕ) → sent (input es ++ more) ≡ output es
    sent_full more =
        ap (λ u. (line (state_of u)).tx) (x.full more [])
        ∙ ap (λ u. u.tx) (line_of f' (record { rx = more; tx = output es }))

    sent_part : (a : List ℕ) → Short a (input es) → sent a ≡ reply es a
    sent_part a short =
        sent-Stops (p (at f (record { rx = a; tx = [] }))) (record { rx = []; tx = reply es a })
          (x.part a [] short)

    -- With what the other side sends behind what the script hears.
    pub sent-reply :
        (w a : List ℕ) → Prefix a (input es ++ w) → sent a ≡ reply (es ++ (hear w ∷ [])) a
    sent-reply w a h = elim (Prefix-split (input es) w a h) [
      | inl short ↦ sent_part a short ∙ sym (reply-append-Short es (hear w ∷ []) a short)
      | inr (b, e, q) ↦
          ap sent e
          ∙ sent_full b
          ∙ sym (append-nil (output es))
          ∙ ap (λ l. output es ++ l) (sym (reply_silent w b))
          ∙ sym (reply-append_full es (hear w ∷ []) b)
          ∙ sym (ap (reply (es ++ (hear w ∷ []))) e)
    ]

    -- When it hears all that the other side sends.
    pub sent-reply_all : (a : List ℕ) → Prefix a (input es) → sent a ≡ reply es a
    sent-reply_all a ([], e) =
        let here : a ≡ input es = sym (append-nil a) ∙ sym e in
        ap sent (here ∙ sym (append-nil (input es)))
        ∙ sent_full []
        ∙ sym (append-nil (output es))
        ∙ sym (reply-input es)
        ∙ ap (reply es) (append-nil (input es) ∙ sym here)
    sent-reply_all a (y ∷ r, e) = sent_part a (y, r, e)
