-- ===== src/Gpio/Fields.antt =====
-- `gpio_set_function` and `gpio_get_function` on one pin and on another.
use rpi0_naivegfs.Base.{
  ℕ, zero, suc, ◌+◌, ◌*◌, ◌/◌, ◌%◌, ◌≤◌, ◌<◌, ◌≡◌, ◌≢◌, refl, ap, ◌∙◌, sym, inl, inr, Bool-cases,
  ◌==◌, ltb, arith, ==_self, ==→eq, le→leb, le→not_ltb,
}
use rpi0_naivegfs.Gpio.{Gpios, field_of, put_field, gpio_set_function, gpio_get_function}

-- A field is the first one of the word without the fields below it.
field_of-suc : (d w : ℕ) → d < 9 → field_of (suc d * 3) w ≡ field_of (d * 3) (w / 8)
unfolding field_of
field_of-suc zero w h = omega arith
field_of-suc (suc zero) w h = omega arith
field_of-suc (suc (suc zero)) w h = omega arith
field_of-suc (suc (suc (suc zero))) w h = omega arith
field_of-suc (suc (suc (suc (suc zero)))) w h = omega arith
field_of-suc (suc (suc (suc (suc (suc zero))))) w h = omega arith
field_of-suc (suc (suc (suc (suc (suc (suc zero)))))) w h = omega arith
field_of-suc (suc (suc (suc (suc (suc (suc (suc zero))))))) w h = omega arith
field_of-suc (suc (suc (suc (suc (suc (suc (suc (suc zero)))))))) w h = omega arith
field_of-suc (suc (suc (suc (suc (suc (suc (suc (suc (suc d))))))))) w h = absurd (omega arith)

put_field-suc :
    (d f w : ℕ) → d < 9 → put_field (suc d * 3) f w ≡ put_field (d * 3) f (w / 8) * 8 + w % 8
unfolding put_field
put_field-suc zero f w h = omega arith
put_field-suc (suc zero) f w h = omega arith
put_field-suc (suc (suc zero)) f w h = omega arith
put_field-suc (suc (suc (suc zero))) f w h = omega arith
put_field-suc (suc (suc (suc (suc zero)))) f w h = omega arith
put_field-suc (suc (suc (suc (suc (suc zero))))) f w h = omega arith
put_field-suc (suc (suc (suc (suc (suc (suc zero)))))) f w h = omega arith
put_field-suc (suc (suc (suc (suc (suc (suc (suc zero))))))) f w h = omega arith
put_field-suc (suc (suc (suc (suc (suc (suc (suc (suc zero)))))))) f w h = omega arith
put_field-suc (suc (suc (suc (suc (suc (suc (suc (suc (suc d))))))))) f w h = absurd (omega arith)

-- Above the lowest field.
above : (u w : ℕ) → (u * 8 + w % 8) / 8 ≡ u
above u w = omega arith

field_of-put_field-suc :
    (d e f w : ℕ)
    → d < 9
    → e < 9
    → field_of (suc e * 3) (put_field (suc d * 3) f w)
      ≡ field_of (e * 3) (put_field (d * 3) f (w / 8))
field_of-put_field-suc d e f w hd he =
    ap (field_of (suc e * 3)) (put_field-suc d f w hd)
    ∙ field_of-suc e (put_field (d * 3) f (w / 8) * 8 + w % 8) he
    ∙ ap (field_of (e * 3)) (above (put_field (d * 3) f (w / 8)) w)

field_of-put_field : (d f w : ℕ) → d < 10 → f ≤ 7 → field_of (d * 3) (put_field (d * 3) f w) ≡ f
unfolding field_of put_field
field_of-put_field zero f w hd hf = omega arith
field_of-put_field (suc d) f w hd hf =
    field_of-put_field-suc d d f w (omega arith) (omega arith)
    ∙ field_of-put_field d f (w / 8) (omega arith) hf

field_of-put_field_other :
    (d e f w : ℕ)
    → d < 10
    → e < 10
    → f ≤ 7
    → e ≢ d
    → field_of (e * 3) (put_field (d * 3) f w) ≡ field_of (e * 3) w
field_of-put_field_other zero zero f w hd he hf ne = absurd (ne refl)
field_of-put_field_other zero (suc e) f w hd he hf ne =
    let same : put_field 0 f w / 8 ≡ w / 8 = unfold put_field in omega arith in
    field_of-suc e (put_field 0 f w) (omega arith)
    ∙ ap (field_of (e * 3)) same
    ∙ sym (field_of-suc e w (omega arith))
field_of-put_field_other (suc d) zero f w hd he hf ne =
    ap (field_of 0) (put_field-suc d f w (omega arith)) ∙ unfold field_of in omega arith
field_of-put_field_other (suc d) (suc e) f w hd he hf ne =
    field_of-put_field-suc d e f w (omega arith) (omega arith)
    ∙ field_of-put_field_other d e f (w / 8) (omega arith) (omega arith) hf (λ h. ne (ap suc h))
    ∙ sym (field_of-suc e w (omega arith))

-- The function that `gpio_set_function` gives to a pin up to 53 is the one that `gpio_get_function`
-- returns for it, and for every other pin it returns what it did before.
pub gpio_get_function-gpio_set_function :
    (pin function : ℕ) (s : Gpios)
    → pin ≤ 53
    → function ≤ 7
    → (gpio_get_function pin (gpio_set_function pin function s) ≡ function)
      × ((q : ℕ)
          → q ≢ pin
          → gpio_get_function q (gpio_set_function pin function s) ≡ gpio_get_function q s)
unfolding gpio_get_function gpio_set_function
gpio_get_function-gpio_set_function pin function s hp hf = (
  rw (
    le→leb pin 53 hp,
    le→leb function 7 hf,
    le→not_ltb 53 pin hp,
    ==_self (pin / 10),
    field_of-put_field (pin % 10) function (s.fsel (pin / 10)) (omega arith) hf,
  ),
  λ q ne. elim (Bool-cases (ltb 53 q)) [
    | inl far ↦ rw (far)
    | inr near ↦
        rw (near, le→leb pin 53 hp, le→leb function 7 hf)
          (elim (Bool-cases (q / 10 == pin / 10)) [
            | inl same ↦
                let at : q / 10 ≡ pin / 10 = ==→eq (q / 10) (pin / 10) same in
                rw (same, at)
                  (field_of-put_field_other (pin % 10) (q % 10) function (s.fsel (pin / 10))
                    (omega arith) (omega arith) hf (λ h. ne (omega arith)))
            | inr other ↦ rw other
          ])
  ],
)
