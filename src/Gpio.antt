-- ===== src/Gpio.antt =====
-- The pins of pi-src/gpio.c. `x & ~(7 << i)` and `| f << i` are written by `/`, `%` and `*` on the three
-- bits of a field. What is stored in `set` and `clr` is kept as it is stored.
pub mod Fields
mod Examples
use rpi0_naivegfs.Base.{
  ℕ, ◌+◌, ◌*◌, ◌/◌, ◌%◌, ◌^◌, Bool, ◌&&◌, ◌==◌, if◌then◌else◌, ltb, leb, minus_one,
}
use rpi0_naivegfs.Fat32.State.{update}

-- The registers of `struct gpios` that the functions use.
pub record Gpios : Type 0 where
  pub fsel : ℕ → ℕ
  pub set : ℕ → ℕ
  pub clr : ℕ → ℕ
  pub lev : ℕ → ℕ

-- The field of width 3 at bit i, and a word with that field cleared and then or-ed with f.
unfoldable pub field_of : ℕ → ℕ → ℕ
field_of i w = (w / 2 ^ i) % 8

unfoldable pub put_field : ℕ → ℕ → ℕ → ℕ
put_field i f w = w / 2 ^ (i + 3) * 2 ^ (i + 3) + f * 2 ^ i + w % 2 ^ i

unfoldable pub gpio_set_function : ℕ → ℕ → Gpios → Gpios
gpio_set_function pin function s =
    if leb pin 53 && leb function 7
    then record s {
      fsel = update s.fsel (pin / 10) (put_field (pin % 10 * 3) function (s.fsel (pin / 10)));
    }
    else s

unfoldable pub gpio_get_function : ℕ → Gpios → ℕ
gpio_get_function pin s =
    if ltb 53 pin then minus_one else field_of (pin % 10 * 3) (s.fsel (pin / 10))

abbrev pub gpio_set_input : ℕ → Gpios → Gpios
gpio_set_input pin = gpio_set_function pin 0

abbrev pub gpio_set_output : ℕ → Gpios → Gpios
gpio_set_output pin = gpio_set_function pin 1

unfoldable pub gpio_write : ℕ → ℕ → Gpios → Gpios
gpio_write pin value s =
    if leb pin 53 && leb value 1
    then (if value == 0
        then record s { clr = update s.clr (pin / 32) (2 ^ (pin % 32)) }
        else record s { set = update s.set (pin / 32) (2 ^ (pin % 32)) })
    else s

unfoldable pub gpio_read : ℕ → Gpios → ℕ
gpio_read pin s = if ltb 53 pin then minus_one else (s.lev (pin / 32) / 2 ^ (pin % 32)) % 2

abbrev pub gpio_set_on : ℕ → Gpios → Gpios
gpio_set_on pin = gpio_write pin 1

abbrev pub gpio_set_off : ℕ → Gpios → Gpios
gpio_set_off pin = gpio_write pin 0
