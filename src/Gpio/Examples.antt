-- ===== src/Gpio/Examples.antt =====
-- The theorem on the functions of pins at one pin.
use rpi0_naivegfs.Base.{ℕ, ◌≡◌, ◌≢◌, arith}
use rpi0_naivegfs.Gpio.{Gpios, gpio_set_function, gpio_get_function}
use rpi0_naivegfs.Gpio.Fields.{gpio_get_function-gpio_set_function}

abbrev some_gpios : Gpios
some_gpios = record { fsel = λ i. 0xffff_ffff; set = λ i. 0; clr = λ i. 0; lev = λ i. 0 }

gpio_get_function-gpio_set_function_example :
    (gpio_get_function 47 (gpio_set_function 47 1 some_gpios) ≡ 1)
    × ((q : ℕ)
        → q ≢ 47
        → gpio_get_function q (gpio_set_function 47 1 some_gpios) ≡ gpio_get_function q some_gpios)
gpio_get_function-gpio_set_function_example =
    gpio_get_function-gpio_set_function 47 1 some_gpios (omega arith) (omega arith)
