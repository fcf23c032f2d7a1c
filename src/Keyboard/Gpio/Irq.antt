-- ===== src/Keyboard/Gpio/Irq.antt =====
-- The interrupt side of module/cmidid_gpio.c: `get_key_from_irq`, `get_key_from_timer`, `timer_irq`
-- and `irq_handler`. A `struct key *` into the array is its index; `none` is a fault.
pub mod Lookup
pub mod Debounce
use cmidid_kerneldriver.Base.{
  ℕ, zero, suc, Bool, true, false, List, [], ◌∷◌, Option, none, some, ◌+◌, ◌==◌, ◌&&◌, get_elem?,
  set, if◌then◌else◌,
}
use cmidid_kerneldriver.Keyboard.Kernel.{Button, start_button, end_button, NoteEvent}
use cmidid_kerneldriver.Keyboard.Midi.{MidiState}
use cmidid_kerneldriver.Keyboard.Gpio.State.{Key, GpioState, PerButton, at, put}
use cmidid_kerneldriver.Keyboard.Gpio.Buttons.{Handled, handle_button_event}

-- A key's index with one of its buttons.
abbrev pub Place : Type 0
Place = ℕ × Button

-- The loop of `get_key_from_irq` from index `i` on; `none` is its -1.
unfoldable pub find_irq : ℕ → List Key → ℕ → Option Place
find_irq i [] irq = none
find_irq i (k ∷ ks) irq =
    let rest = find_irq (suc i) ks irq in
    if k.irqs.start == irq
    then some (i, start_button)
    else if k.irqs.last == irq
    then some (i, end_button)
    else rest

unfoldable pub get_key_from_irq : GpioState → ℕ → Option Place
unfolding find_irq
get_key_from_irq g irq = find_irq 0 g.keys irq

-- The address of an hrtimer: that of a button of a key, or another.
pub data Timer : Type 0 where
  of_key : ℕ → Button → Timer
  foreign : Timer

abbrev pub is_timer : ℕ → Button → Timer → Bool
is_timer i b foreign = false
is_timer i start_button (of_key j start_button) = i == j
is_timer i start_button (of_key j end_button) = false
is_timer i end_button (of_key j start_button) = false
is_timer i end_button (of_key j end_button) = i == j

-- The loop of `get_key_from_timer`; `none` is its NULL.
unfoldable pub find_timer : ℕ → List Key → Timer → Option Place
find_timer i [] timer = none
find_timer i (k ∷ ks) timer =
    let rest = find_timer (suc i) ks timer in
    if is_timer i start_button timer
    then some (i, start_button)
    else if is_timer i end_button timer
    then some (i, end_button)
    else rest

unfoldable pub get_key_from_timer : GpioState → Timer → Option Place
unfolding find_timer
get_key_from_timer g timer = find_timer 0 g.keys timer

abbrev pub to_int : Bool → ℕ
to_int true = 1
to_int false = 0

-- The call of `handle_button_event` in `timer_irq`, whose result is stored in the array.
unfoldable pub press :
    MidiState → ℕ → GpioState → ℕ → Key → Button → Bool → Option (GpioState × List NoteEvent)
press midi now g i k b active = elim (handle_button_event midi now g k b active) [
  | none ↦ none
  | some r ↦ some (record (r.gpio) { keys = set r.gpio.keys i r.key }, r.events)
]

-- `timer_irq`: `gpio_get_value` is the parameter `value_of`, and `!(a ^ b)` on integers is their
-- equality.
unfoldable pub timer_irq :
    (ℕ → ℕ) → MidiState → ℕ → GpioState → Timer → Option (GpioState × List NoteEvent)
timer_irq value_of midi now g timer = elim (get_key_from_timer g timer) [
  | none ↦ some (g, [])
  | some (i, b) ↦ elim (get_elem? g.keys i) [
    | none ↦ none
    | some k ↦
        let active = to_int (at g.button_active_high b) == value_of (at k.gpios b) in
        press midi now g i (record k { timer_started = put k.timer_started b false }) b active
  ]
]

-- `irq_handler`: the new state and the timer that it starts. It reads the GPIO numbers of the key
-- before its test for NULL, so an unknown interrupt is a fault.
unfoldable pub irq_handler : GpioState → ℕ → Option (GpioState × Option Place)
irq_handler g irq = elim (get_key_from_irq g irq) [
  | none ↦ none
  | some (i, b) ↦ elim (get_elem? g.keys i) [
    | none ↦ none
    | some k ↦
        if at k.timer_started b
        then some (g, none)
        else some (
          record g {
            keys = set g.keys i (record k { timer_started = put k.timer_started b true });
          },
          some (i, b),
        )
  ]
]
