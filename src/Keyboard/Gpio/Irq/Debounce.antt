-- ===== src/Keyboard/Gpio/Irq/Debounce.antt =====
-- Interrupts and timers interleaved: a button has at most one timer running, and no interrupt is
-- handled while it runs.
use cmidid_kerneldriver.Base.{
  ℕ, Bool, true, false, List, Option, none, some, ◌+◌, ◌-◌, ◌<◌, ◌≡◌, refl, sym, ◌∙◌, arith, ◌==◌,
  ◌&&◌, get_elem?, set, if◌then◌else◌, get_elem?-set, lt-length, Option-cases, inl, inr,
}
use cmidid_kerneldriver.Keyboard.Kernel.{Button, start_button, end_button, NoteEvent}
use cmidid_kerneldriver.Keyboard.Midi.{MidiState}
use cmidid_kerneldriver.Keyboard.Gpio.State.{Key, GpioState, PerButton, at, put}
use cmidid_kerneldriver.Keyboard.Gpio.Buttons.{Handled, handle_button_event, button_event, strike}
use cmidid_kerneldriver.Keyboard.Gpio.Irq.{
  Place, get_key_from_irq, of_key, press, timer_irq, irq_handler, to_int,
}
use cmidid_kerneldriver.Keyboard.Gpio.Irq.Lookup.{get_key_from_timer_lem}

-- The flag `timer_started` of a place; false outside the array.
abbrev pub started_in : Option Key → Button → Bool
started_in none b = false
started_in (some k) b = at k.timer_started b

abbrev pub started : GpioState → ℕ → Button → Bool
started g i b = started_in (get_elem? g.keys i) b

-- The component and the timers that run: how many, at each place.
pub record Board : Type 0 where
  pub gpio : GpioState
  pub running : ℕ → Button → ℕ

abbrev pub same_button : Button → Button → Bool
same_button start_button start_button = true
same_button start_button end_button = false
same_button end_button start_button = false
same_button end_button end_button = true

abbrev pub update : (ℕ → Button → ℕ) → ℕ → Button → ℕ → ℕ → Button → ℕ
update f i b v j c = if i == j && same_button b c then v else f j c

abbrev pub start_timer : (ℕ → Button → ℕ) → Option Place → ℕ → Button → ℕ
start_timer f none = f
start_timer f (some (i, b)) = update f i b (f i b + 1)

-- An interrupt arrives, or a running timer fires.
pub data Step (value_of : ℕ → ℕ) (midi : MidiState) (s : Board) : Board → Type 0 where
  interrupt :
      (irq : ℕ) {g : GpioState} {t : Option Place}
      → irq_handler s.gpio irq ≡ some (g, t)
      → Step value_of midi s (record { gpio = g; running = start_timer s.running t })
  fire :
      (i : ℕ) (b : Button) (now : ℕ) {g : GpioState} {es : List NoteEvent}
      → 0 < s.running i b
      → timer_irq value_of midi now s.gpio (of_key i b) ≡ some (g, es)
      → Step value_of midi s
          (record { gpio = g; running = update s.running i b (s.running i b - 1) })

pub data Reach (value_of : ℕ → ℕ) (midi : MidiState) (s : Board) : Board → Type 0 where
  here : Reach value_of midi s s
  next : {t u : Board} → Reach value_of midi s t → Step value_of midi t u → Reach value_of midi s u

-- A timer runs at a place exactly if its flag is set, and then only one.
abbrev pub IsDebounced : Board → Type 0
IsDebounced s = (i : ℕ) (b : Button) → s.running i b ≡ to_int (started s.gpio i b)

-- `handle_button_event` leaves the flags of a key alone.
handle_button_event-timer_started :
    (midi : MidiState) (now : ℕ) (g : GpioState) (k : Key) (b : Button) (active : Bool)
    {r : Handled}
    → handle_button_event midi now g k b active ≡ some r
    → (r.key.timer_started ≡ k.timer_started) × (r.gpio.keys ≡ g.keys)
unfolding handle_button_event button_event strike
handle_button_event-timer_started midi now g k b active h = ground arith

at-put :
    {A : Type 0} (p : PerButton A) (b c : Button) (v : A)
    → at (put p b v) c ≡ (if same_button b c then v else at p c)
at-put p start_button start_button v = refl
at-put p start_button end_button v = refl
at-put p end_button start_button v = refl
at-put p end_button end_button v = refl

-- The flags after a key has been replaced by one that differs in one flag.
started-set :
    (ks : List Key) (i j : ℕ) (b c : Button) (k k' : Key) (v : Bool)
    → get_elem? ks i ≡ some k
    → k'.timer_started ≡ put k.timer_started b v
    → started_in (get_elem? (set ks i k') j) c
      ≡ (if i == j && same_button b c then v else started_in (get_elem? ks j) c)
started-set ks i j b c k k' v e f =
    rw (get_elem?-set ks i j k' k e) (ground (arith, at-put k.timer_started b c v))

irq_handler-started :
    (g : GpioState) (irq : ℕ) {g' : GpioState} {t : Option Place}
    → irq_handler g irq ≡ some (g', t)
    → (f : ℕ → Button → ℕ) → ((j : ℕ) (c : Button) → f j c ≡ to_int (started g j c))
    → (j : ℕ) (c : Button) → start_timer f t j c ≡ to_int (started g' j c)
unfolding irq_handler
irq_handler-started g irq h f same j c = elim (Option-cases (get_key_from_irq g irq)) [
  | inl e ↦ ground arith
  | inr ((i, b), e) ↦ elim (Option-cases (get_elem? g.keys i)) [
    | inl e' ↦ ground arith
    | inr (k, e') ↦ ground (
      arith,
      same j c,
      same i b,
      started-set g.keys i j b c k (record k { timer_started = put k.timer_started b true }) true e'
          refl,
    )
  ]
]

-- The timer of a key of the array passes the level of its GPIO on, with the flag cleared.
timer_irq-press :
    (value_of : ℕ → ℕ) (midi : MidiState) (now : ℕ) (g : GpioState) (i : ℕ) (b : Button) (k : Key)
    → get_elem? g.keys i ≡ some k
    → timer_irq value_of midi now g (of_key i b)
      ≡ press midi now g i
          (record k { timer_started = put k.timer_started b false })
          b
          (to_int (at g.button_active_high b) == value_of (at k.gpios b))
unfolding timer_irq
timer_irq-press value_of midi now g i b k e =
    ground (arith, (get_key_from_timer_lem g i b).0 (lt-length g.keys i k e))

timer_irq-started :
    (value_of : ℕ → ℕ) (midi : MidiState) (now : ℕ) (g : GpioState) (i : ℕ) (b : Button) (k : Key)
    {g' : GpioState} {es : List NoteEvent}
    → get_elem? g.keys i ≡ some k
    → timer_irq value_of midi now g (of_key i b) ≡ some (g', es)
    → (j : ℕ) (c : Button)
    → started g' j c ≡ (if i == j && same_button b c then false else started g j c)
unfolding press
timer_irq-started value_of midi now g i b k {g'} {es} e h j c =
    let k' = record k { timer_started = put k.timer_started b false } in
    let active = to_int (at g.button_active_high b) == value_of (at k.gpios b) in
    let pressed : press midi now g i k' b active ≡ some (g', es) =
      sym (timer_irq-press value_of midi now g i b k e) ∙ h in
    elim (Option-cases (handle_button_event midi now g k' b active)) [
      | inl f ↦ ground arith
      | inr (r, f) ↦
          let (flags, same) = handle_button_event-timer_started midi now g k' b active f in
          let after : g'.keys ≡ set g.keys i r.key = ground arith in
          rw after (started-set g.keys i j b c k r.key false e flags)
    ]

Step-IsDebounced :
    (value_of : ℕ → ℕ) (midi : MidiState) {s t : Board}
    → Step value_of midi s t
    → IsDebounced s
    → IsDebounced t
Step-IsDebounced value_of midi {s} (interrupt irq h) inv i b =
    irq_handler-started s.gpio irq h s.running inv i b
Step-IsDebounced value_of midi {s} (fire j c now up h) inv i b =
    elim (Option-cases (get_elem? s.gpio.keys j)) [
      | inl e ↦ ground (arith, inv j c)
      | inr (k, e) ↦
          ground (arith, inv i b, inv j c, timer_irq-started value_of midi now s.gpio j c k e h i b)
    ]

-- From a board whose flags match its timers, with interrupts and timers in any order: at each button
-- the number of running timers is 1 if the flag is set, and 0 if not.
pub Reach-IsDebounced :
    (value_of : ℕ → ℕ) (midi : MidiState) {s t : Board}
    → IsDebounced s
    → Reach value_of midi s t
    → IsDebounced t
Reach-IsDebounced value_of midi inv here = inv
Reach-IsDebounced value_of midi inv (next r st) =
    Step-IsDebounced value_of midi st (Reach-IsDebounced value_of midi inv r)
