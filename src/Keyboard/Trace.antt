-- ===== src/Keyboard/Trace.antt =====
-- What a trace of calls takes from the kernel and gives back, counted.
use cmidid_kerneldriver.Base.{
  ℕ, Bool, true, false, List, [], ◌∷◌, ◌++◌, ◌+◌, ◌==◌, ◌≡◌, arith, if◌then◌else◌,
}
use cmidid_kerneldriver.Base.Int.{is_negative}
use cmidid_kerneldriver.Keyboard.Kernel.{
  Call, alloc_chrdev_region, cdev_alloc, class_create, device_create, device_destroy, class_destroy,
  cdev_del, kobject_put, unregister_chrdev_region, snd_card_create, snd_card_free, kzalloc_keys,
  kfree_keys, gpio_request_array, gpio_free_array, request_irq, free_irq,
}

-- One for a match, in counts.
abbrev pub one_if : Bool → ℕ
one_if true = 1
one_if false = 0

-- The successful requests of a GPIO, an interrupt or the array in a call, and their releases.
abbrev pub takes_gpio : ℕ → Call → ℕ
takes_gpio g (gpio_request_array a b code) =
    if is_negative code then 0 else one_if (a == g) + one_if (b == g)
takes_gpio g _ = 0

abbrev pub frees_gpio : ℕ → Call → ℕ
frees_gpio g (gpio_free_array a b) = one_if (a == g) + one_if (b == g)
frees_gpio g _ = 0

abbrev pub takes_irq : ℕ → Call → ℕ
takes_irq i (request_irq irq code) = if is_negative code then 0 else one_if (irq == i)
takes_irq i _ = 0

abbrev pub frees_irq : ℕ → Call → ℕ
frees_irq i (free_irq irq) = one_if (irq == i)
frees_irq i _ = 0

abbrev pub takes_keys : Call → ℕ
takes_keys (kzalloc_keys n true) = 1
takes_keys _ = 0

abbrev pub frees_keys : Call → ℕ
frees_keys kfree_keys = 1
frees_keys _ = 0

abbrev pub takes_region : Call → ℕ
takes_region (alloc_chrdev_region code) = if is_negative code then 0 else 1
takes_region _ = 0

abbrev pub frees_region : Call → ℕ
frees_region unregister_chrdev_region = 1
frees_region _ = 0

-- The references to the character device: `cdev_alloc` makes one, `cdev_del` and `kobject_put` each
-- drop one.
abbrev pub takes_cdev : Call → ℕ
takes_cdev (cdev_alloc true) = 1
takes_cdev _ = 0

abbrev pub frees_cdev : Call → ℕ
frees_cdev cdev_del = 1
frees_cdev kobject_put = 1
frees_cdev _ = 0

abbrev pub takes_class : Call → ℕ
takes_class class_create = 1
takes_class device_create = 1
takes_class _ = 0

abbrev pub frees_class : Call → ℕ
frees_class device_destroy = 1
frees_class class_destroy = 1
frees_class _ = 0

abbrev pub takes_card : Call → ℕ
takes_card (snd_card_create code) = if is_negative code then 0 else 1
takes_card _ = 0

abbrev pub frees_card : Call → ℕ
frees_card (snd_card_free card) = 1
frees_card _ = 0

-- What the module itself holds: the device number, references to the character device, and the
-- class with its device.
pub data Resource : Type 0 where
  region cdev class : Resource

abbrev pub takes : Resource → Call → ℕ
takes region = takes_region
takes cdev = takes_cdev
takes class = takes_class

abbrev pub frees : Resource → Call → ℕ
frees region = frees_region
frees cdev = frees_cdev
frees class = frees_class

abbrev pub total : (Call → ℕ) → List Call → ℕ
total f [] = 0
total f (c ∷ cs) = f c + total f cs

pub total-append : (f : Call → ℕ) (xs ys : List Call) → total f (xs ++ ys) ≡ total f xs + total f ys
total-append f [] ys = omega arith
total-append f (c ∷ xs) ys = omega (arith, total-append f xs ys)

pub total-snoc :
    (f : Call → ℕ) (xs : List Call) (c : Call) → f c ≡ 0 → total f (xs ++ c ∷ []) ≡ total f xs
total-snoc f xs c e = rw total-append (omega (arith, e))
