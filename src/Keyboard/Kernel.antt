-- ===== src/Keyboard/Kernel.antt =====
-- What the keyboard driver asks of the kernel: a trace of calls, and results that carry the error
-- codes of module/. What a call answers is a parameter of the code that makes it.
use cmidid_kerneldriver.Base.{ℕ, Bool, Option, ℤ, negsuc}

-- The two buttons of a key, START_BUTTON and END_BUTTON.
pub data Button : Type 0 where
  start_button end_button : Button

-- SNDRV_SEQ_EVENT_NOTEON and SNDRV_SEQ_EVENT_NOTEOFF.
pub data NoteKind : Type 0 where
  note_on note_off : NoteKind

-- The fields of `struct snd_seq_event` that do not hold one of ALSA's constants.
pub record NoteEvent : Type 0 where
  pub kind : NoteKind
  pub note : ℕ
  pub channel : ℕ
  pub velocity : ℕ
  pub duration : ℕ
  pub off_velocity : ℕ
  pub dest_port : ℕ
  pub source_client : ℤ
  pub source_port : ℕ

-- A call, with its arguments and, where the code reads it, what it answered.
pub data Call : Type 0 where
  alloc_chrdev_region : ℤ → Call
  cdev_alloc : Bool → Call
  cdev_add : Bool → Call
  class_create device_create : Call
  device_destroy class_destroy cdev_del kobject_put unregister_chrdev_region : Call
  snd_card_create : ℤ → Call
  snd_seq_create_kernel_client : Option ℕ → ℤ → Call
  snd_seq_kernel_client_ctl : ℤ → ℤ → Call
  snd_seq_delete_kernel_client : ℤ → Call
  snd_card_free : Option ℕ → Call
  kzalloc_keys : ℕ → Bool → Call
  kfree_keys : Call
  gpio_request_array : ℕ → ℕ → ℤ → Call
  gpio_free_array : ℕ → ℕ → Call
  hrtimer_init : ℕ → Button → Call
  hrtimer_cancel : ℕ → Button → Call
  request_irq : ℕ → ℤ → Call
  free_irq : ℕ → Call

abbrev pub eio : ℤ
eio = negsuc 4

abbrev pub enomem : ℤ
enomem = negsuc 11

abbrev pub einval : ℤ
einval = negsuc 21
