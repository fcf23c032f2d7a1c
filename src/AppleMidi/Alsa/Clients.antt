-- ===== src/AppleMidi/Alsa/Clients.antt =====
-- What `ALSARegisterClient` takes, and what it and `ALSADeleteClient` give back.
use cmidid_kerneldriver.Base.{ℕ, false, List, [], ◌∷◌, ◌++◌, some, ◌+◌, ◌≡◌, arith, if◌then◌else◌}
use cmidid_kerneldriver.Base.Int.{is_negative, is_zero}
use cmidid_kerneldriver.AppleMidi.Alsa.{
  AlsaCall, kmalloc_driver, kmalloc_priv, kfree_driver, kfree_priv, snd_card_create, snd_card_free,
  snd_seq_create_kernel_client, snd_seq_delete_kernel_client, ClientAnswers, create_port,
  registered_client, delete_client,
}

-- The two blocks of memory, the card and the client.
pub data Resource : Type 0 where
  driver_memory priv_memory card client : Resource

abbrev pub takes : Resource → AlsaCall → ℕ
takes driver_memory kmalloc_driver = 1
takes priv_memory kmalloc_priv = 1
takes card (snd_card_create code) = if is_negative code then 0 else 1
takes client (snd_seq_create_kernel_client code) = if is_negative code then 0 else 1
takes _ _ = 0

abbrev pub frees : Resource → AlsaCall → ℕ
frees driver_memory kfree_driver = 1
frees priv_memory kfree_priv = 1
frees card (snd_card_free c) = 1
frees client (snd_seq_delete_kernel_client n) = 1
frees _ _ = 0

abbrev pub total : (AlsaCall → ℕ) → List AlsaCall → ℕ
total f [] = 0
total f (c ∷ cs) = f c + total f cs

-- A client that is registered and then deleted, or that could not be registered: both blocks of
-- memory, the card and the client of the sequencer are given back as often as they were taken,
-- whatever ALSA answers, if it stores a card that it creates, and gives no client the number 0.
pub registered_client-delete_client :
    (k : ClientAnswers) (n : ℕ)
    → k.card ≡ some n
    → is_zero k.client ≡ false
    → (r : Resource)
    → let calls = (registered_client k).1 ++ delete_client (registered_client k).0 in
      total (frees r) calls ≡ total (takes r) calls
unfolding registered_client delete_client create_port
registered_client-delete_client k n stored named driver_memory = ground arith
registered_client-delete_client k n stored named priv_memory = ground arith
registered_client-delete_client k n stored named card = ground arith
registered_client-delete_client k n stored named client = ground arith
