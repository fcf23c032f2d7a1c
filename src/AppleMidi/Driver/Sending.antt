-- ===== src/AppleMidi/Driver/Sending.antt =====
-- A command that is sent by a driver with both sockets.
use cmidid_kerneldriver.Base.{ℕ, Option, some, ℤ, ◌≡◌, ◌⊎◌, inl, inr, refl, ap, arith}
use cmidid_kerneldriver.AppleMidi.Rtp.Peer.{SockAddr}
use cmidid_kerneldriver.AppleMidi.Command.{Command, built, build_command}
use cmidid_kerneldriver.AppleMidi.Driver.{
  AppleMidiDriver, Answered, choose_socket, send_from, send_on, send_command, with_sockets,
}
use cmidid_kerneldriver.Base.{List}

-- A driver with the two sockets.
pub record HasSockets (d : AppleMidiDriver) (control rtp : ℕ) : Type 0 where
  pub has_control : d.control_socket ≡ some control
  pub has_rtp : d.rtp_socket ≡ some rtp

pub with_sockets_lem :
    (c r : Option ℕ) (control rtp : ℕ) (next : ℕ → ℕ → Option Answered)
    → c ≡ some control
    → r ≡ some rtp
    → with_sockets c r next ≡ next control rtp
with_sockets_lem c r control rtp next e f = rw (e, f) refl

choose_socket-own :
    (control rtp sk : ℕ)
    → (sk ≡ control) ⊎ (sk ≡ rtp)
    → choose_socket (some control) (some rtp) sk ≡ some (some sk)
choose_socket-own control rtp sk own = elim own [ inl o ↦ ground arith | inr o ↦ ground arith ]

pub send_command-built :
    (d : AppleMidiDriver) (control rtp sk : ℕ) (to : SockAddr) (sent : ℤ) (c : Command)
    (bytes : List ℕ)
    → HasSockets d control rtp
    → (sk ≡ control) ⊎ (sk ≡ rtp)
    → build_command c ≡ built bytes
    → send_command d sk (some to) sent c ≡ some (send_on d sk to sent bytes)
unfolding send_command
send_command-built d control rtp sk to sent c bytes has own b =
    let chosen : choose_socket d.control_socket d.rtp_socket sk ≡ some (some sk) =
      rw (has.has_control, has.has_rtp) (choose_socket-own control rtp sk own) in
    rw b (ap (send_from d to sent bytes) chosen)
