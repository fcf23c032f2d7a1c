-- ===== src/AppleMidi/Driver/Members.antt =====
-- What the peers see of the table: a multiset of at most 16 addresses, which invitations and ends of
-- sessions change.
pub mod Requests
pub mod Tested
pub mod Refines
use cmidid_kerneldriver.Base.{ℕ, List, [], ◌∷◌, ◌<◌, ◌≡◌, ◌==◌, if◌then◌else◌}
use mathlib.Mathlib.Data.Multiset.Defs.{Multiset}
use mathlib.Mathlib.Data.Multiset.ZeroCons.{cons}
use cmidid_kerneldriver.AppleMidi.Rtp.Peer.{SockAddr, Address}
use cmidid_kerneldriver.AppleMidi.Rtp.Table.Roster.{roster, size, IsStrange}
use cmidid_kerneldriver.AppleMidi.Rtp.Packet.Header.{be16, byte}
use cmidid_kerneldriver.AppleMidi.Command.{
  invitation, accepted, rejected, end_session, Command, session, sync, feedback, unknown, Parsed,
  parsed, bad, too_long, parse_command,
}
use cmidid_kerneldriver.AppleMidi.Driver.{AppleMidiDriver}
use cmidid_kerneldriver.AppleMidi.Driver.Respond.{Moment, Packet}

-- What a request asks for.
pub data Effect : Type 0 where
  join : Address → Effect
  leave : ℕ → Effect
  keep : Effect

-- What may become of the members.
pub data Step : Multiset Address → Effect → Multiset Address → Type 0 where
  entered : {m : Multiset Address} {a : Address} → size m < 16 → Step m (join a) (cons a m)
  full : {m : Multiset Address} {a : Address} → size m ≡ 16 → Step m (join a) m
  left :
      {m m' : Multiset Address} {ssrc : ℕ} (a : Address)
      → a.ssrc ≡ ssrc
      → m ≡ cons a m'
      → Step m (leave ssrc) m'
  absent : {m : Multiset Address} {ssrc : ℕ} → IsStrange m ssrc → Step m (leave ssrc) m
  kept : {m : Multiset Address} → Step m keep m

-- What a command asks for that came from an address on the socket `sk`, of a driver with the RTP
-- socket `rtp`.
abbrev pub effect : ℕ → ℕ → ℕ → SockAddr → Command → Effect
effect rtp accept sk from (session invitation s) =
    if accept == 0
    then keep
    else if sk == rtp
    then join (record { ssrc = s.ssrc; size = 16; addr = from })
    else keep
effect rtp accept sk from (session accepted s) = keep
effect rtp accept sk from (session rejected s) = keep
effect rtp accept sk from (session end_session s) = leave s.ssrc
effect rtp accept sk from (sync t) = keep
effect rtp accept sk from (feedback f) = keep
effect rtp accept sk from (unknown type) = keep

-- The members of a driver.
abbrev pub members_of : AppleMidiDriver → Multiset Address
members_of d = roster d.rtp.peers d.heap

-- The steps for a list of effects.
pub data Steps : Multiset Address → List Effect → Multiset Address → Type 0 where
  done : {m : Multiset Address} → Steps m [] m
  next :
      {m m' m'' : Multiset Address} {e : Effect} {es : List Effect}
      → Step m e m'
      → Steps m' es m''
      → Steps m (e ∷ es) m''

abbrev pub parsed_effect : ℕ → ℕ → ℕ → SockAddr → Parsed → Effect
parsed_effect rtp accept sk from (parsed c) = effect rtp accept sk from c
parsed_effect rtp accept sk from bad = keep
parsed_effect rtp accept sk from too_long = keep

-- What a packet asks for that meets a moment: nothing, while another context holds the lock, or
-- without the signature.
abbrev pub heard : ℕ → ℕ → ℕ → Moment × Packet → Effect
heard rtp accept sk (m, p) =
    if m.busy
    then keep
    else if be16 (byte p.payload 0) (byte p.payload 1) == 0xffff
    then parsed_effect rtp accept sk p.from (parse_command m.old_name p.payload)
    else keep
