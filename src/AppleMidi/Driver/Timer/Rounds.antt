-- ===== src/AppleMidi/Driver/Timer/Rounds.antt =====
-- The timeouts of a driver whose synchronisations all end go round the table.
use cmidid_kerneldriver.Base.{
  ℕ, true, false, List, [], ◌∷◌, ◌++◌, Option, none, some, ◌≡◌, refl, sym, ap, ◌∙◌, subst, inr,
  arith, ◌==◌, ◌||◌, All, length, ◌<◌, ◌^◌,
}
use cmidid_kerneldriver.AppleMidi.Rtp.Peer.{SockAddr, Peer, get_peer, get_address}
use cmidid_kerneldriver.AppleMidi.Rtp.Table.{Slots, next_peer, first_peer}
use cmidid_kerneldriver.AppleMidi.Rtp.Table.Walk.{
  pointers, IsDistinct, snoc_append, next_peer-split,
}
use cmidid_kerneldriver.AppleMidi.Rtp.Packet.{get_ssrc}
use cmidid_kerneldriver.AppleMidi.Command.{SyncData, sync, parsed, parse_command}
use cmidid_kerneldriver.AppleMidi.Command.RoundTrip.{
  IsSendable, expected, parse_command-build_command,
}
use cmidid_kerneldriver.AppleMidi.Driver.Respond.Framing.{built-eq}
use cmidid_kerneldriver.AppleMidi.Sync.{Synced, start_new, sync_command, start_sync}
use cmidid_kerneldriver.AppleMidi.RtpMidi.Session.Visits.{address_of, addresses}
use cmidid_kerneldriver.AppleMidi.Driver.{
  AppleMidiDriver, Answered, CommandDatagram, silent, sync_part,
}
use cmidid_kerneldriver.AppleMidi.Driver.Sending.{HasSockets, send_command-built}
use cmidid_kerneldriver.AppleMidi.Driver.Respond.{
  unlocked, after_packet, more_datagrams, after_sync, finish_sync,
}
use cmidid_kerneldriver.AppleMidi.Driver.Timer.{
  Tick, moved_on, start_peer, start_at, start_with, timeout_locked, idle_timeout,
}

-- The synchronisation has ended, as it does with the third message of an exchange.
abbrev synchronised : AppleMidiDriver → AppleMidiDriver
synchronised d = record d { sync_state = 0 }

-- Timeouts, each followed by the end of the synchronisation that it starts.
unfoldable pub rounds : AppleMidiDriver → List Tick → Option Answered
rounds d [] = some (silent d 0)
rounds d (t ∷ ts) = after_packet (idle_timeout d t).answered (λ d'. rounds (synchronised d') ts)

-- Where the datagrams go.
abbrev pub receivers : List CommandDatagram → List (Option SockAddr)
receivers [] = []
receivers (d ∷ ds) = some d.to ∷ receivers ds

-- A datagram that starts a synchronisation, as it is read: it goes out on the RTP socket, and is a
-- synchronisation message of this SSRC with the count 0 and the time of the timeout.
abbrev pub IsStart : ℕ → ℕ → Tick → CommandDatagram → Type 0
IsStart rtp ssrc t g =
    (g.socket ≡ rtp)
    × ((old : List ℕ)
        → parse_command old g.bytes
          ≡ parsed (sync (record t.union { ssrc = ssrc; count = 0; timestamp1 = t.now })))

-- One for each timeout.
abbrev pub AreStarts : ℕ → ℕ → List Tick → List CommandDatagram → Type 0
AreStarts rtp ssrc [] [] = Unit {0}
AreStarts rtp ssrc [] (g ∷ gs) = ⊥
AreStarts rtp ssrc (t ∷ ts) [] = ⊥
AreStarts rtp ssrc (t ∷ ts) (g ∷ gs) = IsStart rtp ssrc t g × AreStarts rtp ssrc ts gs

-- The lock is free, and all times have 64 bits.
abbrev pub IsTimely : Tick → Type 0
IsTimely t =
    (t.busy ≡ false)
    × (t.now < 2 ^ 64)
    × (t.union.timestamp2 < 2 ^ 64)
    × (t.union.timestamp3 < 2 ^ 64)

-- A driver with no open synchronisation, a free lock, an SSRC of 32 bits, and peers that are allocated.
pub record IsIdle (d : AppleMidiDriver) (control rtp : ℕ) : Type 0 where
  pub sockets : HasSockets d control rtp
  pub unlocked_now : d.locked ≡ false
  pub synced : d.sync_state ≡ 0
  pub known : get_ssrc d.rtp < 2 ^ 32

-- What a new synchronisation is.
abbrev first_message : AppleMidiDriver → Tick → Synced
first_message d t =
    start_new (sync_part d) t.now (record t.union { ssrc = get_ssrc d.rtp; count = 3 })

start_sync-first :
    (d : AppleMidiDriver) (t : Tick) → start_sync (sync_part d) t.now t.union ≡ first_message d t
unfolding start_sync sync_command
start_sync-first d t =
    let own : (get_ssrc d.rtp == get_ssrc d.rtp) ≡ true = ground arith in rw own refl

module _ (control rtp : ℕ) where
  -- The first message of a synchronisation with a peer.
  start_with-sends :
      (d : AppleMidiDriver) (t : Tick) (to : SockAddr)
      → HasSockets d control rtp
      → IsTimely t
      → get_ssrc d.rtp < 2 ^ 32
      → (a : Answered) × (start_with d t to d.rtp_socket ≡ some a)
        × ((g : CommandDatagram) × (a.datagrams ≡ g ∷ [])
            × (g.to ≡ to)
            × IsStart rtp (get_ssrc d.rtp) t g)
        × (a.driver ≡ record d { sync_state = 1 })
  unfolding IsSendable expected
  start_with-sends d t to has (free, now, second, third) own =
      let first : SyncData = record t.union {
        ssrc = get_ssrc d.rtp;
        count = 0;
        timestamp1 = t.now;
      } in
      let fits : IsSendable (sync first) = (own, omega arith, now, second, third) in
      let (bytes, b, p) = parse_command-build_command [] (sync first) fits in
      let s = first_message d t in
      let has' : HasSockets (after_sync d s) control rtp = record {
        has_control = has.has_control;
        has_rtp = has.has_rtp;
      } in
      let sending =
        send_command-built (after_sync d s) control rtp rtp to t.sent s.command bytes has'
          (inr refl) b in
      (
        _,
        ap (start_with d t to) has.has_rtp
            ∙ ap (λ (s : Synced). finish_sync d rtp to t.sent s s.outcome) (start_sync-first d t)
            ∙ sending,
        (
          record { socket = rtp; to = to; bytes = bytes },
          refl,
          refl,
          (
            refl,
            λ old.
                let (bytes', b', p') = parse_command-build_command old (sync first) fits in
                subst (λ x. parse_command old x ≡ parsed (sync first)) (built-eq (sym b' ∙ b)) p',
          ),
        ),
        refl,
      )

  idle_timeout-sends :
      (d : AppleMidiDriver) (t : Tick) (h : ℕ) (peer : Peer)
      → IsIdle d control rtp
      → IsTimely t
      → next_peer d.rtp.peers d.peer ≡ some (some h)
      → get_peer d.heap h ≡ some peer
      → (a : Answered) × ((idle_timeout d t).answered ≡ some a)
        × ((g : CommandDatagram) × (a.datagrams ≡ g ∷ [])
            × (g.to ≡ peer.address.addr)
            × IsStart rtp (get_ssrc d.rtp) t g)
        × (a.driver ≡ record d { locked = false; sync_state = 1; peer = some h })
  unfolding idle_timeout get_address
  idle_timeout-sends d t h peer idle timely next live =
      let held : AppleMidiDriver = record d { locked = true } in
      let moved = moved_on held (some (some h)) in
      let has : HasSockets moved control rtp = record {
        has_control = idle.sockets.has_control;
        has_rtp = idle.sockets.has_rtp;
      } in
      let (a, e, goes, same) = start_with-sends moved t peer.address.addr has timely idle.known in
      let lock_free : (d.locked || t.busy) ≡ false =
        let u = idle.unlocked_now in let v = timely.0 in ground arith in
      let open_sync : (d.sync_state == 0) ≡ true = let u = idle.synced in ground arith in
      let address : get_address d.heap h ≡ some (peer.address.size, peer.address.addr) =
        rw (live, get_address) refl in
      let started : start_peer moved t (some h) ≡ some a =
        rw open_sync (ap (start_at moved t) address ∙ e) in
      (
        record a { driver = record a.driver { locked = false } },
        rw lock_free (ap unlocked (ap (timeout_locked held t) next ∙ started)),
        goes,
        ap (λ (x : AppleMidiDriver). record x { locked = false }) same,
      )

  rounds-from :
      (pre post : Slots) (d : AppleMidiDriver) (ts : List Tick)
      → d.rtp.peers ≡ pre ++ post
      → IsDistinct (pre ++ post)
      → All (λ h. (peer : Peer) × (get_peer d.heap h ≡ some peer)) (pointers post)
      → IsIdle d control rtp
      → next_peer d.rtp.peers d.peer ≡ some (first_peer post)
      → length ts ≡ length (pointers post)
      → All IsTimely ts
      → (a : Answered) × (rounds d ts ≡ some a)
        × (receivers a.datagrams ≡ addresses (address_of d.heap) (pointers post))
        × AreStarts rtp (get_ssrc d.rtp) ts a.datagrams
  unfolding rounds first_peer pointers
  rounds-from pre [] d [] e distinct live idle next len free = (_, refl, refl, tt)
  rounds-from pre [] d (t ∷ ts) e distinct live idle next len free = absurd (omega arith)
  rounds-from pre (none ∷ post) d ts e distinct live idle next len free =
      let snoc = snoc_append pre none post in
      rounds-from (pre ++ none ∷ []) post d ts (e ∙ sym snoc) (subst IsDistinct (sym snoc) distinct)
        live idle next len free
  rounds-from pre (some h ∷ post) d [] e distinct live idle next len free = absurd (omega arith)
  rounds-from pre (some h ∷ post) d (t ∷ ts) e distinct live idle next len free =
      let (peer, alive) = live.0 in
      let (a, f, (one, sends_one, goes, starts), same) =
        idle_timeout-sends d t h peer idle free.0 next alive in
      let d' : AppleMidiDriver = record d { locked = false; sync_state = 0; peer = some h } in
      let snoc = snoc_append pre (some h) post in
      let idle' : IsIdle d' control rtp = record {
        sockets = record { has_control = idle.sockets.has_control; has_rtp = idle.sockets.has_rtp };
        unlocked_now = refl;
        synced = refl;
        known = idle.known;
      } in
      let next' =
        subst (λ ss. next_peer ss (some h) ≡ some (first_peer post)) (sym e)
          (next_peer-split pre h post distinct) in
      let (b, g, rest, all_start) =
        rounds-from (pre ++ some h ∷ []) post d' ts (e ∙ sym snoc)
          (subst IsDistinct (sym snoc) distinct) live.1 idle' next' (omega (arith, len)) free.1 in
      (
        record b { datagrams = a.datagrams ++ b.datagrams },
        ap (λ r. after_packet r (λ x. rounds (synchronised x) ts)) f
            ∙ ap (λ x. more_datagrams a.datagrams (rounds (synchronised x) ts)) same
            ∙ ap (more_datagrams a.datagrams) g,
        rw (sends_one, goes, rest, alive) refl,
        rw sends_one (starts, all_start),
      )

  -- From NULL on, timeouts that find the lock free, each after the end of the synchronisation that
  -- the one before it started, start one with every peer of the table, in the order of the slots:
  -- each sends to the next peer's address, from the RTP socket, one datagram, which is read as a
  -- synchronisation message of the driver's SSRC with the count 0 and the time of the timeout. The
  -- conditions: as many timeouts as peers, the driver has both sockets, a free lock, no open
  -- synchronisation and an SSRC of 32 bits, no peer stands in two slots, all are allocated, and the
  -- times of the timeouts and those left in the driver's command have 64 bits.
  pub rounds-addresses :
      (d : AppleMidiDriver) (ts : List Tick)
      → IsDistinct d.rtp.peers
      → All (λ h. (peer : Peer) × (get_peer d.heap h ≡ some peer)) (pointers d.rtp.peers)
      → IsIdle d control rtp
      → d.peer ≡ none
      → length ts ≡ length (pointers d.rtp.peers)
      → All IsTimely ts
      → (a : Answered) × (rounds d ts ≡ some a)
        × (receivers a.datagrams ≡ addresses (address_of d.heap) (pointers d.rtp.peers))
        × AreStarts rtp (get_ssrc d.rtp) ts a.datagrams
  unfolding next_peer
  rounds-addresses d ts distinct live idle null len free =
      rounds-from [] d.rtp.peers d ts refl distinct live idle (ap (next_peer d.rtp.peers) null) len
        free
