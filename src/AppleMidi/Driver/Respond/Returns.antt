-- ===== src/AppleMidi/Driver/Respond/Returns.antt =====
-- Every command that is short gets a response, which keeps the sockets and the lock.
use cmidid_kerneldriver.Base.{
  ℕ, Bool, true, false, List, [], ◌∷◌, ◌++◌, Option, none, some, ℤ, ◌<◌, ◌≡◌, ◌⊎◌, inl, inr, refl,
  sym, ap, ◌∙◌, ◌+◌, subst, ◌==◌, ltb, Bool-cases, arith, length, if◌then◌else◌, ◌||◌,
}
use cmidid_kerneldriver.AppleMidi.Rtp.Peer.{SockAddr, create_peer}
use cmidid_kerneldriver.AppleMidi.Rtp.Table.{find_peer_by_ssrc}
use cmidid_kerneldriver.AppleMidi.Rtp.Table.Tidy.{
  IsTidy, remove_peer-IsTidy, freed-IsTidy, joined-IsTidy,
}
use cmidid_kerneldriver.AppleMidi.Rtp.Packet.{get_ssrc}
use cmidid_kerneldriver.AppleMidi.Command.{
  invitation, accepted, rejected, end_session, SessionData, SyncData, Command, session, sync,
  feedback, unknown, built, refused, build_command, with_name,
}
use cmidid_kerneldriver.AppleMidi.Sync.{Outcome, sends, code, Synced, sync_command}
use cmidid_kerneldriver.AppleMidi.Driver.{
  AppleMidiDriver, Answered, silent, choose_socket, send_from, send_built, send_command, sync_part,
}
use cmidid_kerneldriver.AppleMidi.Driver.Sending.{HasSockets, with_sockets_lem}
use cmidid_kerneldriver.AppleMidi.Driver.Respond.{
  respond, joined_driver, admit_peer, removed, answer_invitation, after_sync, finish_sync,
}
use cmidid_kerneldriver.AppleMidi.Driver.Respond.Invitation.{admitted_cases}
use cmidid_kerneldriver.AppleMidi.Rtp.Peer.{fresh_peer}
use cmidid_kerneldriver.AppleMidi.Driver.Respond.Usable.{IsShort}

-- A function keeps the sockets, the lock, the name and the acceptance of the driver and the references of its RTP
-- session, and its table of peers tidy.
pub record IsKept (d d' : AppleMidiDriver) : Type 0 where
  pub control_kept : d'.control_socket ≡ d.control_socket
  pub rtp_kept : d'.rtp_socket ≡ d.rtp_socket
  pub accept_kept : d'.accept ≡ d.accept
  pub lock_kept : d'.locked ≡ d.locked
  pub name_kept : d'.name ≡ d.name
  pub refs_kept : d'.rtp.refs ≡ d.rtp.refs
  pub tidy_kept : IsTidy d.rtp.peers d.heap → IsTidy d'.rtp.peers d'.heap

-- The function returns, and keeps them.
abbrev pub Returns : AppleMidiDriver → Option Answered → Type 0
Returns d r = (a : Answered) × (r ≡ some a) × IsKept d a.driver

with_name-total :
    (words name : List ℕ)
    → length name < 48
    → (bytes : List ℕ) × (with_name words name ≡ built bytes)
with_name-total words [] l = (_, refl)
with_name-total words (c ∷ name) l =
    let fits : ltb 48 (length (c ∷ name) + 1) ≡ false = ground arith in
    (words ++ (c ∷ name ++ 0 ∷ []), rw fits refl)

build_command-total :
    (c : Command)
    → IsShort c
    → (build_command c ≡ refused) ⊎ ((bytes : List ℕ) × (build_command c ≡ built bytes))
unfolding build_command
build_command-total (session type d) short = inr (with_name-total _ d.name short)
build_command-total (sync d) short = inr (_, refl)
build_command-total (feedback d) short = inr (_, refl)
build_command-total (unknown type) short = inl refl

send_from-driver :
    (d : AppleMidiDriver) (to : SockAddr) (sent : ℤ) (bytes : List ℕ) (s : Option ℕ)
    → (a : Answered) × (send_from d to sent bytes (some s) ≡ some a) × (a.driver ≡ d)
send_from-driver d to sent bytes none = (_, refl, refl)
send_from-driver d to sent bytes (some socket) = (_, refl, refl)

choose_socket-total :
    (control rtp sk : ℕ) → (s : Option ℕ) × (choose_socket (some control) (some rtp) sk ≡ some s)
choose_socket-total control rtp sk = elim (Bool-cases (control == sk)) [
  | inl e ↦ (some control, rw e refl)
  | inr e ↦ elim (Bool-cases (rtp == sk)) [
    | inl f ↦ (some rtp, rw (e, f) refl)
    | inr f ↦ (none, rw (e, f) refl)
  ]
]

-- A short command is sent, or refused, and that leaves the driver as it is.
module _ (d : AppleMidiDriver) (control rtp : ℕ) (has : HasSockets d control rtp) where
  pub send_command-driver :
      (sk : ℕ) (to : Option SockAddr) (sent : ℤ) (c : Command)
      → IsShort c
      → (a : Answered) × (send_command d sk to sent c ≡ some a) × (a.driver ≡ d)
  unfolding send_command
  send_command-driver sk to sent c short = elim (build_command-total c short) [
    | inl e ↦ rw e (silent d 1, refl, refl)
    | inr (bytes, e) ↦ rw e (send_built-driver sk to sent bytes)
  ]
    where
      send_built-driver :
          (sk : ℕ) (to : Option SockAddr) (sent : ℤ) (bytes : List ℕ)
          → (a : Answered) × (send_built d sk to sent (built bytes) ≡ some a) × (a.driver ≡ d)
      send_built-driver sk none sent bytes = (_, refl, refl)
      send_built-driver sk (some to) sent bytes =
          let (s, chosen) = choose_socket-total control rtp sk in
          let chosen' : choose_socket d.control_socket d.rtp_socket sk ≡ some s =
            rw (has.has_control, has.has_rtp) chosen in
          let (a, e, same) = send_from-driver d to sent bytes s in
          (a, ap (send_from d to sent bytes) chosen' ∙ e, same)

-- The command of a synchronisation is one of synchronisation.
abbrev pub IsSyncing : Synced → Type 0
IsSyncing s = (t : SyncData) × (s.command ≡ sync t)

if-IsSyncing :
    (b : Bool) (x y : Synced) → IsSyncing x → IsSyncing y → IsSyncing (if b then x else y)
if-IsSyncing true x y s t = s
if-IsSyncing false x y s t = t

pub sync_command-IsSyncing :
    (d : AppleMidiDriver) (now : ℕ) (t : SyncData)
    → IsSyncing (sync_command (sync_part d) now t (sync t))
unfolding sync_command
sync_command-IsSyncing d now t =
    if-IsSyncing ((t.ssrc == get_ssrc d.rtp) || ltb 2 t.count) _ _ (_, refl)
      (if-IsSyncing (t.count == 2) _ _ (_, refl)
        (if-IsSyncing (t.count == 1) _ _ (_, refl)
          (if-IsSyncing (t.count == 0) _ _ (_, refl) (_, refl))))

-- A driver whose sockets and lock are those of another.
pub IsKept-refl : (d : AppleMidiDriver) → IsKept d d
IsKept-refl d = record {
  control_kept = refl;
  rtp_kept = refl;
  accept_kept = refl;
  lock_kept = refl;
  name_kept = refl;
  refs_kept = refl;
  tidy_kept = λ s. s;
}

joined_driver-IsKept :
    (d : AppleMidiDriver) (ssrc : ℕ) (from : SockAddr) → IsKept d (joined_driver d ssrc from)
unfolding joined_driver
joined_driver-IsKept d ssrc from =
    let slots = d.rtp.peers in
    record {
      control_kept = refl;
      rtp_kept = refl;
      accept_kept = refl;
      lock_kept = refl;
      name_kept = refl;
      refs_kept = refl;
      tidy_kept = λ s. elim (admitted_cases slots d.heap ssrc 16 from) [
        | inl (full, e) ↦ subst (λ c. IsTidy c.slots c.heap) (sym e) (freed-IsTidy slots d.heap s)
        | inr (p, l, free, e) ↦
            subst (λ c. IsTidy c.slots c.heap) (sym e)
              (joined-IsTidy slots d.heap s p (fresh_peer ssrc 16 from) l free refl)
      ];
    }

removed-IsKept : (d : AppleMidiDriver) (h : Option ℕ) → IsKept d (removed d h)
removed-IsKept d none = IsKept-refl d
removed-IsKept d (some h) = record {
  control_kept = refl;
  rtp_kept = refl;
  accept_kept = refl;
  lock_kept = refl;
  name_kept = refl;
  refs_kept = refl;
  tidy_kept = λ s. remove_peer-IsTidy d.rtp.peers d.heap s h;
}

pub Returns-IsKept :
    (d d' : AppleMidiDriver) (r : Option Answered) → IsKept d d' → Returns d' r → Returns d r
Returns-IsKept d d' r k (a, e, k') = (
  a,
  e,
  record {
    control_kept = k'.control_kept ∙ k.control_kept;
    rtp_kept = k'.rtp_kept ∙ k.rtp_kept;
    accept_kept = k'.accept_kept ∙ k.accept_kept;
    lock_kept = k'.lock_kept ∙ k.lock_kept;
    name_kept = k'.name_kept ∙ k.name_kept;
    refs_kept = k'.refs_kept ∙ k.refs_kept;
    tidy_kept = λ s. k'.tidy_kept (k.tidy_kept s);
  },
)

module _ (control rtp : ℕ) where
  send-kept :
      (d d' : AppleMidiDriver)
      → HasSockets d control rtp
      → IsKept d d'
      → (sk : ℕ) (to : SockAddr) (sent : ℤ) (c : Command) → IsShort c
      → Returns d (send_command d' sk (some to) sent c)
  send-kept d d' has k sk to sent c short =
      let has' : HasSockets d' control rtp = record {
        has_control = k.control_kept ∙ has.has_control;
        has_rtp = k.rtp_kept ∙ has.has_rtp;
      } in
      let (a, e, same) = send_command-driver d' control rtp has' sk (some to) sent c short in
      (a, e, subst (IsKept d) (sym same) k)

  answer_invitation-Returns :
      (d : AppleMidiDriver)
      → HasSockets d control rtp
      → (sk : ℕ) (from : SockAddr) (sent : ℤ) (s : SessionData) → length s.name < 48
      → Returns d (answer_invitation d rtp sk from sent true s)
  unfolding admit_peer create_peer joined_driver
  answer_invitation-Returns d has sk from sent s short = elim (Bool-cases (d.accept == 0)) [
    | inl e ↦ rw e (send-kept d d has (IsKept-refl d) sk from sent _ short)
    | inr e ↦ elim (Bool-cases (sk == rtp)) [
      | inl f ↦
          rw (e, f) (send-kept d _ has (joined_driver-IsKept d s.ssrc from) sk from sent _ short)
      | inr f ↦ rw (e, f) (send-kept d d has (IsKept-refl d) sk from sent _ short)
    ]
  ]

  finish_sync-Returns :
      (d : AppleMidiDriver)
      → HasSockets d control rtp
      → (sk : ℕ) (to : SockAddr) (sent : ℤ) (s : Synced) → IsSyncing s
      → (o : Outcome) → Returns d (finish_sync d sk to sent s o)
  finish_sync-Returns d has sk to sent s (t, e) sends =
      let kept : IsKept d (after_sync d s) = record {
        control_kept = refl;
        rtp_kept = refl;
        accept_kept = refl;
        lock_kept = refl;
        name_kept = refl;
        refs_kept = refl;
        tidy_kept = λ s. s;
      } in
      subst (λ c. Returns d (send_command (after_sync d s) sk (some to) sent c)) (sym e)
        (send-kept d (after_sync d s) has kept sk to sent (sync t) _)
  finish_sync-Returns d has sk to sent s i (code n) = (
    _,
    refl,
    record {
      control_kept = refl;
      rtp_kept = refl;
      accept_kept = refl;
      lock_kept = refl;
      name_kept = refl;
      refs_kept = refl;
      tidy_kept = λ s. s;
    },
  )

  -- Every short command gets a response, if there is memory for a peer.
  pub respond-Returns :
      (d : AppleMidiDriver)
      → HasSockets d control rtp
      → (sk : ℕ) (from : SockAddr) (now : ℕ) (sent : ℤ) (c : Command) → IsShort c
      → Returns d (respond d sk from now sent true c)
  unfolding respond
  respond-Returns d has sk from now sent (session invitation s) short =
      subst (Returns d)
        (sym (
          with_sockets_lem d.control_socket d.rtp_socket control rtp
            (λ c r. answer_invitation d r sk from sent true s) has.has_control has.has_rtp))
        (answer_invitation-Returns d has sk from sent s short)
  respond-Returns d has sk from now sent (session accepted s) short = (_, refl, IsKept-refl d)
  respond-Returns d has sk from now sent (session rejected s) short = (_, refl, IsKept-refl d)
  respond-Returns d has sk from now sent (session end_session s) short =
      (_, refl, removed-IsKept d (find_peer_by_ssrc d.rtp.peers d.heap s.ssrc))
  respond-Returns d has sk from now sent (sync t) short =
      let s = sync_command (sync_part d) now t (sync t) in
      finish_sync-Returns d has sk from sent s (sync_command-IsSyncing d now t) s.outcome
  respond-Returns d has sk from now sent (feedback f) short = (_, refl, IsKept-refl d)
  respond-Returns d has sk from now sent (unknown type) short = (_, refl, IsKept-refl d)
