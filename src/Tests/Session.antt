-- ===== src/Tests/Session.antt =====
-- Session commands and a synchronisation, applemidi/applemidi.c.
use cmidid_kerneldriver.Base.{ℕ, List, [], ◌∷◌, none, some, ◌≡◌, arith, replicate}
use cmidid_kerneldriver.AppleMidi.Command.{
  invitation, Command, session, sync, built, build_command, parsed, parse_command, SyncData,
}
use cmidid_kerneldriver.AppleMidi.Command.RoundTrip.{
  IsSendable, expected, parse_command-build_command,
}
use cmidid_kerneldriver.AppleMidi.Sync.{Driver, code}
use cmidid_kerneldriver.AppleMidi.Sync.Exchange.{End, exchange, stamps, exchange_lem}

-- An invitation of "pi".
abbrev invite : Command
invite = session invitation (record { version = 2; token = 77; ssrc = 4096; name = 112 ∷ 105 ∷ [] })

invite-IsSendable : IsSendable invite
unfolding IsSendable
invite-IsSendable = (
  omega arith,
  omega arith,
  omega arith,
  omega arith,
  ((λ e. omega arith), ((λ e. omega arith), _)),
)

parse_command-build_command_example :
    (bytes : List ℕ) × (build_command invite ≡ built bytes)
    × (parse_command [] bytes ≡ parsed (expected [] invite))
parse_command-build_command_example = parse_command-build_command [] invite invite-IsSendable

abbrev driver : ℕ → Driver
driver ssrc = record {
  sync_state = 0;
  peer = none;
  ssrc = ssrc;
  peers = replicate 16 none;
  heap = [];
}

abbrev no_stamps : SyncData
no_stamps = stamps 0 0 0 0 0

exchange_lem_example :
    (e : End) × (exchange (driver 5) (driver 9) 100 250 400 410 no_stamps ≡ some e)
    × (e.first.sync_state ≡ 0)
    × (e.second.sync_state ≡ 0)
    × (e.command ≡ sync (stamps 9 3 100 250 400))
    × (e.outcome ≡ code 0)
exchange_lem_example =
    exchange_lem (driver 5) (driver 9) 100 250 400 410 no_stamps (λ e. omega arith) (omega arith)
      (omega arith) (omega arith) (omega arith) (omega arith) (omega arith) (omega arith)
