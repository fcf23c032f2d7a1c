-- ===== src/AppleMidi/Sync/Exchange.antt =====
-- A synchronisation between two drivers, over the datagrams that they exchange.
use cmidid_kerneldriver.Base.{
  ℕ, true, false, [], Option, none, some, ◌^◌, ◌<◌, ◌≡◌, ◌≢◌, refl, ◌∙◌, ap, sym, ◌==◌, arith,
}
use cmidid_kerneldriver.AppleMidi.Command.{
  Command, SyncData, sync, Built, built, build_command, Parsed, parsed, parse_command,
}
use cmidid_kerneldriver.AppleMidi.Command.RoundTrip.{
  IsSendable, expected, parse_command-build_command,
}
use cmidid_kerneldriver.AppleMidi.Sync.{Driver, Outcome, code, found, sync_command, start_sync}

infixl 6 ◌>>=◌
abbrev ◌>>=◌ : {A B : Type 0} → Option A → (A → Option B) → Option B
none >>= f = none
some a >>= f = f a

abbrev command_of : Parsed → Option Command
command_of (parsed c) = some c
command_of _ = none

-- What the other driver gets of a command: it is built, sent and parsed.
abbrev received : Built → Option Command
received (built bytes) = command_of (parse_command [] bytes)
received _ = none

unfoldable pub deliver : Command → Option Command
deliver c = received (build_command c)

-- How an exchange ends: the drivers, the last command of the second one, and what it returned.
pub record End : Type 0 where
  pub first : Driver
  pub second : Driver
  pub command : Command
  pub outcome : Outcome

-- The first driver starts at `t1`, the second answers at `t2`, the first at `t3`, and the second
-- reads that third message at `t4`.
unfoldable pub exchange : Driver → Driver → ℕ → ℕ → ℕ → ℕ → SyncData → Option End
exchange a b t1 t2 t3 t4 union =
    let s1 = start_sync a t1 union in
    do
      c1 ← deliver s1.command
      let s2 = sync_command b t2 union c1
      c2 ← deliver s2.command
      let s3 = sync_command s1.driver t3 union c2
      c3 ← deliver s3.command
      let s4 = sync_command s2.driver t4 union c3
      some (record {
        first = s3.driver;
        second = s4.driver;
        command = s4.command;
        outcome = s4.outcome;
      })

-- The timestamps of an exchange.
abbrev pub stamps : ℕ → ℕ → ℕ → ℕ → ℕ → SyncData
stamps ssrc count t1 t2 t3 = record {
  ssrc = ssrc;
  count = count;
  timestamp1 = t1;
  timestamp2 = t2;
  timestamp3 = t3;
}

deliver-sync : (d : SyncData) → IsSendable (sync d) → deliver (sync d) ≡ some (sync d)
unfolding deliver expected
deliver-sync d fits =
    let (bytes, b, p) = parse_command-build_command [] (sync d) fits in
    ap received b ∙ ap command_of p

same_ssrc : (n : ℕ) → (n == n) ≡ true
same_ssrc n = ground arith

other_ssrc : (n m : ℕ) → n ≢ m → (n == m) ≡ false
other_ssrc n m h = ground arith

-- Two drivers with different SSRCs of 32 bits exchange three messages over datagrams that all
-- arrive, with timestamps of 64 bits. Whatever they were doing before, both have then left the
-- synchronisation, and the second driver, which returns 0, holds the times at which the three
-- messages were sent.
pub exchange_lem :
    (a b : Driver) (t1 t2 t3 t4 : ℕ) (union : SyncData)
    → a.ssrc ≢ b.ssrc
    → a.ssrc < 2 ^ 32
    → b.ssrc < 2 ^ 32
    → t1 < 2 ^ 64
    → t2 < 2 ^ 64
    → t3 < 2 ^ 64
    → union.timestamp2 < 2 ^ 64
    → union.timestamp3 < 2 ^ 64
    → (e : End) × (exchange a b t1 t2 t3 t4 union ≡ some e)
      × (e.first.sync_state ≡ 0)
      × (e.second.sync_state ≡ 0)
      × (e.command ≡ sync (stamps b.ssrc 3 t1 t2 t3))
      × (e.outcome ≡ code 0)
unfolding exchange start_sync sync_command IsSendable
exchange_lem a b t1 t2 t3 t4 union differ la lb l1 l2 l3 u2 u3 =
    let d1 =
      deliver-sync (stamps a.ssrc 0 t1 union.timestamp2 union.timestamp3)
        (la, omega arith, l1, u2, u3) in
    let d2 = deliver-sync (stamps b.ssrc 1 t1 t2 union.timestamp3) (lb, omega arith, l1, l2, u3) in
    let d3 = deliver-sync (stamps a.ssrc 2 t1 t2 t3) (la, omega arith, l1, l2, l3) in
    let ab = other_ssrc a.ssrc b.ssrc differ in
    let ba = other_ssrc b.ssrc a.ssrc (λ e. differ (sym e)) in
    let first = record (found (record a { sync_state = 1 }) b.ssrc) { sync_state = 0 } in
    let answered = record (found b a.ssrc) { sync_state = 2 } in
    let second = record (found answered a.ssrc) { sync_state = 0 } in
    let last = sync (stamps b.ssrc 3 t1 t2 t3) in
    (
      record { first = first; second = second; command = last; outcome = code 0 },
      rw (same_ssrc a.ssrc, d1, ab, d2, ba, d3, ab) refl,
      refl,
      refl,
      refl,
      refl,
    )
