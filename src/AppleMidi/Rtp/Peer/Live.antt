-- ===== src/AppleMidi/Rtp/Peer/Live.antt =====
-- A peer that is allocated.
use cmidid_kerneldriver.Base.{
  ℕ, Option, none, some, true, false, ◌+◌, ◌%◌, ◌^◌, ◌<◌, ◌≡◌, refl, ap, arith, set, set-set,
  set-get_elem?, get_elem?, get_elem?-set_self, lt-length, ◌==◌,
}
use cmidid_kerneldriver.AppleMidi.Rtp.Peer.{
  Peer, Heap, get_peer, at_block, retain_peer, release_peer,
}

pub at_block-some :
    (o : Option (Option Peer)) (peer : Peer) → at_block o ≡ some peer → o ≡ some (some peer)
at_block-some none peer e = absurd (cc)
at_block-some (some none) peer e = absurd (cc)
at_block-some (some (some q)) peer e = ap some e

-- A release takes back a retain.
module _ (heap : Heap) (h : ℕ) (peer : Peer) (live : get_peer heap h ≡ some peer) where
  more : Option Peer
  more = some (record peer { refs = (peer.refs + 1) % 2 ^ 32 })

  retained_block : retain_peer heap h ≡ set heap h more
  unfolding retain_peer more
  retained_block = rw live refl

  pub block : get_elem? heap h ≡ some (some peer)
  block = at_block-some (get_elem? heap h) peer live

  get_peer-retain_peer : get_peer (retain_peer heap h) h ≡ more
  unfolding more
  get_peer-retain_peer =
      rw (retained_block, get_elem?-set_self heap h more (lt-length heap h (some peer) block)) refl

  pub release_peer-retain_peer :
      0 < peer.refs → peer.refs + 1 < 2 ^ 32 → release_peer (retain_peer heap h) h ≡ heap
  unfolding release_peer more
  release_peer-retain_peer pos small =
      let r : ((peer.refs + 1) % 4294967296 + 4294967295) % 4294967296 ≡ peer.refs = omega arith in
      let n : (peer.refs == 0) ≡ false = ground arith in
      let s = set-set heap h more (some peer) in
      rw (get_peer-retain_peer, r, n, retained_block, s) (set-get_elem? heap h (some peer) block)

  -- A write to the block is read back.
  pub get_peer-set : (q : Peer) → get_peer (set heap h (some q)) h ≡ some q
  get_peer-set q = rw (get_elem?-set_self heap h (some q) (lt-length heap h (some peer) block)) refl

  -- The last reference is given back.
  pub get_peer-release_peer_last : peer.refs ≡ 1 → get_peer (release_peer heap h) h ≡ none
  unfolding release_peer
  get_peer-release_peer_last last =
      let z : ((peer.refs + 4294967295) % 4294967296 == 0) ≡ true = ground arith in
      let l = lt-length heap h (some peer) block in
      rw (live, z) (ap at_block (get_elem?-set_self heap h none l))
