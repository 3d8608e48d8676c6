-- ===== src/Gossip/Digest/Handlers.antt =====
-- What Tick, handleDigest and OnMessage send and change.
use faultlab.Prelude.{
  ℕ, zero, suc, ◌+◌, ◌%◌, ◌^◌, ◌<◌, ◌=ℕ=◌, ◌≡◌, refl, ◌⊎◌, inl, inr, String, Bool, true, false,
  Option, none, some, List, [], ◌∷◌, ◌++◌, map, length, get_elem?, arith, if◌then◌else◌, GoMap, at,
  at-delete, eq_refl, Bool-cases,
}
use mathlib.Core.List.{map-append}
use mathlib.Core.Path.{ap₂, ap, ◌∙◌}
use mathlib.Core.Option.{some-injective}
use faultlab.Protocol.{Envelope, Codec}
use faultlab.Gossip.State.{GossipProtocol, GossipMessage}
use faultlab.Gossip.Peers.{has_peer, pick_random_peer}
use faultlab.Gossip.Digest.{
  digest_message, state_message, is_behind, digest_to, pick_peer, tick, state_reply, digest_reply,
  handle_digest,
}

get_elem?-has_peer :
    (ps : List String) (i : ℕ)
    → i < length ps
    → (p : String) × (get_elem? ps i ≡ some p) × (has_peer ps p ≡ true)
unfolding has_peer
get_elem?-has_peer [] i h = absurd (omega arith)
get_elem?-has_peer (q ∷ ps) zero h = (q, refl, rw (eq_refl q))
get_elem?-has_peer (q ∷ ps) (suc i) h =
    let (p, e, m) = get_elem?-has_peer ps i (omega arith) in (p, e, ground arith)

-- A random peer is one of the peers, and there is one unless there are none.
pick_random_peer-has_peer :
    (intn : ℕ → ℕ) (p : String) (ps : List String)
    → intn (length (p ∷ ps)) < length (p ∷ ps)
    → (q : String) × (pick_random_peer intn (p ∷ ps) ≡ some q) × (has_peer (p ∷ ps) q ≡ true)
unfolding pick_random_peer
pick_random_peer-has_peer intn p ps h = get_elem?-has_peer (p ∷ ps) (intn (length (p ∷ ps))) h

-- The receiver of a digest was marked, as a peer or as a former one, and is no longer; or none was
-- marked and it is a peer.
abbrev pub Chosen : GossipProtocol → GossipProtocol → String → Type 0
Chosen g g' to =
    ((marked : Bool) × (at g.force_sync_peers to ≡ some marked)
      × (at g'.force_sync_peers to ≡ none))
    ⊎ ((g.force_sync_peers ≡ []) × (has_peer g.peers to ≡ true))

pick_peer-Chosen :
    (g : GossipProtocol) (force : GoMap Bool) (intn : ℕ → ℕ) (p : String) (ps : List String)
    → g.force_sync_peers ≡ force
    → g.peers ≡ p ∷ ps
    → ((n : ℕ) → 0 < n → intn n < n)
    → (to : String) × ((pick_peer g force intn).1 ≡ some to)
      × Chosen g (pick_peer g force intn).0 to
      × ((pick_peer g force intn).0.store ≡ g.store)
unfolding pick_peer at
pick_peer-Chosen g [] intn p ps e f b =
    let (q, found, m) = pick_random_peer-has_peer intn p ps (b (length (p ∷ ps)) (omega arith)) in
    (q, rw f found, inr (e, rw f m), refl)
pick_peer-Chosen g ((q, marked) ∷ force) intn p ps e f b = (
  q,
  refl,
  inl (marked, rw (e, at) (rw (eq_refl q)), rw (at-delete g.force_sync_peers q q, eq_refl q)),
  refl,
)

module _ (json : Codec GossipMessage) where
  open json use {Bytes, encode, decode, decode-encode}

  -- What the receiver of an envelope reads.
  abbrev pub read : Envelope Bytes → Option GossipMessage
  read e = decode e.payload

  state_reply-read :
      (g : GossipProtocol) (from : String) (msg : GossipMessage) (now : ℕ)
      → map read (state_reply json g from msg now)
        ≡ (if length msg.state =ℕ= 0 then [] else some msg ∷ [])
  unfolding state_reply
  state_reply-read g from msg now = elim (Bool-cases (length msg.state =ℕ= 0)) [
    | inl e ↦ rw (e, state_reply)
    | inr e ↦ rw (e, state_reply) (rw decode-encode)
  ]

  digest_reply-read :
      (g : GossipProtocol) (from : String) (behind : Bool) (now : ℕ)
      → map read (digest_reply json g from behind now)
        ≡ (if behind then some (digest_message g.store) ∷ [] else [])
  unfolding digest_reply
  digest_reply-read g from false now = refl
  digest_reply-read g from true now = rw decode-encode

  -- The answers to a digest read back as: the STATE message, unless it would be empty; then the own
  -- digest, exactly if the node is behind.
  pub handle_digest-read :
      (g : GossipProtocol) (from : String) (msg : GossipMessage) (now later : ℕ)
      → map read (handle_digest json g from msg now later) ≡ (
          let reply = state_message g.store msg.digest in
          (if length reply.state =ℕ= 0 then [] else some reply ∷ [])
          ++ (if is_behind g.store msg.digest then some (digest_message g.store) ∷ [] else []))
  unfolding handle_digest
  handle_digest-read g from msg now later =
      map-append read _ _
      ∙ ap₂ (λ xs ys. xs ++ ys) (state_reply-read g from (state_message g.store msg.digest) now)
          (digest_reply-read g from (is_behind g.store msg.digest) later)

  tick_due :
      (g : GossipProtocol) (now : ℕ) (intn : ℕ → ℕ)
      → (g.tick + 1) % 2 ^ 64 % g.gossip_interval ≡ 0
      → tick json g now intn ≡ (
          let (g', to) =
            pick_peer (record g { tick = (g.tick + 1) % 2 ^ 64 }) g.force_sync_peers intn in
          (g', digest_to json g' to now))
  unfolding tick
  tick_due g now intn due = rw due

  digest_to-read :
      (g : GossipProtocol) (to : Option String) (p : String) (now : ℕ)
      → to ≡ some p
      → (e : Envelope Bytes) × (digest_to json g to now ≡ e ∷ [])
        × (read e ≡ some (digest_message g.store))
        × (e.to ≡ p)
  unfolding digest_to
  digest_to-read g none p now h = absurd (cc)
  digest_to-read g (some q) p now h =
      (_, refl, decode-encode (digest_message g.store), some-injective _ _ h)

  -- On every tick that the interval divides, a node with peers sends one envelope with its digest. It
  -- goes to a node that is marked for a forced sync, whose mark is cleared and which need not be a
  -- peer any more; only where none is marked it goes to one of the peers. The store stays as it was.
  -- The random source gives a number below its bound.
  pub tick-sends :
      (g : GossipProtocol) (now : ℕ) (intn : ℕ → ℕ) (p : String) (ps : List String)
      → g.peers ≡ p ∷ ps
      → ((n : ℕ) → 0 < n → intn n < n)
      → (g.tick + 1) % 2 ^ 64 % g.gossip_interval ≡ 0
      → (e : Envelope Bytes) × ((tick json g now intn).1 ≡ e ∷ [])
        × (read e ≡ some (digest_message g.store))
        × Chosen g (tick json g now intn).0 e.to
        × ((tick json g now intn).0.store ≡ g.store)
  tick-sends g now intn p ps e b due =
      let counted = record g { tick = (g.tick + 1) % 2 ^ 64 } in
      let (to, picked, chosen, kept) =
        pick_peer-Chosen counted g.force_sync_peers intn p ps refl e b in
      let (env, sent, says, goes) =
        digest_to-read (pick_peer counted g.force_sync_peers intn).0
          (pick_peer counted g.force_sync_peers intn).1 to now picked in
      rw (tick_due g now intn due)
        (env, sent, says ∙ ap (λ s. some (digest_message s)) kept, rw goes chosen, kept)
