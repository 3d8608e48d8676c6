-- ===== src/NodeSession/CutOff.antt =====
-- The session of a node under its fault engine.
use mathlib.Core.Path.{subst}
use faultlab.Prelude.{
  [], ap, ℕ, ◌≡◌, refl, sym, String, Bool, false, not, ◌&&◌, Option, none, some, at, at-insert,
  eq_iff, Option-cases, inl, inr, arith,
}
use faultlab.Protocol.{Envelope}
use faultlab.Fault.{
  Floats, Engine, Decision, is_partitioned, before_send, before_probe, before_tick,
}
use faultlab.Fault.Laws.{decisions}
use faultlab.NodeSession.{
  PeerState, NodeSession, Network, SendError, unsent, peer_not_found, send, send_decided,
  probe_tick,
}
use faultlab.NodeSession.Health.{at-probe_peers}

-- The error of a Send to a peer that is cut off: nil, where the session has the peer.
abbrev pub error_of : Option PeerState → Option SendError
error_of none = some peer_not_found
error_of (some ps) = none

send_decided-blocked :
    {Bytes : Type 0} (ns : NodeSession) (env : Envelope Bytes) (decision : Decision)
    (cut_short : Bool) (net : Network) (now : ℕ) (ps : PeerState)
    → decision.allow ≡ false
    → send_decided ns env decision cut_short net now ps ≡ (unsent none, ps)
unfolding send_decided
send_decided-blocked ns env decision cut_short net now ps off = rw off refl

module _ (floats : Floats) where
  open floats use {Float}

  send-blocked :
      {Bytes : Type 0} (ns : NodeSession) (env : Envelope Bytes) (before : String → Decision)
      (cut_short : Bool) (net : Network) (now : ℕ)
      → ((ps : PeerState) → at ns.peers env.to ≡ some ps → (before ps.id).allow ≡ false)
      → let sent = send ns env before cut_short net now in
        (sent.0 ≡ unsent (error_of (at ns.peers env.to)))
        × ((id : String) → at sent.1.peers id ≡ at ns.peers id)
  unfolding send
  send-blocked ns env before cut_short net now off = elim (Option-cases (at ns.peers env.to)) [
    | inl missing ↦ rw (missing, send) (refl, λ id. refl)
    | inr (ps, found) ↦
        let same = send_decided-blocked ns env (before ps.id) cut_short net now ps (off ps found) in
        rw (found, send, same)
          (refl, λ id. ground (arith, at-insert ns.peers env.to ps id, eq_iff env.to id, found))
  ]

  probe_tick-blocked :
      (tick : Decision) (before : String → Decision) (nets : String → Network) (now : ℕ)
      (ns : NodeSession) (id : String)
      → ((ps : PeerState) → at ns.peers id ≡ some ps → (before ps.id).allow ≡ false)
      → at (probe_tick tick before nets now ns).peers id ≡ at ns.peers id
  unfolding probe_tick
  probe_tick-blocked tick before nets now ns id off = elim (Option-cases (at ns.peers id)) [
    | inl missing ↦ ground (arith, at-probe_peers ns.node_id before nets now ns.peers id, missing)
    | inr (ps, found) ↦
        ground (arith, at-probe_peers ns.node_id before nets now ns.peers id, found, off ps found)
  ]

  refused_by_engine :
      (e : Engine Float) (id : String) (draw : Float)
      → (not e.crashed && not (is_partitioned e id)) ≡ false
      → ((before_send floats (some e) id draw).allow ≡ false)
        × ((before_probe (some e) id).allow ≡ false)
  refused_by_engine e id draw cut = ground (arith, decisions floats e id draw, cut)

  -- While the engine of a node cuts off a peer, because the node is crashed or the peer is in its
  -- partitions, a Send to it calls nothing and returns nil, as it does for a delivered envelope, or
  -- the error that the peer is not found where the session has none of that id; neither that Send
  -- nor a round of probes changes what is known of the peer, its health included, and the Send
  -- changes no other peer either. The peer that stands under the id, if any, has it for its own.
  pub cut_off_unchanged :
      {Bytes : Type 0} (e : Engine Float) (draw : Float) (ns : NodeSession) (env : Envelope Bytes)
      (cut_short : Bool) (net : Network) (nets : String → Network) (now : ℕ)
      → ((ps : PeerState) → at ns.peers env.to ≡ some ps → ps.id ≡ env.to)
      → (not e.crashed && not (is_partitioned e env.to)) ≡ false
      → let sent = send ns env (λ peer. before_send floats (some e) peer draw) cut_short net now in
        let ticked = probe_tick (before_tick (some e)) (before_probe (some e)) nets now ns in
        (sent.0.error ≡ error_of (at ns.peers env.to))
        × (sent.0.calls ≡ [])
        × ((id : String) → at sent.1.peers id ≡ at ns.peers id)
        × (at ticked.peers env.to ≡ at ns.peers env.to)
  cut_off_unchanged e draw ns env cut_short net nets now v cut =
      let (unsent, unprobed) = refused_by_engine e env.to draw cut in
      let own : (ps : PeerState) → at ns.peers env.to ≡ some ps → env.to ≡ ps.id =
        λ ps found. sym (v ps found) in
      let (answer, rest) =
        send-blocked ns env (λ peer. before_send floats (some e) peer draw) cut_short net now
          (λ ps found.
            subst (λ i. (before_send floats (some e) i draw).allow ≡ false) (own ps found)
              unsent) in
      (
        ap (λ s. s.error) answer,
        ap (λ s. s.calls) answer,
        rest,
        probe_tick-blocked (before_tick (some e)) (before_probe (some e)) nets now ns env.to
            (λ ps found.
              subst (λ i. (before_probe (some e) i).allow ≡ false) (own ps found) unprobed),
      )
