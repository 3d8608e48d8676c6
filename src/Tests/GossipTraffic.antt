-- ===== src/Tests/GossipTraffic.antt =====
-- Peers, ticks and digests of the gossip protocol at concrete inputs.
use faultlab.Prelude.{◌≡◌, refl, some, [], ◌∷◌, arith, pos, ◌-◌, cut_first, cut_last, atoi}
use faultlab.Protocol.{Envelope, Codec}
use faultlab.Gossip.State.{GossipMessage}
use faultlab.Gossip.Peers.{parse_sender_address}
use faultlab.Gossip.Digest.{digest_message, tick}
use faultlab.Gossip.Digest.Handlers.{read, Chosen, tick-sends}
use faultlab.Tests.GossipStores.{left}

-- A codec that keeps the message as it is.
abbrev plain : Codec GossipMessage
plain = record {
  Bytes = GossipMessage;
  encode = λ m. m;
  decode = λ m. some m;
  decode-encode = λ m. refl;
}

tick-sends_example :
    (e : Envelope GossipMessage) × ((tick plain left 7 (λ n. n - 1)).1 ≡ e ∷ [])
    × (read plain e ≡ some (digest_message left.store))
    × Chosen left (tick plain left 7 (λ n. n - 1)).0 e.to
    × ((tick plain left 7 (λ n. n - 1)).0.store ≡ left.store)
tick-sends_example = tick-sends plain left 7 (λ n. n - 1) "n2" [] refl (λ n h. omega arith) refl

address_tests :
    (parse_sender_address "n2@localhost:7002" ≡ ("n2", "localhost", pos 7002))
    × (parse_sender_address "n2" ≡ ("n2", "", pos 0))
    × (parse_sender_address "n2@host" ≡ ("n2", "host", pos 0))
    × (parse_sender_address "n2@::1:70x" ≡ ("n2", "::1", pos 0))
unfolding parse_sender_address cut_first cut_last atoi
address_tests = (refl, refl, refl, refl)
