-- ===== src/Baseline/Messages.antt =====
-- What a message does to the failure detector's view of its sender, and to incarnations.
use faultlab.Prelude.{
  ◌≡◌, ◌≢◌, ◌⊎◌, inl, inr, ◌∙◌, refl, ℕ, ◌+◌, ◌%◌, ◌^◌, ◌<◌, ◌≤◌, String, true, Option, none, some,
  List, [], ◌∷◌, ◌++◌, ◌&&◌, ◌||◌, arith, if◌then◌else◌, ℤ, ◌=ℤ=◌, at, insert, eq_iff, eq_refl,
  ◌==◌, cut_first, Bool-cases, ap,
}
use faultlab.Protocol.{Codec, Envelope}
use faultlab.Gossip.Peers.{has_peer}
use faultlab.Baseline.{
  alive, suspect, dead, MembershipEvent, BaselineProtocol, number_at, status_at, sender_of,
  discover, mark_seen, receive, on_message, apply_event,
}
use faultlab.Baseline.Ticks.{status_at-insert, number_at-insert}
use faultlab.Baseline.Timeline.{ticks, silent_status, status_at-ticks}

-- The id of an envelope's sender.
abbrev pub sender_id : String → String
sender_id from = (sender_of from (cut_first b'@' from)).0

-- One of the three statuses that the code sets itself.
abbrev pub IsNamed : ℤ → Type 0
IsNamed s = (s ≡ alive) ⊎ (s ≡ suspect) ⊎ (s ≡ dead)

-- The state in which a message from the known node `p` is read.
mark_seen_lem :
    (b : BaselineProtocol) (p q : String)
    → (number_at (mark_seen b p).last_seen q ≡ (if p == q then b.tick else number_at b.last_seen q))
      × (status_at (mark_seen b p).status q ≡ (
          let s = status_at b.status q in
          if p == q && (s =ℤ= suspect || s =ℤ= dead) then alive else s))
unfolding mark_seen
mark_seen_lem b p q = (
  number_at-insert b.last_seen p b.tick q,
  ground (arith, eq_iff p q, status_at-insert b.status p alive q),
)

has_peer-last : (ps : List String) (p : String) → has_peer (ps ++ (p ∷ [])) p ≡ true
unfolding has_peer
has_peer-last [] p = rw (eq_refl p)
has_peer-last (q ∷ ps) p = ground (arith, has_peer-last ps p)

module _ (json : Codec MembershipEvent) where
  open json use {Bytes, decode}

  known-on_message :
      (b : BaselineProtocol) (env : Envelope Bytes) (n : ℕ)
      → sender_id env.from ≢ b.node_id
      → at b.last_seen (sender_id env.from) ≡ some n
      → (on_message json b env).node
        ≡ (receive json (mark_seen b (sender_id env.from)) (decode env.payload)).0
  unfolding on_message discover
  known-on_message b env n other known = elim (Bool-cases (sender_id env.from == b.node_id)) [
    | inl e ↦ absurd (other ((eq_iff (sender_id env.from) b.node_id).0 e))
    | inr e ↦ rw (e, known) refl
  ]

  -- A message that is no membership event, from another node that was seen before, is in the list
  -- of peers and counts as alive, suspect or dead, starts that node's timeline anew, however long
  -- it was silent: alive for as many ticks as the limit says, then suspect, then dead, as long as
  -- the counter does not overflow.
  pub on_message-ticks :
      (beat : Bytes) (k : ℕ) (b : BaselineProtocol) (env : Envelope Bytes) (n : ℕ)
      → sender_id env.from ≢ b.node_id
      → at b.last_seen (sender_id env.from) ≡ some n
      → has_peer b.peers (sender_id env.from) ≡ true
      → IsNamed (status_at b.status (sender_id env.from))
      → decode env.payload ≡ none
      → b.tick + k < 2 ^ 64
      → status_at (ticks json beat k (on_message json b env).node).status (sender_id env.from)
        ≡ silent_status b.timeout_ticks k
  unfolding receive mark_seen
  on_message-ticks beat k b env n other known peer named no_event bound =
      let p = sender_id env.from in
      let marked = mark_seen b p in
      let arrived =
        known-on_message b env n other known ∙ ap (λ ev. (receive json marked ev).0) no_event in
      let (seen, s) = mark_seen_lem b p p in
      rw arrived (
        status_at-ticks json beat k marked p bound peer (s ∙ ground (arith, eq_refl p))
          (seen ∙ ground (arith, eq_refl p)))

  unknown-on_message :
      (b : BaselineProtocol) (env : Envelope Bytes)
      → sender_id env.from ≢ b.node_id
      → at b.last_seen (sender_id env.from) ≡ none
      → decode env.payload ≡ none
      → (on_message json b env).node ≡ (
          let p = sender_id env.from in
          mark_seen
            (record b {
              peers = b.peers ++ (p ∷ []);
              last_seen = insert b.last_seen p b.tick;
              status = insert b.status p alive;
              incarnation = insert b.incarnation p 0;
            })
            p)
  unfolding on_message discover receive
  unknown-on_message b env other unknown no_event =
      elim (Bool-cases (sender_id env.from == b.node_id)) [
        | inl e ↦ absurd (other ((eq_iff (sender_id env.from) b.node_id).0 e))
        | inr e ↦ rw (e, unknown, no_event) refl
      ]

  -- Another node that was never seen becomes a peer by its first message, if this is no membership
  -- event, and its timeline starts there, as long as the counter does not overflow.
  pub on_message-discovers :
      (beat : Bytes) (k : ℕ) (b : BaselineProtocol) (env : Envelope Bytes)
      → sender_id env.from ≢ b.node_id
      → at b.last_seen (sender_id env.from) ≡ none
      → decode env.payload ≡ none
      → b.tick + k < 2 ^ 64
      → (has_peer (on_message json b env).node.peers (sender_id env.from) ≡ true)
        × (status_at (ticks json beat k (on_message json b env).node).status (sender_id env.from)
            ≡ silent_status b.timeout_ticks k)
  unfolding mark_seen
  on_message-discovers beat k b env other unknown no_event bound =
      let p = sender_id env.from in
      let joined = record b {
        peers = b.peers ++ (p ∷ []);
        last_seen = insert b.last_seen p b.tick;
        status = insert b.status p alive;
        incarnation = insert b.incarnation p 0;
      } in
      let arrived = unknown-on_message b env other unknown no_event in
      let (seen, s) = mark_seen_lem joined p p in
      let fresh = status_at-insert b.status p alive p in
      let peer = has_peer-last b.peers p in
      (
        rw arrived peer,
        rw arrived (
            status_at-ticks json beat k (mark_seen joined p) p bound peer
              (s ∙ ground (arith, eq_refl p)) (seen ∙ ground (arith, eq_refl p))),
      )

  receive-incarnation :
      (b : BaselineProtocol) (ev : Option MembershipEvent) (q : String)
      → number_at b.incarnation b.node_id + 1 < 2 ^ 64
      → number_at b.incarnation q ≤ number_at (receive json b ev).0.incarnation q
  unfolding receive apply_event
  receive-incarnation b none q bound = omega arith
  receive-incarnation b (some ev) q bound = ground (
    arith,
    eq_iff b.node_id q,
    eq_iff ev.subject q,
    number_at-insert b.incarnation b.node_id ((number_at b.incarnation b.node_id + 1) % 2 ^ 64) q,
    number_at-insert b.incarnation ev.subject ev.incarnation q,
  )

  -- No message of another node that was seen before lowers an incarnation, as long as the own one
  -- does not overflow.
  pub on_message-incarnation :
      (b : BaselineProtocol) (env : Envelope Bytes) (n : ℕ) (q : String)
      → sender_id env.from ≢ b.node_id
      → at b.last_seen (sender_id env.from) ≡ some n
      → number_at b.incarnation b.node_id + 1 < 2 ^ 64
      → number_at b.incarnation q ≤ number_at (on_message json b env).node.incarnation q
  unfolding mark_seen
  on_message-incarnation b env n q other known bound =
      rw (known-on_message b env n other known)
        (receive-incarnation (mark_seen b (sender_id env.from)) (decode env.payload) q bound)
