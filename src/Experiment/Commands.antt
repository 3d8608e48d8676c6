-- ===== src/Experiment/Commands.antt =====
-- The commands of a compiled experiment, read by the control plane's parser.
use faultlab.Prelude.{
  ◌≡◌, refl, ap, ◌∙◌, String, Bool, true, false, Option, some, List, [], ◌∷◌, map, All, inl, inr, ℤ,
  print_int, join, arith, nonempty,
}
use faultlab.Prelude.GoStrings.Words.{IsWord, is_solid, fields-join, fields-join_words}
use faultlab.Prelude.GoStrings.Decimal.{IsInt64, atoi-print_int, print_int-IsWord}
use faultlab.Experiment.{TimelineStep}
use faultlab.Experiment.Compile.{kv_put_command, partition_command, bool_text, start_node_command}
use faultlab.ControlPlane.{new_command, cmd_kv_put, cmd_set_partition, cmd_start_node_process}
use faultlab.ControlPlane.Parser.{unknown_option, parse_words, parse, is_option}

module _ {Float : Type 0} (zero_rate : Float) (parse_float : String → Option Float) where
  parse-words :
      (w : String) (ws : List String)
      → All IsWord (w ∷ ws)
      → parse zero_rate parse_float (join " " (w ∷ ws)) ≡ parse_words zero_rate parse_float (w ∷ ws)
  unfolding parse
  parse-words w ws h = ap (parse_words zero_rate parse_float) (fields-join_words w ws h)

  -- The command of a write step is read back with the step's cluster, node and key; of a value of
  -- several words, joined by single blanks, only the first is read. No part may hold a blank or be
  -- empty.
  pub parse-kv_put_command :
      (c n v : String) (ws : List String) (s : TimelineStep)
      → All IsWord (c ∷ n ∷ s.key ∷ v ∷ ws)
      → s.value ≡ join " " (v ∷ ws)
      → parse zero_rate parse_float (kv_put_command c s n)
        ≡ inr (record (new_command zero_rate cmd_kv_put) {
          cluster_id = c;
          node_id = n;
          key = s.key;
          value = v;
        })
  unfolding kv_put_command join parse_words
  parse-kv_put_command c n v ws s h e =
      rw e
        (parse-words "kv-put" (c ∷ n ∷ s.key ∷ v ∷ ws) ((unfold is_solid in refl, refl), h) ∙ refl)

  -- The commands of a partition step are read back with the cluster, the two nodes and the
  -- direction, where none of these is empty or holds a blank.
  pub parse-partition_command :
      (c l r : String) (enabled : Bool)
      → All IsWord (c ∷ l ∷ r ∷ [])
      → parse zero_rate parse_float (partition_command c enabled l r)
        ≡ inr (record (new_command zero_rate cmd_set_partition) {
          cluster_id = c;
          node_id = l;
          peer_id = r;
          enabled = enabled;
        })
  unfolding partition_command bool_text parse_words
  parse-partition_command c l r true (hc, (hl, (hr, _))) =
      parse-words "fault-partition" (c ∷ l ∷ r ∷ "true" ∷ [])
        ((unfold is_solid in refl, refl), (hc, (hl, (hr, ((unfold is_solid in refl, refl), tt)))))
  parse-partition_command c l r false (hc, (hl, (hr, _))) =
      parse-words "fault-partition" (c ∷ l ∷ r ∷ "false" ∷ [])
        ((unfold is_solid in refl, refl), (hc, (hl, (hr, ((unfold is_solid in refl, refl), tt)))))

  module _ (c id host cp_host : String) (port cp_port : ℤ) (valid : IsInt64 port)
      (cp_valid : IsInt64 cp_port) (hc : IsWord c) (hid : IsWord id) (hh : IsWord host)
      (hcp : IsWord cp_host) where
    start_words : String → List String
    start_words peers =
        id
        ∷ print_int port
        ∷ "--cluster-id"
        ∷ c
        ∷ "--host"
        ∷ host
        ∷ "--peers"
        ∷ peers
        ∷ "--cp-host"
        ∷ cp_host
        ∷ "--cp-port"
        ∷ print_int cp_port
        ∷ []

    are_words : (peers : String) → IsWord peers → All IsWord ("start-node" ∷ start_words peers)
    unfolding start_words is_solid
    are_words peers h = (
      (refl, refl),
      (
        hid,
        (
          print_int-IsWord port,
          (
            (refl, refl),
            (
              hc,
              (
                (refl, refl),
                (
                  hh,
                  (
                    (refl, refl),
                    (h, ((refl, refl), (hcp, ((refl, refl), (print_int-IsWord cp_port, tt))))),
                  ),
                ),
              ),
            ),
          ),
        ),
      ),
    )

    start_read :
        (peers : String)
        → parse_words zero_rate parse_float ("start-node" ∷ start_words peers)
          ≡ inr (record (new_command zero_rate cmd_start_node_process) {
            cluster_id = c;
            node_id = id;
            port = port;
            host = host;
            peers_csv = peers;
            cp_host = cp_host;
            cp_port = cp_port;
          })
    unfolding start_words parse_words
    start_read peers = ground (arith, atoi-print_int port valid, atoi-print_int cp_port cp_valid)

    -- The command that starts a member with its list of peers is read back with all its parts,
    -- where these are not empty and hold no blanks, and the ports are within int64.
    pub parse-start_node_command :
        (peers : String)
        → IsWord peers
        → map
            (parse zero_rate parse_float)
            (start_node_command c cp_host cp_port peers (some (id, port, host)) [])
          ≡ inr (record (new_command zero_rate cmd_start_node_process) {
            cluster_id = c;
            node_id = id;
            port = port;
            host = host;
            peers_csv = peers;
            cp_host = cp_host;
            cp_port = cp_port;
          })
            ∷ []
    unfolding start_node_command start_words
    parse-start_node_command peers h =
        ap (λ x. x ∷ [])
          (parse-words "start-node" (start_words peers) (are_words peers h) ∙ start_read peers)

    without_peers :
        nonempty ("start-node" ∷ start_words "")
        ≡ "start-node"
          ∷ id
          ∷ print_int port
          ∷ "--cluster-id"
          ∷ c
          ∷ "--host"
          ∷ host
          ∷ "--peers"
          ∷ "--cp-host"
          ∷ cp_host
          ∷ "--cp-port"
          ∷ print_int cp_port
          ∷ []
    unfolding start_words nonempty
    without_peers = rw hid.1 (
        rw (print_int-IsWord port).1
          (rw hc.1 (rw hh.1 (rw hcp.1 (rw (print_int-IsWord cp_port).1 refl)))))

    solid_start : All (λ s. is_solid s ≡ true) ("start-node" ∷ start_words "")
    unfolding start_words is_solid
    solid_start = (
      refl,
      (
        hid.0,
        (
          (print_int-IsWord port).0,
          (
            refl,
            (
              hc.0,
              (
                refl,
                (hh.0, (refl, (refl, (refl, (hcp.0, (refl, ((print_int-IsWord cp_port).0, tt))))))),
              ),
            ),
          ),
        ),
      ),
    )

    swallowed :
        is_option zero_rate parse_float cp_host ≡ false
        → parse_words zero_rate parse_float (nonempty ("start-node" ∷ start_words ""))
          ≡ inl unknown_option
    unfolding parse_words is_option
    swallowed plain =
        ap (parse_words zero_rate parse_float) without_peers
        ∙ ground (arith, atoi-print_int port valid)

    -- The command that starts a member without peers is refused with an unknown option: the option
    -- after the empty list of peers is read as that list. The other parts are not empty and hold no
    -- blanks, the ports are within int64, and the control plane's host is not spelled like an option.
    pub start_without_peers :
        is_option zero_rate parse_float cp_host ≡ false
        → map
            (parse zero_rate parse_float)
            (start_node_command c cp_host cp_port "" (some (id, port, host)) [])
          ≡ inl unknown_option ∷ []
    unfolding start_node_command start_words parse
    start_without_peers plain =
        ap (λ x. x ∷ [])
          (ap (parse_words zero_rate parse_float)
              (fields-join "start-node" (start_words "") solid_start)
            ∙ swallowed plain)
