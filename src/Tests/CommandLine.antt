-- ===== src/Tests/CommandLine.antt =====
-- The command parser at concrete inputs. The texts that are a float64 are the digits' own here.
use faultlab.Prelude.{◌≡◌, inl, inr, refl, pos, atoi, fields}
use faultlab.ControlPlane.{new_command, cmd_kv_put}
use faultlab.ControlPlane.Parser.{parse, usage, unknown_command, missing_value}

-- Runs of the parser.
parse_runs :
    (parse (pos 0) atoi "kv-put lab n1 x 5"
      ≡ inr (record (new_command (pos 0) cmd_kv_put) {
        cluster_id = "lab";
        node_id = "n1";
        key = "x";
        value = "5";
      }))
    × (parse (pos 0) atoi "kv-get lab n1" ≡ inl usage)
    × (parse (pos 0) atoi "start-node n1 7001 --host" ≡ inl missing_value)
    × (parse (pos 0) atoi "dance" ≡ inl unknown_command)
unfolding parse fields atoi new_command
parse_runs = (refl, refl, refl, refl)
