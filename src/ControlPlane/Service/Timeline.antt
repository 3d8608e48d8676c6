-- ===== src/ControlPlane/Service/Timeline.antt =====
-- internal/controlplane/service/service.go: the log lines of the nodes that BroadcastLog counts and
-- reads, and the text that emitTimelineEvent of internal/node/protocol/gossip/gossip.go writes. The
-- listeners that get each line are left out.
pub mod RoundTrip
use Prim.Native.String.{◌++◌}
use Prim.Native.String.append
use faultlab.Prelude.{
  ℕ, zero, ◌+◌, ◌*◌, ◌%◌, ◌^◌, ◌<◌, ◌≡◌, refl, ap, ◌∙◌, String, true, Option, none, some, List, [],
  ◌∷◌, if◌then◌else◌, ℤ, pos, negsuc, insert, atoi_value, magnitude, decimal, print_int, split_on,
  cut_prefix, has_substring, arith,
}
use faultlab.Prelude.GoStrings.Decimal.{
  lacks, split_on-append, split_on-lacks, IsInt64, atoi_value-print_int, magnitude-decimal,
  lacks-decimal, lacks-print_int,
}
use faultlab.Runtime.Logger.{Logger, printf}
use faultlab.Metrics.{TimelineEvent}
use faultlab.Metrics.Sessions.{record_timeline_event}
use faultlab.ControlPlane.Service.{Service, uint64_size, counter}

-- `timestamp` is in milliseconds.
pub record LogRequest : Type 0 where
  pub cluster_id : String
  pub node_id : String
  pub message : String
  pub timestamp : ℤ

unfoldable pub event_from :
    String → String → String → String → String → String → String → ℕ → ℤ → TimelineEvent
event_from node_id event_type key value version origin source round lww = record {
  time = 0;
  node_id = node_id;
  key = key;
  value = value;
  version = atoi_value version;
  origin = origin;
  source = source;
  event_type = event_type;
  round = round;
  lww_timestamp = lww;
}

-- The parts of a line; `none` where there are fewer than six.
unfoldable pub event_of : String → List String → Option TimelineEvent
unfolding event_from
event_of node (t ∷ k ∷ v ∷ n ∷ o ∷ s ∷ []) = some (event_from node t k v n o s 0 (pos 0))
event_of node (t ∷ k ∷ v ∷ n ∷ o ∷ s ∷ r ∷ []) =
    some (event_from node t k v n o s (magnitude r) (pos 0))
event_of node (t ∷ k ∷ v ∷ n ∷ o ∷ s ∷ r ∷ l ∷ rest) =
    some (event_from node t k v n o s (magnitude r) (atoi_value l))
event_of node _ = none

-- The wall clock of a line: its timestamp if it has one.
unfoldable pub clock_of : ℤ → ℕ → ℕ
clock_of (pos zero) now = now
clock_of (pos ms) now = ms * 1_000_000
clock_of (negsuc _) now = now

unfoldable pub text_of : String → String
text_of message = elim (cut_prefix "TL_EVENT:" message) [ none ↦ message | some raw ↦ raw ]

module _ {Float : Type 0} where
  -- handleTimelineLog
  unfoldable pub handle_timeline_log : Service Float → LogRequest → ℕ → Service Float
  unfolding event_of clock_of text_of
  handle_timeline_log s req now =
      elim (event_of req.node_id (split_on b'|' (text_of req.message))) [
        | none ↦ s
        | some event ↦ record s {
          metrics =
              (record_timeline_event s.metrics req.cluster_id event.key (clock_of req.timestamp now)
                event).1;
        }
      ]

  -- BroadcastLog of a request that is not nil
  unfoldable pub broadcast_log : Service Float → LogRequest → ℕ → Service Float
  broadcast_log s req now =
      let s' =
        if has_substring req.message "TRACE:SEND:"
        then record s {
          total_rpcs =
              insert s.total_rpcs req.cluster_id
                ((counter s.total_rpcs req.cluster_id + 1) % uint64_size);
        }
        else s in
      elim (cut_prefix "TL_EVENT:" req.message) [
        | none ↦ s'
        | some _ ↦ handle_timeline_log s' req now
      ]

-- The message of emitTimelineEvent, with the clock in milliseconds as the round.
unfoldable pub timeline_message : String → String → String → ℤ → String → String → ℕ → ℤ → String
timeline_message event_type key value version origin source round lww =
    "TL_EVENT:"
    ++ (event_type
        ++ ("|"
            ++ (key
                ++ ("|"
                    ++ (value
                        ++ ("|"
                            ++ (print_int version
                                ++ ("|"
                                    ++ (origin
                                        ++ ("|"
                                            ++ (source
                                                ++ ("|"
                                                    ++ (decimal round
                                                        ++ ("|" ++ print_int lww))))))))))))))

-- emitTimelineEvent: the message that the logger, if there is one, reports.
unfoldable pub emit_timeline_event :
    (String → String)
    → Option Logger
    → String
    → String
    → String
    → ℤ
    → String
    → String
    → ℕ
    → ℤ
    → Option String
unfolding timeline_message
emit_timeline_event sprintf none event_type key value version origin source now ts = none
emit_timeline_event sprintf (some l) event_type key value version origin source now ts =
    printf sprintf l (timeline_message event_type key value version origin source now ts)
