-- ===== src/ControlPlane/Service/Timeline/RoundTrip.antt =====
-- A timeline event on its way from a gossip node to the control plane.
use Prim.Native.String.{◌++◌}
use Prim.Native.String.append
use faultlab.Prelude.{
  ℕ, ◌^◌, ◌<◌, ◌≡◌, refl, ap, ◌∙◌, String, true, some, [], ◌∷◌, ℤ, decimal, print_int, split_on,
  cut_prefix, arith,
}
use faultlab.Prelude.GoStrings.Decimal.{
  lacks, split_on-append, split_on-lacks, IsInt64, atoi_value-print_int, magnitude-decimal,
  lacks-decimal, lacks-print_int,
}
use faultlab.Prelude.GoStrings.{is_digit}
use faultlab.Runtime.Logger.{Logger, IsLine, append-IsLine, printf-IsLine, last_code-lacks, newline}
use faultlab.ControlPlane.Service.Timeline.{
  event_of, text_of, timeline_message, emit_timeline_event,
}

bar : (t : String) → "|" ++ t ≡ String.◌∷◌ "|" t
bar t = append.cons _ _ t ∙ ap (λ x. String.◌∷◌ "|" x) (append.nil t)

split_on-bar :
    (s t : String) → lacks b'|' s ≡ true → split_on b'|' (s ++ ("|" ++ t)) ≡ s ∷ split_on b'|' t
split_on-bar s t h = rw (bar t) (split_on-append b'|' s "|" t h refl)

cut_prefix-append : (p t : String) → cut_prefix p (p ++ t) ≡ some t
unfolding cut_prefix
cut_prefix-append String.[] t = ap some (append.nil t)
cut_prefix-append (String.◌∷◌ c p) t =
    rw (append.cons c p t) (ground (arith, cut_prefix-append p t))

text_of-event : (t : String) → text_of ("TL_EVENT:" ++ t) ≡ t
unfolding text_of
text_of-event t = ground (arith, cut_prefix-append "TL_EVENT:" t)

event_of-printed :
    (node t k v o s : String) (version lww : ℤ) (round : ℕ)
    → IsInt64 version
    → IsInt64 lww
    → round < 2 ^ 64
    → event_of node (t ∷ k ∷ v ∷ print_int version ∷ o ∷ s ∷ decimal round ∷ print_int lww ∷ [])
      ≡ some (record {
        time = 0;
        node_id = node;
        key = k;
        value = v;
        version = version;
        origin = o;
        source = s;
        event_type = t;
        round = round;
        lww_timestamp = lww;
      })
unfolding event_of
event_of-printed node t k v o s version lww round hn hl hr =
    rw (atoi_value-print_int version hn, atoi_value-print_int lww hl, magnitude-decimal round hr)

-- A text that may stand in a message: the separator and the sign of a verb are not in it.
abbrev pub IsField : String → Type 0
IsField s = (lacks b'|' s ≡ true) × (lacks b'%' s ≡ true)

bar_print_int-IsLine : (v : ℤ) → IsLine ("|" ++ print_int v)
unfolding is_digit
bar_print_int-IsLine v = rw (bar (print_int v)) (record {
  no_verb = ground (arith, lacks-print_int b'%' v refl refl);
  ended = λ k. last_code-lacks b'|' (print_int v) (lacks-print_int newline v refl refl) refl;
})

field-IsLine : (s t : String) → IsField s → IsLine t → IsLine (s ++ ("|" ++ t))
field-IsLine s t f line = append-IsLine s ("|" ++ t) f.1 (append-IsLine "|" t refl line)

number-IsLine : (s t : String) → lacks b'%' s ≡ true → IsLine t → IsLine (s ++ ("|" ++ t))
number-IsLine s t f line = append-IsLine s ("|" ++ t) f (append-IsLine "|" t refl line)

timeline_message-IsLine :
    (t k v o s : String) (version lww : ℤ) (round : ℕ)
    → IsField t
    → IsField k
    → IsField v
    → IsField o
    → IsField s
    → IsLine (timeline_message t k v version o s round lww)
unfolding timeline_message is_digit
timeline_message-IsLine t k v o s version lww round ht hk hv ho hs =
    let tail =
      append-IsLine (decimal round) _ (lacks-decimal b'%' round refl) (bar_print_int-IsLine lww) in
    let places = field-IsLine o _ ho (field-IsLine s _ hs tail) in
    let numbered =
      number-IsLine (print_int version) _ (lacks-print_int b'%' version refl refl) places in
    append-IsLine "TL_EVENT:" _ refl
      (field-IsLine t _ ht (field-IsLine k _ hk (field-IsLine v _ hv numbered)))

event_of-timeline_message :
    (node t k v o s : String) (version lww : ℤ) (round : ℕ)
    → IsField t
    → IsField k
    → IsField v
    → IsField o
    → IsField s
    → IsInt64 version
    → IsInt64 lww
    → round < 2 ^ 64
    → event_of node (split_on b'|' (text_of (timeline_message t k v version o s round lww)))
      ≡ some (record {
        time = 0;
        node_id = node;
        key = k;
        value = v;
        version = version;
        origin = o;
        source = s;
        event_type = t;
        round = round;
        lww_timestamp = lww;
      })
unfolding timeline_message is_digit
event_of-timeline_message node t k v o s version lww round ht hk hv ho hs hn hl hr =
    rw (text_of-event _) (
      rw (split_on-bar t _ ht.0) (
        rw (split_on-bar k _ hk.0) (
          rw (split_on-bar v _ hv.0) (
            rw (split_on-bar (print_int version) _ (lacks-print_int b'|' version refl refl)) (
              rw (split_on-bar o _ ho.0) (
                rw (split_on-bar s _ hs.0) (
                  rw (split_on-bar (decimal round) _ (lacks-decimal b'|' round refl)) (
                    rw (split_on-lacks b'|' (print_int lww) (lacks-print_int b'|' lww refl refl))
                      (event_of-printed node t k v o s version lww round hn hl hr)))))))))

-- With a logger that reports to the control plane, what emitTimelineEvent reports,
-- handleTimelineLog reads back as the event with the same fields, where none of the five texts holds
-- the character `|` or `%`, the numbers are within int64 and uint64, and Sprintf with no arguments
-- leaves a format without `%` as it is.
pub event_of-emit_timeline_event :
    (sprintf : String → String) (l : Logger) (node event_type key value origin source : String)
    (version lww : ℤ) (round : ℕ)
    → ((s : String) → lacks b'%' s ≡ true → sprintf s ≡ s)
    → l.connected ≡ true
    → IsField event_type
    → IsField key
    → IsField value
    → IsField origin
    → IsField source
    → IsInt64 version
    → IsInt64 lww
    → round < 2 ^ 64
    → (message : String) × (emit_timeline_event sprintf
          (some l)
          event_type
          key
          value
          version
          origin
          source
          round
          lww
        ≡ some message)
      × (event_of node (split_on b'|' (text_of message))
          ≡ some (record {
            time = 0;
            node_id = node;
            key = key;
            value = value;
            version = version;
            origin = origin;
            source = source;
            event_type = event_type;
            round = round;
            lww_timestamp = lww;
          }))
unfolding emit_timeline_event
event_of-emit_timeline_event sprintf l node t k v o s version lww round plain on ht hk hv ho hs hn
      hl hr =
    (
      timeline_message t k v version o s round lww,
      printf-IsLine sprintf l _ plain on
          (timeline_message-IsLine t k v o s version lww round ht hk hv ho hs),
      event_of-timeline_message node t k v o s version lww round ht hk hv ho hs hn hl hr,
    )
