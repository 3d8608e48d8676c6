-- ===== src/Gossip/Value.antt =====
-- Stored values, their digest entries and the two comparisons: types.go, conflict_resolution.go
-- and propagation.go.
pub mod Order
use faultlab.Prelude.{
  String, Bool, true, false, not, ◌=ℤ=◌, [], if◌then◌else◌, ℤ, pos, negsuc, ltb_ℤ, str_ltb,
  insert_all,
}
use faultlab.Gossip.Clock.{Clock, vector_clock_compare}

-- `datum` is the field Data; the numbers are int64.
pub record Value : Type 0 where
  pub datum : String
  pub version : ℤ
  pub origin : String
  pub timestamp : ℤ
  pub vector_clock : Clock

pub record DigestEntry : Type 0 where
  pub version : ℤ
  pub origin : String
  pub timestamp : ℤ
  pub vector_clock : Clock

-- valueToDigestEntry
unfoldable pub value_to_digest_entry : Value → DigestEntry
value_to_digest_entry v = record {
  version = v.version;
  origin = v.origin;
  timestamp = v.timestamp;
  vector_clock = insert_all [] v.vector_clock;
}

-- isIncomingNewer
unfoldable pub is_incoming_newer : Value → Value → Bool
is_incoming_newer local incoming =
    let vc_cmp = vector_clock_compare local.vector_clock incoming.vector_clock in
    if ltb_ℤ (pos 0) vc_cmp
    then false
    else if ltb_ℤ vc_cmp (pos 0)
    then true
    else if ltb_ℤ local.timestamp incoming.timestamp
    then true
    else if ltb_ℤ incoming.timestamp local.timestamp
    then false
    else if str_ltb local.origin incoming.origin
    then true
    else if str_ltb incoming.origin local.origin
    then false
    else ltb_ℤ local.version incoming.version

-- compareValueToDigest
unfoldable pub compare_value_to_digest : Value → DigestEntry → ℤ
compare_value_to_digest local remote =
    let vc_cmp = vector_clock_compare local.vector_clock remote.vector_clock in
    if not (vc_cmp =ℤ= pos 0)
    then vc_cmp
    else if ltb_ℤ remote.timestamp local.timestamp
    then pos 1
    else if ltb_ℤ local.timestamp remote.timestamp
    then negsuc 0
    else if str_ltb remote.origin local.origin
    then pos 1
    else if str_ltb local.origin remote.origin
    then negsuc 0
    else if ltb_ℤ remote.version local.version
    then pos 1
    else if ltb_ℤ local.version remote.version
    then negsuc 0
    else pos 0
