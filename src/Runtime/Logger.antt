-- ===== src/Runtime/Logger.antt =====
-- internal/node/runtime/logger.go: what Printf reports to the control plane. fmt.Sprintf is an
-- argument; the local output is left out.
use Prim.Native.Char.{Char, code}
use Prim.Native.String.{◌++◌}
use Prim.Native.String.append
use faultlab.Prelude.{
  ℕ, ◌≡◌, refl, ◌=ℕ=◌, String, Bool, true, false, Option, none, some, if◌then◌else◌, arith,
}
use faultlab.Prelude.GoStrings.Decimal.{lacks, lacks-append}

-- `connected` is whether cp is not nil.
pub record Logger : Type 0 where
  pub node_id : String
  pub connected : Bool
  pub prefix : String

abbrev pub newline : ℕ
newline = 10

-- The last character of a text, `k` where it is empty.
abbrev pub last_code : ℕ → String → ℕ
last_code k String.[] = k
last_code k (String.◌∷◌ c s) = last_code (code c) s

drop_last_from : Char → String → String
drop_last_from c String.[] = ""
drop_last_from c (String.◌∷◌ d s) = String.◌∷◌ c (drop_last_from d s)

drop_last : String → String
unfolding drop_last_from
drop_last String.[] = ""
drop_last (String.◌∷◌ c s) = drop_last_from c s

-- A text without its last newline.
unfoldable pub clean_message : String → String
unfolding drop_last
clean_message msg = if last_code 0 msg =ℕ= newline then drop_last msg else msg

-- Printf with a format and no arguments: the message of ReportLog.
unfoldable pub printf : (String → String) → Logger → String → Option String
unfolding clean_message
printf sprintf l format = if l.connected then some (clean_message (sprintf format)) else none

-- What is reported as it stands: no verb in it, and no newline at its end.
pub record IsLine (t : String) : Type 0 where
  pub no_verb : lacks b'%' t ≡ true
  pub ended : (k : ℕ) → (last_code k t =ℕ= newline) ≡ false

last_code-append : (k : ℕ) (s t : String) → last_code k (s ++ t) ≡ last_code (last_code k s) t
last_code-append k String.[] t = rw (append.nil t) refl
last_code-append k (String.◌∷◌ c s) t = rw (append.cons c s t) (last_code-append (code c) s t)

pub append-IsLine : (s t : String) → lacks b'%' s ≡ true → IsLine t → IsLine (s ++ t)
append-IsLine s t h line = record {
  no_verb = ground (arith, lacks-append b'%' s t, h, line.no_verb);
  ended = λ k. rw (last_code-append k s t) (line.ended (last_code k s));
}

pub last_code-lacks :
    (k : ℕ) (t : String)
    → lacks newline t ≡ true
    → (k =ℕ= newline) ≡ false
    → (last_code k t =ℕ= newline) ≡ false
last_code-lacks k String.[] h e = e
last_code-lacks k (String.◌∷◌ c t) h e =
    last_code-lacks (code c) t (ground (arith, h)) (ground (arith, h))

-- Printf of a line reports just that line, where Sprintf changes no text that has no verb.
pub printf-IsLine :
    (sprintf : String → String) (l : Logger) (t : String)
    → ((s : String) → lacks b'%' s ≡ true → sprintf s ≡ s)
    → l.connected ≡ true
    → IsLine t
    → printf sprintf l t ≡ some t
unfolding printf clean_message
printf-IsLine sprintf l t plain on line = rw (on, plain t line.no_verb, line.ended 0) refl
