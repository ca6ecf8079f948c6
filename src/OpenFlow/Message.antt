-- ===== src/OpenFlow/Message.antt =====
-- openflow_protocol.go: message framing, hello and features, errors, multipart replies, and the
-- choice among protocol versions.
pub mod Framing
pub mod Versions
use ovnflow.Base.{
  ℕ, zero, suc, ◌+◌, ◌-◌, ◌*◌, ◌^◌, Bool, true, false, ◌&&◌, ◌||◌, not, Option, none, some,
}
use ovnflow.Base.{
  List, [], ◌∷◌, ◌++◌, length, take, drop, any, ltb, leb, ◌==◌, if◌then◌else◌, String,
}
use ovnflow.Base.Sort.{sort_by}
use ovnflow.Text.{Text, codes}
use ovnflow.Errors.{
  ErrorKind, validation, unsupported, Error, wrap, Result, ok, err, ◌>>=◌, ◌>>◌, fail_if,
}
use ovnflow.OpenFlow.Bytes.{Bytes, be16, be32, get16, get32, get_be}
use Prim.Native.Nat.{bit_or}

-- Versions are bytes; these two are supported.
abbrev pub openflow_13 : ℕ
openflow_13 = 0x04

abbrev pub openflow_15 : ℕ
openflow_15 = 0x06

pub record Message : Type 0 where
  pub version : ℕ
  pub kind : ℕ
  pub xid : ℕ
  pub body : Bytes

pub record Features : Type 0 where
  pub version : ℕ
  pub xid : ℕ
  pub datapath_id : ℕ
  pub buffers : ℕ
  pub tables : ℕ
  pub auxiliary_id : ℕ
  pub capabilities : ℕ

pub record ProtocolError : Type 0 where
  pub version : ℕ
  pub xid : ℕ
  pub kind : ℕ
  pub code : ℕ
  pub content : Bytes

abbrev pub flow_error : ErrorKind → String → String → String → Error
flow_error kind op object message = wrap kind "" op (codes object) message false

abbrev pub is_version : ℕ → Bool
is_version version = version == openflow_13 || version == openflow_15

unfoldable pub validate_version : ℕ → Result (Unit {0})
validate_version version =
    fail_if (not (is_version version))
      (flow_error unsupported "validate" "openflow-version" "unsupported OpenFlow version")

unfoldable pub marshal_message : Message → Result Bytes
marshal_message msg = do
  validate_version msg.version
  let length = 8 + length msg.body
  fail_if (ltb 0xffff length) (flow_error validation "marshal" "openflow" "message is too large")
  ok (msg.version ∷ msg.kind ∷ (be16 length ++ (be32 msg.xid ++ msg.body)))

-- What `ParseOpenFlowMessage` makes of the eight bytes of a header and the bytes behind them.
unfoldable pub parse_frame : ℕ → ℕ → ℕ → ℕ → Bytes → Result Message
parse_frame version kind length xid rest = do
  validate_version version
  fail_if (ltb length 8)
      (flow_error validation "parse" "openflow" "invalid OpenFlow message length")
  fail_if (ltb (8 + ovnflow.Base.length rest) length)
      (flow_error validation "parse" "openflow" "truncated OpenFlow message")
  ok (record { version = version; kind = kind; xid = xid; body = take (length - 8) rest })

unfoldable pub parse_message : Bytes → Result Message
parse_message (v ∷ t ∷ l₁ ∷ l₂ ∷ x₁ ∷ x₂ ∷ x₃ ∷ x₄ ∷ rest) =
    parse_frame v t (get16 l₁ l₂) (get32 x₁ x₂ x₃ x₄) rest
parse_message _ = err (flow_error validation "parse" "openflow" "short OpenFlow header")

-- A reader is the bytes that are still to come. `end_of_input` stands for the error of
-- `io.ReadFull` when too few are left.
pub data ReadResult : Type 0 where
  message : Message → Bytes → ReadResult
  failed : Error → ReadResult
  end_of_input : ReadResult

abbrev pub read_result : Result Message → Bytes → ReadResult
read_result (ok msg) rest = message msg rest
read_result (err e) rest = failed e

unfoldable pub read_message : Bytes → ReadResult
read_message (v ∷ t ∷ l₁ ∷ l₂ ∷ x₁ ∷ x₂ ∷ x₃ ∷ x₄ ∷ rest) =
    let length = get16 l₁ l₂ in
    let body = take (length - 8) rest in
    if ltb length 8
    then failed (flow_error validation "read" "openflow" "invalid OpenFlow message length")
    else if ltb (ovnflow.Base.length rest) (length - 8)
    then end_of_input
    else read_result (parse_message (v ∷ t ∷ l₁ ∷ l₂ ∷ x₁ ∷ x₂ ∷ x₃ ∷ x₄ ∷ body))
        (drop (length - 8) rest)
read_message _ = end_of_input

-- `WriteOpenFlowMessage` to a writer that has taken the bytes `written`.
unfoldable pub write_message : Bytes → Message → Result Bytes
write_message written msg = do bytes ← marshal_message msg; ok (written ++ bytes)

-- The bitmap of the versions that a hello names; every version is checked first.
unfoldable pub hello_bitmap : ℕ → List ℕ → Result ℕ
hello_bitmap bitmap [] = ok bitmap
hello_bitmap bitmap (v ∷ versions) = do
  validate_version v
  hello_bitmap (if ltb v 32 then bit_or bitmap (2 ^ v) else bitmap) versions

unfoldable pub hello_message : ℕ → ℕ → List ℕ → Result Message
hello_message version xid [] = do
  validate_version version
  ok (record { version = version; kind = 0; xid = xid; body = [] })
hello_message version xid (v ∷ versions) = do
  validate_version version
  bitmap ← hello_bitmap 0 (v ∷ versions)
  ok (record { version = version; kind = 0; xid = xid; body = be16 1 ++ (be16 8 ++ be32 bitmap) })

unfoldable pub features_request : ℕ → ℕ → Result Message
features_request version xid = do
  validate_version version
  ok (record { version = version; kind = 5; xid = xid; body = [] })

abbrev slice : Bytes → ℕ → ℕ → ℕ
slice body from count = get_be (take count (drop from body)) 0

unfoldable pub parse_features : Message → Result Features
parse_features msg = do
  fail_if (not (msg.kind == 6))
      (flow_error validation "parse" "features" "message is not a features reply")
  fail_if (ltb (length msg.body) 24)
      (flow_error validation "parse" "features" "short features reply")
  ok (record {
    version = msg.version;
    xid = msg.xid;
    datapath_id = slice msg.body 0 8;
    buffers = slice msg.body 8 4;
    tables = slice msg.body 12 1;
    auxiliary_id = slice msg.body 13 1;
    capabilities = slice msg.body 16 4;
  })

unfoldable pub parse_protocol_error : Message → Result ProtocolError
parse_protocol_error msg = do
  fail_if (not (msg.kind == 1)) (flow_error validation "parse" "error" "message is not an error")
  fail_if (ltb (length msg.body) 4) (flow_error validation "parse" "error" "short OpenFlow error")
  ok (record {
    version = msg.version;
    xid = msg.xid;
    kind = slice msg.body 0 2;
    code = slice msg.body 2 2;
    content = drop 4 msg.body;
  })

unfoldable pub parse_multipart_reply : Message → Result (ℕ × ℕ × Bytes)
parse_multipart_reply msg = do
  fail_if (not (msg.kind == 19))
      (flow_error validation "parse" "multipart" "message is not a multipart reply")
  fail_if (ltb (length msg.body) 8)
      (flow_error validation "parse" "multipart" "short multipart reply")
  ok (slice msg.body 0 2, slice msg.body 2 2, drop 8 msg.body)

-- `highestOpenFlowVersion`: the loop behind the first version.
unfoldable pub highest_from : ℕ → List ℕ → ℕ
highest_from out [] = out
highest_from out (version ∷ versions) =
    highest_from (if ltb out version then version else out) versions

unfoldable pub highest_version : List ℕ → ℕ
highest_version [] = openflow_15
highest_version (version ∷ versions) = highest_from version versions

-- The loop of `normalizeOpenFlowVersions`: `out` is what has been seen.
unfoldable pub distinct_versions : List ℕ → List ℕ → Result (List ℕ)
distinct_versions out [] = ok out
distinct_versions out (version ∷ versions) = do
  validate_version version
  distinct_versions (if any (λ v. v == version) out then out else out ++ (version ∷ [])) versions

unfoldable pub normalize_versions : List ℕ → Result (List ℕ)
normalize_versions [] = do
  out ← distinct_versions [] (openflow_15 ∷ openflow_13 ∷ [])
  ok (sort_by (λ a b. ltb b a) out)
normalize_versions (v ∷ versions) = do
  out ← distinct_versions [] (v ∷ versions)
  ok (sort_by (λ a b. ltb b a) out)
