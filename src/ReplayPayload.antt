-- ===== src/ReplayPayload.antt =====
-- packages/mcp-server/src/sn/replay-payload.ts: what the ledger stores of a result, so that a replay can
-- return it.
-- A value of JavaScript is an object with its own keys, or anything else. Text is given by its UTF-8
-- bytes. Parameters: the JSON of a value, or of what replaces one that has none (serializeResult of
-- sandbox/serialize.ts), and `JSON.parse`.
pub mod Laws
use snow_mcp.Common.{
  ℕ, ◌*◌, String, Bool, true, false, ◌&&◌, Option, none, some, List, [], ◌∷◌, str_eq, length, leb,
  ◌==◌, if◌then◌else◌,
}
use snow_mcp.Errors.{Result, ok}
use snow_mcp.Serialize.{Utf8, SerializedResult, capped_json_text}

-- `MUTATION_REPLAY_MAX_BYTES`.
abbrev pub mutation_replay_max_bytes : ℕ
mutation_replay_max_bytes = 96 * 1024

-- The value of a key; a number that is no natural one is kept as it is.
pub data Field (J : Type 0) : Type 0 where
  boolean : Bool → Field J
  natural : ℕ → Field J
  other_number : J → Field J
  text : Utf8 → Field J
  other_field : J → Field J

pub data JsValue (J : Type 0) : Type 0 where
  object : List (String × Field J) → JsValue J
  other_value : J → JsValue J

module _ {J : Type 0} where
  abbrev pub get_field : String → List (String × Field J) → Option (Field J)
  get_field k [] = none
  get_field k ((j, f) ∷ fs) = if str_eq j k then some f else get_field k fs

  -- `keys.includes(k)`.
  abbrev has_key : String → List (String × Field J) → Bool
  has_key k fs = elim (get_field k fs) [ none ↦ false | some f ↦ true ]

  abbrev is_true : Option (Field J) → Bool
  is_true (some (boolean true)) = true
  is_true _ = false

  abbrev is_boolean : Option (Field J) → Bool
  is_boolean (some (boolean b)) = true
  is_boolean _ = false

  abbrev pub is_number : Field J → Bool
  is_number (natural n) = true
  is_number (other_number j) = true
  is_number _ = false

  abbrev is_some_number : Option (Field J) → Bool
  is_some_number none = false
  is_some_number (some f) = is_number f

  -- `typeof s === "string" && utf8Len(s) <= MUTATION_REPLAY_MAX_BYTES`.
  abbrev is_capped_text : Option (Field J) → Bool
  is_capped_text (some (text s)) = leb (length s) mutation_replay_max_bytes
  is_capped_text _ = false

  unfoldable pub is_replay_safe_wrapper : JsValue J → Bool
  is_replay_safe_wrapper (other_value j) = false
  is_replay_safe_wrapper (object fs) =
      (length fs == 4)
      && has_key "replaySafe" fs
      && has_key "truncated" fs
      && has_key "totalBytes" fs
      && has_key "serializedResult" fs
      && is_true (get_field "replaySafe" fs)
      && is_boolean (get_field "truncated" fs)
      && is_some_number (get_field "totalBytes" fs)
      && is_capped_text (get_field "serializedResult" fs)

  abbrev payload : Option (Field J) → Option (Field J) → Option (Field J × Utf8)
  payload (some n) (some (text s)) =
      if is_number n && leb (length s) mutation_replay_max_bytes then some (n, s) else none
  payload _ _ = none

  -- `isTruncatedReplayPayload`, with the number and the text that it vouches for.
  unfoldable pub truncated_payload : JsValue J → Option (Field J × Utf8)
  truncated_payload (other_value j) = none
  truncated_payload (object fs) =
      if (length fs == 3)
        && has_key "truncated" fs
        && has_key "totalBytes" fs
        && has_key "serializedResult" fs
        && is_true (get_field "truncated" fs)
      then payload (get_field "totalBytes" fs) (get_field "serializedResult" fs)
      else none

  -- A `ReplaySafeWrapper`.
  abbrev pub wrapper : Bool → Field J → Utf8 → JsValue J
  wrapper truncated total_bytes serialized = object (
      ("replaySafe", boolean true)
      ∷ ("truncated", boolean truncated)
      ∷ ("totalBytes", total_bytes)
      ∷ ("serializedResult", text serialized)
      ∷ [])

  abbrev pub truncated_object : Field J → Utf8 → JsValue J
  truncated_object total_bytes serialized = object (
      ("truncated", boolean true)
      ∷ ("totalBytes", total_bytes)
      ∷ ("serializedResult", text serialized)
      ∷ [])

  abbrev wrapped : SerializedResult → JsValue J
  wrapped r = wrapper r.truncated (natural r.total_bytes) r.text

  abbrev rewrapped : Option (Field J × Utf8) → SerializedResult → JsValue J
  rewrapped none r = wrapped r
  rewrapped (some (n, s)) r = wrapper true n s

  -- `replaySafeResult`, of a value or `undefined`.
  unfoldable pub replay_safe_result : (Option (JsValue J) → Utf8) → Option (JsValue J) → JsValue J
  unfolding is_replay_safe_wrapper truncated_payload capped_json_text
  replay_safe_result json none = wrapped (capped_json_text (json none) mutation_replay_max_bytes)
  replay_safe_result json (some v) =
      if is_replay_safe_wrapper v
      then v
      else rewrapped (truncated_payload v)
          (capped_json_text (json (some v)) mutation_replay_max_bytes)

  -- `visibleReplayResult`, of the parts of a wrapper.
  unfoldable pub visible_replay_result :
      (Utf8 → Result (JsValue J)) → Bool → Field J → Utf8 → Result (JsValue J)
  visible_replay_result parse true total_bytes serialized =
      ok (truncated_object total_bytes serialized)
  visible_replay_result parse false total_bytes serialized = parse serialized
