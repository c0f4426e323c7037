-- ===== src/Serialize.antt =====
-- The size caps of packages/mcp-server/src/sandbox/serialize.ts: truncation at a character of UTF-8, and
-- the cap on the logs of a snippet.
-- A text is given by the bytes of its encoding. What `JSON.stringify` makes of a value is a parameter
-- of the callers.
pub mod Caps
pub mod Characters
use snow_mcp.Common.{
  ℕ, zero, suc, ◌+◌, ◌-◌, Bool, true, false, ◌&&◌, List, [], ◌∷◌, ltb, leb, ◌==◌, length,
  if◌then◌else◌,
}
use Prim.Native.Nat.{◌/◌}

abbrev pub Utf8 : Type 0
Utf8 = List ℕ

-- `bytes[i]`; out of range it is `undefined`, which is no continuation byte.
abbrev pub byte_at : Utf8 → ℕ → ℕ
byte_at [] i = 0
byte_at (b ∷ bs) zero = b
byte_at (b ∷ bs) (suc i) = byte_at bs i

-- `(b & 0xc0) === 0x80`.
abbrev pub is_continuation : ℕ → Bool
is_continuation b = b / 64 == 2

-- `bytes.subarray(0, n)`.
abbrev pub first_bytes : ℕ → Utf8 → Utf8
first_bytes zero bs = []
first_bytes (suc n) [] = []
first_bytes (suc n) (b ∷ bs) = b ∷ first_bytes n bs

-- The `while` of `truncateEncodedUtf8`.
unfoldable pub back_off : Utf8 → ℕ → ℕ
back_off bs zero = 0
back_off bs (suc end) = if is_continuation (byte_at bs (suc end)) then back_off bs end else suc end

-- The bytes of U+FEFF.
unfoldable pub begins_with_mark : Utf8 → Bool
begins_with_mark [] = false
begins_with_mark (a ∷ []) = false
begins_with_mark (a ∷ b ∷ []) = false
begins_with_mark (a ∷ b ∷ c ∷ bs) = (a == 239) && (b == 187) && (c == 191)

abbrev drop_three : Utf8 → Utf8
drop_three [] = []
drop_three (a ∷ []) = []
drop_three (a ∷ b ∷ []) = []
drop_three (a ∷ b ∷ c ∷ bs) = bs

-- `dec.decode`, of whole characters: a decoder drops one byte-order mark at the start.
unfoldable pub decode : Utf8 → Utf8
unfolding begins_with_mark
decode bs = if begins_with_mark bs then drop_three bs else bs

unfoldable pub truncate_encoded_utf8 : Utf8 → ℕ → Utf8
unfolding back_off decode
truncate_encoded_utf8 bs max_bytes = decode (first_bytes (back_off bs max_bytes) bs)

unfoldable pub truncate_utf8 : Utf8 → ℕ → Utf8
unfolding truncate_encoded_utf8
truncate_utf8 bs max_bytes =
    if leb (length bs) max_bytes then bs else truncate_encoded_utf8 bs max_bytes

pub record SerializedResult : Type 0 where
  pub text : Utf8
  pub truncated : Bool
  pub total_bytes : ℕ

-- `cappedJsonText`.
unfoldable pub capped_json_text : Utf8 → ℕ → SerializedResult
unfolding truncate_encoded_utf8
capped_json_text json max_bytes =
    if ltb max_bytes (length json)
    then record {
      text = truncate_encoded_utf8 json max_bytes;
      truncated = true;
      total_bytes = length json;
    }
    else record { text = json; truncated = false; total_bytes = length json }

pub record CappedLogs : Type 0 where
  pub logs : List Utf8
  pub truncated : Bool

abbrev pub first_entries : ℕ → List Utf8 → List Utf8
first_entries zero es = []
first_entries (suc n) [] = []
first_entries (suc n) (e ∷ es) = e ∷ first_entries n es

abbrev keep_entry : Utf8 → CappedLogs → CappedLogs
keep_entry e c = record c { logs = e ∷ c.logs }

-- The entry at which the loop stops.
abbrev stop_at : Utf8 → ℕ → CappedLogs
stop_at e remaining =
    if ltb 0 remaining
    then record { logs = truncate_utf8 e remaining ∷ []; truncated = true }
    else record { logs = []; truncated = true }

-- The loop over the entries, from the bytes so far.
unfoldable pub cap_entries : ℕ → ℕ → List Utf8 → CappedLogs
unfolding truncate_utf8
cap_entries max_bytes total [] = record { logs = []; truncated = false }
cap_entries max_bytes total (e ∷ es) =
    let rest = cap_entries max_bytes (total + length e) es in
    if ltb max_bytes (total + length e) then stop_at e (max_bytes - total) else keep_entry e rest

unfoldable pub cap_logs : List Utf8 → ℕ → ℕ → CappedLogs
unfolding cap_entries
cap_logs logs max_entries max_bytes =
    if ltb max_entries (length logs)
    then record (cap_entries max_bytes 0 (first_entries max_entries logs)) { truncated = true }
    else cap_entries max_bytes 0 logs
