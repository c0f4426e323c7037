-- ===== src/Tests/Replays.antt =====
-- What the ledger stores and a replay shows, of a small value.
use snow_mcp.Common.{ℕ, ◌≡◌, refl, Bool, false, Option, some, [], ◌∷◌}
use snow_mcp.Errors.{Result, ok}
use snow_mcp.Serialize.{Utf8}
use snow_mcp.ReplayPayload.{
  Field, JsValue, natural, object, wrapper, is_replay_safe_wrapper, truncated_payload,
  replay_safe_result, visible_replay_result,
}
use snow_mcp.ReplayPayload.Laws.{replayed, visible-stored}

-- `{"n":7}`, and its JSON.
abbrev seven : JsValue ℕ
seven = object (("n", natural 7) ∷ [])

abbrev seven_json : Utf8
seven_json = 123 ∷ 34 ∷ 110 ∷ 34 ∷ 58 ∷ 55 ∷ 125 ∷ []

abbrev json_of : Option (JsValue ℕ) → Utf8
json_of v = seven_json

abbrev parse : Utf8 → Result (JsValue ℕ)
parse s = ok seven

stores_seven : replay_safe_result json_of (some seven) ≡ wrapper false (natural 7) seven_json
unfolding replay_safe_result
stores_seven = refl

visible-stored_example :
    (t : Bool) × (n : Field ℕ) × (s : Utf8) × (replay_safe_result json_of (some seven)
      ≡ wrapper t n s)
    × (visible_replay_result parse t n s ≡ ok (replayed seven_json seven))
unfolding is_replay_safe_wrapper truncated_payload
visible-stored_example = visible-stored json_of parse seven refl refl refl
