-- ===== src/ReplayPayload/Laws.antt =====
-- What is stored for a replay is replay-safe, within the cap, and shows the result again.
use snow_mcp.Common.{
  ℕ, ◌≤◌, ◌≡◌, refl, Bool, true, false, Option, none, some, length, ltb, arith, ap, Bool-cases,
  chosen, inl, inr, if◌then◌else◌,
}
use snow_mcp.Errors.{Result, ok}
use snow_mcp.Ledger.{ReplayFormat}
use snow_mcp.Serialize.{Utf8, capped_json_text, truncate_encoded_utf8}
use snow_mcp.Serialize.Caps.{length-truncate}
use snow_mcp.ReplayPayload.{
  Field, JsValue, natural, text, object, other_value, get_field, is_number, is_replay_safe_wrapper,
  truncated_payload, payload, wrapper, wrapped, rewrapped, truncated_object, replay_safe_result,
  visible_replay_result, mutation_replay_max_bytes,
}

length-capped_json_text : (json : Utf8) (n : ℕ) → length (capped_json_text json n).text ≤ n
unfolding capped_json_text
length-capped_json_text json n = let cut = length-truncate json n in ground (arith, cut)

some_if :
    {A : Type 0} (b : Bool) (o : Option A) (a : A) → (if b then o else none) ≡ some a → o ≡ some a
some_if true o a h = h
some_if false o a h = cc

module _ {J : Type 0} where
  wrapper-safe :
      (t : Bool) (n : Field J) (s : Utf8)
      → is_number n ≡ true
      → length s ≤ mutation_replay_max_bytes
      → is_replay_safe_wrapper (wrapper t n s) ≡ true
  unfolding is_replay_safe_wrapper
  wrapper-safe t n s number short = ground (arith, number, short)

  payload_sound :
      (a b : Option (Field J)) (n : Field J) (s : Utf8)
      → payload a b ≡ some (n, s)
      → (is_number n ≡ true) × (length s ≤ mutation_replay_max_bytes)
  payload_sound none b n s h = cc
  payload_sound (some m) none n s h = cc
  payload_sound (some m) (some (text u)) n s h = ground (arith, h)
  payload_sound (some m) (some _) n s h = cc

  truncated_payload_sound :
      (v : JsValue J) (n : Field J) (s : Utf8)
      → truncated_payload v ≡ some (n, s)
      → (is_number n ≡ true) × (length s ≤ mutation_replay_max_bytes)
  unfolding truncated_payload
  truncated_payload_sound (other_value j) n s h = cc
  truncated_payload_sound (object fs) n s h =
      payload_sound (get_field "totalBytes" fs) (get_field "serializedResult" fs) n s
        (some_if _ _ (n, s) h)

  rewrapped-safe :
      (o : Option (Field J × Utf8)) (json : Utf8)
      → ((n : Field J) (s : Utf8)
          → o ≡ some (n, s)
          → (is_number n ≡ true) × (length s ≤ mutation_replay_max_bytes))
      → is_replay_safe_wrapper (rewrapped o (capped_json_text json mutation_replay_max_bytes))
        ≡ true
  rewrapped-safe none json h =
      wrapper-safe _ _ _ refl (length-capped_json_text json mutation_replay_max_bytes)
  rewrapped-safe (some (n, s)) json h =
      let (number, short) = h n s refl in wrapper-safe true n s number short

  -- Whatever a result is, what is stored of it is a wrapper whose text is within the cap.
  pub replay_safe_result-safe :
      (json : Option (JsValue J) → Utf8) (o : Option (JsValue J))
      → is_replay_safe_wrapper (replay_safe_result json o) ≡ true
  unfolding replay_safe_result
  replay_safe_result-safe json none = rewrapped-safe none (json none) (λ n s e. cc)
  replay_safe_result-safe json (some v) =
      chosen (λ u. is_replay_safe_wrapper u ≡ true) (is_replay_safe_wrapper v) v _ (λ e. e)
        (λ e. rewrapped-safe (truncated_payload v) (json (some v)) (truncated_payload_sound v))

  -- A wrapper is stored as it is.
  pub replay_safe_result-kept :
      (json : Option (JsValue J) → Utf8) (v : JsValue J)
      → is_replay_safe_wrapper v ≡ true
      → replay_safe_result json (some v) ≡ v
  unfolding replay_safe_result
  replay_safe_result-kept json v h =
      chosen (λ u. u ≡ v) (is_replay_safe_wrapper v) v _ (λ e. refl) (λ e. cc (h, e))

  -- The format of the ledger.
  abbrev pub replay_format : (Option (JsValue J) → Utf8) → ReplayFormat (JsValue J)
  replay_format json = record {
    replay_safe = replay_safe_result json;
    replay_safe_idem = λ o.
        replay_safe_result-kept json (replay_safe_result json o) (replay_safe_result-safe json o);
  }

  plain_result :
      (json : Option (JsValue J) → Utf8) (v : JsValue J)
      → is_replay_safe_wrapper v ≡ false
      → truncated_payload v ≡ none
      → replay_safe_result json (some v)
        ≡ wrapped (capped_json_text (json (some v)) mutation_replay_max_bytes)
  unfolding replay_safe_result
  plain_result json v plain whole =
      chosen (λ u. u ≡ wrapped (capped_json_text (json (some v)) mutation_replay_max_bytes))
        (is_replay_safe_wrapper v) v _ (λ e. absurd (cc (plain, e)))
        (λ e.
          ap (λ o. rewrapped o (capped_json_text (json (some v)) mutation_replay_max_bytes)) whole)

  -- What a replay shows of a result: itself, or of a text beyond the cap its size and beginning.
  abbrev pub replayed : Utf8 → JsValue J → JsValue J
  replayed json v =
      if ltb mutation_replay_max_bytes (length json)
      then truncated_object (natural (length json))
          (truncate_encoded_utf8 json mutation_replay_max_bytes)
      else v

  visible-wrapped :
      (parse : Utf8 → Result (JsValue J)) (json : Utf8) (v : JsValue J) (max_bytes : ℕ)
      → parse json ≡ ok v
      → let r = capped_json_text json max_bytes in
        visible_replay_result parse r.truncated (natural r.total_bytes) r.text
        ≡ ok (
            if ltb max_bytes (length json)
            then truncated_object (natural (length json)) (truncate_encoded_utf8 json max_bytes)
            else v)
  unfolding capped_json_text visible_replay_result
  visible-wrapped parse json v max_bytes h = elim (Bool-cases (ltb max_bytes (length json))) [
    | inl over ↦ rw over refl
    | inr fits ↦ rw fits h
  ]

  -- A result whose JSON is parsed back, and which is neither a wrapper nor looks like a truncated one,
  -- is stored as a wrapper that shows it again, or, where its JSON is beyond the cap, the size of the
  -- JSON and its beginning.
  pub visible-stored :
      (json : Option (JsValue J) → Utf8) (parse : Utf8 → Result (JsValue J)) (v : JsValue J)
      → is_replay_safe_wrapper v ≡ false
      → truncated_payload v ≡ none
      → parse (json (some v)) ≡ ok v
      → (t : Bool) × (n : Field J) × (s : Utf8) × (replay_safe_result json (some v) ≡ wrapper t n s)
        × (visible_replay_result parse t n s ≡ ok (replayed (json (some v)) v))
  visible-stored json parse v plain whole h =
      (_, _, _, plain_result json v plain whole, visible-wrapped parse (json (some v)) v _ h)
