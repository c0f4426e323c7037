-- ===== src/Mutation/Body.antt =====
-- `canonicalObjectJson` of packages/mcp-server/src/sn/mutation-guard.ts: the body of a PATCH.
-- A value of JavaScript is a tree; where an object is met again below itself stands `enclosing`. The
-- text that `JSON.stringify` makes of an object is a parameter.
use snow_mcp.Common.{Bool, true, false, ◌&&◌, ◌||◌, List, [], ◌∷◌, ltb, ◌==◌, if◌then◌else◌}
use snow_mcp.Errors.{Result, ok, throw, other_error, ◌>>◌}
use snow_mcp.Text.{Text}

-- `no_json` is `undefined`, a function, a symbol or a bigint; a scalar is `null`, a Boolean or a string.
mutual
  pub data JsTree (J : Type 0) : Type 0 where
    no_json not_finite enclosing : JsTree J
    number : J → JsTree J
    scalar : J → JsTree J
    array : JsItems J → JsTree J
    object : JsFields J → JsTree J

  pub data JsItems (J : Type 0) : Type 0 where
    end_items : JsItems J
    item : JsTree J → JsItems J → JsItems J

  pub data JsFields (J : Type 0) : Type 0 where
    end_fields : JsFields J
    field : Text → JsTree J → JsFields J → JsFields J

-- `assertJsonSerializable`.
unfoldable mutual
  pub is_json_serializable : {J : Type 0} → JsTree J → Bool
  is_json_serializable no_json = false
  is_json_serializable not_finite = false
  is_json_serializable enclosing = false
  is_json_serializable (number j) = true
  is_json_serializable (scalar j) = true
  is_json_serializable (array xs) = all_items xs
  is_json_serializable (object fs) = all_fields fs

  pub all_items : {J : Type 0} → JsItems J → Bool
  all_items end_items = true
  all_items (item v xs) = is_json_serializable v && all_items xs

  pub all_fields : {J : Type 0} → JsFields J → Bool
  all_fields end_fields = true
  all_fields (field k v fs) = is_json_serializable v && all_fields fs

-- The order of `sort()`: by code units.
unfoldable pub text_ltb : Text → Text → Bool
text_ltb s [] = false
text_ltb [] (d ∷ t) = true
text_ltb (c ∷ s) (d ∷ t) = ltb c d || ((c == d) && text_ltb s t)

module _ {V : Type 0} where
  unfoldable pub insert_entry : Text × V → List (Text × V) → List (Text × V)
  unfolding text_ltb
  insert_entry e [] = e ∷ []
  insert_entry e (f ∷ fs) =
      let rest = insert_entry e fs in if text_ltb f.0 e.0 then f ∷ rest else e ∷ f ∷ fs

  -- The entries in the order of their keys.
  unfoldable pub sort_entries : List (Text × V) → List (Text × V)
  unfolding insert_entry
  sort_entries [] = []
  sort_entries (e ∷ es) = insert_entry e (sort_entries es)

module _ {J : Type 0} where
  unfoldable pub assert_entries_serializable : List (Text × JsTree J) → Result (Unit {0})
  unfolding is_json_serializable
  assert_entries_serializable [] = ok tt
  assert_entries_serializable ((k, v) ∷ es) =
      if is_json_serializable v then assert_entries_serializable es else throw other_error

  unfoldable pub canonical_object_json :
      (List (Text × JsTree J) → Text) → List (Text × JsTree J) → Result Text
  unfolding assert_entries_serializable sort_entries
  canonical_object_json stringify fields =
      assert_entries_serializable (sort_entries fields) >> ok (stringify (sort_entries fields))
