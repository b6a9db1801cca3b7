-- ===== src/Storage/Payload/Format.antt =====
-- What the loop over a payload writes, and what it does not escape.
use secure_ros2_gateway.Prelude.{
  ◌≡◌, ap, sym, ◌∙◌, true, false, List, [], ◌∷◌, ◌++◌, append_assoc, append-nil, map,
}
use secure_ros2_gateway.Prelude.Text.{Text, text}
use secure_ros2_gateway.Storage.Payload.{Doubles, member, render, payload_json}

-- Members with commas between them.
abbrev pub join : List Text → Text
join [] = []
join (m ∷ []) = m
join (m ∷ n ∷ rest) = m ++ (text "," ++ join (n ∷ rest))

abbrev after_commas : List Text → Text
after_commas [] = []
after_commas (m ∷ rest) = text "," ++ (m ++ after_commas rest)

join_lem : (m : Text) (rest : List Text) → join (m ∷ rest) ≡ m ++ after_commas rest
join_lem m [] = sym (append-nil m)
join_lem m (n ∷ rest) = ap (λ t. m ++ (text "," ++ t)) (join_lem n rest)

module _ (F : Doubles) where
  render_rest :
      (kvs : List (Text × F.Double)) (json : Text)
      → render F kvs false json ≡ json ++ after_commas (map (member F) kvs)
  unfolding render
  render_rest [] json = sym (append-nil json)
  render_rest (kv ∷ kvs) json =
      render_rest kvs ((json ++ text ",") ++ member F kv) ∙ simp append_assoc

  render_all :
      (kvs : List (Text × F.Double)) (json : Text)
      → render F kvs true json ≡ json ++ join (map (member F) kvs)
  unfolding render
  render_all [] json = sym (append-nil json)
  render_all (kv ∷ kvs) json =
      render_rest kvs (json ++ member F kv)
      ∙ append_assoc json (member F kv) (after_commas (map (member F) kvs))
      ∙ ap (λ t. json ++ t) (sym (join_lem (member F kv) (map (member F) kvs)))

  -- The text of a payload is an object whose members are the entries, in the order in which the
  -- map is walked, with one comma between neighbours.
  pub payload_json_lem :
      (payload : List (Text × F.Double))
      → payload_json F payload ≡ text "{" ++ join (map (member F) (F.walk payload)) ++ text "}"
  unfolding payload_json
  payload_json_lem payload = rw (render_all (F.walk payload) (text "{")) (simp append_assoc)

  -- A key that holds the text between the keys `j` and `k` of two entries.
  abbrev pub merged_key : Text → F.Double → Text → Text
  merged_key j x k = j ++ text "\":" ++ F.to_string x ++ text ",\"" ++ k

  -- Keys are not escaped: where the maps are walked in the order shown, the payload of the single
  -- entry with the merged key is written as the payload of the two entries.
  pub payload_json_ambiguous :
      (j k : Text) (x y : F.Double)
      → F.walk ((j, x) ∷ (k, y) ∷ []) ≡ (j, x) ∷ (k, y) ∷ []
      → F.walk ((merged_key j x k, y) ∷ []) ≡ (merged_key j x k, y) ∷ []
      → payload_json F ((merged_key j x k, y) ∷ []) ≡ payload_json F ((j, x) ∷ (k, y) ∷ [])
  unfolding payload_json render member
  payload_json_ambiguous j k x y two one = rw (two, one) (simp append_assoc)
