-- ===== src/Config/Paths.antt =====
-- What ConfigManager::get finds under a key path, and what load_file leaves.
use secure_ros2_gateway.Prelude.{
  append_assoc, ◌≡◌, ◌≢◌, refl, ap, ◌∙◌, Bool, true, false, not, ◌&&◌, List, [], ◌∷◌, ◌++◌, Option,
  none, some, arith, if◌then◌else◌, ◌==◌,
}
use secure_ros2_gateway.Prelude.Text.{Text, text, split_on}
use secure_ros2_gateway.Config.YamlCpp.{Yaml, Parsed}
use secure_ros2_gateway.Config.{
  segments, drop_empty_last, Manager, load_file, walk, navigate_path, or_default, get,
}

-- A segment that a key path can name.
abbrev HasNoDot : Text → Type 0
HasNoDot [] = Unit
HasNoDot (b ∷ s) = ((b == b'.') ≡ false) × HasNoDot s

abbrev pub AreDotless : List Text → Type 0
AreDotless [] = Unit
AreDotless (s ∷ rest) = HasNoDot s × AreDotless rest

abbrev pub dotted : List Text → Text
dotted [] = []
dotted (s ∷ []) = s
dotted (s ∷ t ∷ rest) = s ++ (b'.' ∷ dotted (t ∷ rest))

split_last : (s : Text) → HasNoDot s → split_on b'.' s ≡ s ∷ []
unfolding split_on
split_last [] h = refl
split_last (b ∷ s) (e, h) = rw (e, split_last s h) refl

split_dot : (s t : Text) → HasNoDot s → split_on b'.' (s ++ (b'.' ∷ t)) ≡ s ∷ split_on b'.' t
unfolding split_on
split_dot [] t h = refl
split_dot (b ∷ s) t (e, h) = rw (e, split_dot s t h) refl

-- A key path of these segments, with a dot at the end or without.
abbrev pub spelled : List Text → Bool → Text
spelled ss true = dotted ss ++ text "."
spelled ss false = dotted ss

-- The key paths that tell their segments: without the dot, the last segment is not empty.
abbrev pub Spells : List Text → Bool → Type 0
Spells [] true = ⊥
Spells [] false = Unit
Spells (s ∷ rest) true = Unit
Spells (s ∷ []) false = s ≢ []
Spells (s ∷ t ∷ rest) false = Spells (t ∷ rest) false

split_dotted :
    (s : Text) (rest : List Text)
    → AreDotless (s ∷ rest)
    → split_on b'.' (dotted (s ∷ rest)) ≡ s ∷ rest
split_dotted s [] h = split_last s h.0
split_dotted s (t ∷ rest) h =
    split_dot s (dotted (t ∷ rest)) h.0 ∙ ap (λ r. s ∷ r) (split_dotted t rest h.1)

split_trailing :
    (s : Text) (rest : List Text)
    → AreDotless (s ∷ rest)
    → split_on b'.' (dotted (s ∷ rest) ++ text ".") ≡ (s ∷ rest) ++ [] ∷ []
unfolding split_on
split_trailing s [] h = split_dot s [] h.0
split_trailing s (t ∷ rest) h =
    ap (split_on b'.') (append_assoc s (b'.' ∷ dotted (t ∷ rest)) (text "."))
    ∙ split_dot s (dotted (t ∷ rest) ++ text ".") h.0
    ∙ ap (λ r. s ∷ r) (split_trailing t rest h.1)

drop_nothing : (ss : List Text) → Spells ss false → drop_empty_last ss ≡ ss
drop_nothing [] h = refl
drop_nothing ([] ∷ []) h = absurd (h refl)
drop_nothing ((b ∷ s) ∷ []) h = refl
drop_nothing ([] ∷ t ∷ rest) h = ap (λ r. [] ∷ r) (drop_nothing (t ∷ rest) h)
drop_nothing ((b ∷ s) ∷ t ∷ rest) h = ap (λ r. (b ∷ s) ∷ r) (drop_nothing (t ∷ rest) h)

drop_empty_last-append : (ss : List Text) → drop_empty_last (ss ++ [] ∷ []) ≡ ss
drop_empty_last-append [] = refl
drop_empty_last-append ([] ∷ []) = refl
drop_empty_last-append ((b ∷ s) ∷ []) = refl
drop_empty_last-append ([] ∷ t ∷ rest) = ap (λ r. [] ∷ r) (drop_empty_last-append (t ∷ rest))
drop_empty_last-append ((b ∷ s) ∷ t ∷ rest) =
    ap (λ r. (b ∷ s) ∷ r) (drop_empty_last-append (t ∷ rest))

-- A key path is read back as the segments that it was put together from.
segments-spelled :
    (ss : List Text) (trailing : Bool)
    → AreDotless ss
    → Spells ss trailing
    → segments (spelled ss trailing) ≡ ss
unfolding segments split_on
segments-spelled [] true h can = absurd can
segments-spelled [] false h can = refl
segments-spelled (s ∷ rest) true h can =
    ap drop_empty_last (split_trailing s rest h) ∙ drop_empty_last-append (s ∷ rest)
segments-spelled (s ∷ rest) false h can =
    ap drop_empty_last (split_dotted s rest h) ∙ drop_nothing (s ∷ rest) can

module _ (Y : Yaml) where
  open Y use {Node, null_node, is_defined, is_map, is_null, index}

  -- The value that a document has under nested keys, if it has one that is not null.
  abbrev pub value_at : List Text → Node → Option Node
  value_at [] node = if is_defined node && not (is_null node) then some node else none
  value_at (segment ∷ rest) node =
      let found = value_at rest (index node segment) in
      if is_defined node && is_map node then found else none

  abbrev pub convert {ℓ} : {T : Type ℓ} → (Node → Parsed T) → T → Option Node → T
  convert as_type default_value none = default_value
  convert as_type default_value (some node) = or_default Y (as_type node) default_value

  walk-value_at :
      (ss : List Text) (node : Node)
      → is_null null_node ≡ true
      → (if is_defined (walk Y ss node) && not (is_null (walk Y ss node))
          then some (walk Y ss node)
          else none)
        ≡ value_at ss node
  unfolding walk
  walk-value_at [] node h = refl
  walk-value_at (s ∷ ss) node h = ground (arith, h, walk-value_at ss (index node s) h)

  -- Where a default node is null, a loaded manager answers a key path with the converted value
  -- that the document has under the nested keys between its dots, and with the default where
  -- there is none, where it is null and where the conversion throws. An empty segment is a key
  -- too, but for one at the end: a dot that ends the key path changes nothing.
  pub get_lem {ℓ} :
      {T : Type ℓ} (as_type : Node → Parsed T) (ss : List Text) (trailing : Bool)
      (default_value : T) (m : Manager Y)
      → is_null null_node ≡ true
      → AreDotless ss
      → Spells ss trailing
      → m.is_loaded ≡ true
      → get Y as_type (spelled ss trailing) default_value m
        ≡ convert as_type default_value (value_at ss m.root_node)
  unfolding get navigate_path
  get_lem as_type ss trailing default_value m h dotless can loaded =
      rw (segments-spelled ss trailing dotless can, loaded)
        (rw (← walk-value_at ss m.root_node h) (ground arith))

  -- After a load that failed, for a file that cannot be opened or is no YAML, every key path is
  -- answered with the default.
  get-load_file {ℓ} :
      {T : Type ℓ} (as_type : Node → Parsed T) (key_path : Text) (default_value : T)
      (file : Option Text) (m : Manager Y)
      → (load_file Y file m).0 ≡ false
      → get Y as_type key_path default_value (load_file Y file m).1 ≡ default_value
  unfolding get load_file
  get-load_file as_type key_path default_value none m h = refl
  get-load_file as_type key_path default_value (some file) m h = ground arith
