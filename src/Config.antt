-- ===== src/Config.antt =====
-- src/utils/config_manager.cpp and include/secure_telemetry_gateway/utils/config_manager.hpp: the
-- configuration manager over yaml-cpp. Each method holds the mutex throughout.
pub mod YamlCpp
pub mod Paths
pub mod Loading
use secure_ros2_gateway.Prelude.{
  ℕ, Bool, true, false, not, ◌&&◌, ◌||◌, List, [], ◌∷◌, Option, none, some, if◌then◌else◌,
}
use secure_ros2_gateway.Prelude.Text.{Text, split_on}
use YamlCpp.{Yaml, Parsed, parsed, failed}

-- The pieces that `std::getline(ss, segment, '.')` reads: those between the dots, but for an empty
-- one at the end.
abbrev pub drop_empty_last : List Text → List Text
drop_empty_last [] = []
drop_empty_last ([] ∷ []) = []
drop_empty_last (s ∷ rest) = s ∷ drop_empty_last rest

unfoldable pub segments : Text → List Text
unfolding split_on
segments key_path = drop_empty_last (split_on b'.' key_path)

module _ (Y : Yaml) where
  open Y use {Node, null_node, is_defined, is_map, is_null, index}

  pub record Manager : Type 0 where
    pub root_node : Node
    pub is_loaded : Bool

  -- The state of the singleton before its first use.
  pub initial : Manager
  initial = record { root_node = null_node; is_loaded = false }

  -- `file` is what the path holds, `none` if it cannot be opened.
  unfoldable pub load_file : Option Text → Manager → Bool × Manager
  load_file none m = (false, record m { is_loaded = false })
  load_file (some file) m = elim (Y.load file) [
    | parsed root ↦ (true, record { root_node = root; is_loaded = true })
    | failed ↦ (false, record m { is_loaded = false })
  ]

  abbrev pub is_loaded : Manager → Bool
  is_loaded m = m.is_loaded

  -- The loop of navigate_path, on a copy of the root. Off the path it returns a default node.
  unfoldable pub walk : List Text → Node → Node
  walk [] node = node
  walk (segment ∷ rest) node =
      let found = walk rest (index node segment) in
      if not (is_defined node) || not (is_map node) then null_node else found

  unfoldable pub navigate_path : Text → Manager → Node
  unfolding walk
  navigate_path key_path m = walk (segments key_path) m.root_node

  abbrev pub or_default {ℓ} : {A : Type ℓ} → Parsed A → A → A
  or_default (parsed value) default_value = value
  or_default failed default_value = default_value

  -- `as` is the conversion `node.as<T>()`, whose exceptions are caught.
  unfoldable pub get {ℓ} : {T : Type ℓ} → (Node → Parsed T) → Text → T → Manager → T
  unfolding navigate_path
  get as_type key_path default_value m =
      if not m.is_loaded
      then default_value
      else let node = navigate_path key_path m in
        if is_defined node && not (is_null node)
        then or_default (as_type node) default_value
        else default_value
