-- ===== src/Config/Loading.antt =====
-- What load_file of src/utils/config_manager.cpp leaves to the calls after it.
use secure_ros2_gateway.Prelude.{
  ◌≡◌, ◌↔◌, ◌⊎◌, inl, inr, refl, Bool, true, false, List, Option, none, some,
}
use secure_ros2_gateway.Prelude.Text.{Text}
use secure_ros2_gateway.Config.YamlCpp.{Yaml, Parsed, parsed, failed}
use secure_ros2_gateway.Config.{Manager, load_file, is_loaded, get}
use secure_ros2_gateway.Config.Paths.{AreDotless, Spells, spelled, value_at, convert, get_lem}

module _ (Y : Yaml) where
  open Y use {Node, null_node, is_null}

  -- The document that a file holds, if it can be opened and read.
  abbrev pub document : Option Text → Option Node
  document none = none
  document (some file) = elim (Y.load file) [ parsed root ↦ some root | failed ↦ none ]

  abbrev pub looked_up : List Text → Option Node → Option Node
  looked_up ss none = none
  looked_up ss (some root) = value_at Y ss root

  load_file-cases :
      (file : Option Text) (m : Manager Y)
      → ((document file ≡ none) × (load_file Y file m ≡ (false, record m { is_loaded = false })))
        ⊎ ((root : Node) × (document file ≡ some root)
            × (load_file Y file m ≡ (true, record { root_node = root; is_loaded = true })))
  unfolding load_file
  load_file-cases none m = inl (refl, refl)
  load_file-cases (some file) m = go (Y.load file) refl
    where
      go :
          (read : Parsed Node)
          → Y.load file ≡ read
          → ((document (some file) ≡ none)
              × (load_file Y (some file) m ≡ (false, record m { is_loaded = false })))
            ⊎ ((root : Node) × (document (some file) ≡ some root)
                × (load_file Y (some file) m
                    ≡ (true, record { root_node = root; is_loaded = true })))
      go (parsed root) e = inr (root, rw (document, e) refl, rw (load_file, e) refl)
      go failed e = inl (rw (document, e) refl, rw (load_file, e) refl)

  -- What a load leaves to later calls, whatever was loaded before. load_file returns whether the
  -- file could be opened and read, is_loaded repeats it, and get answers a key path with the
  -- converted value that the file's document has under the nested keys between the dots; with the
  -- default where there is no document or no value, where the value is null and where the
  -- conversion throws. A default node is null by hypothesis; a dot that ends the key path changes
  -- nothing.
  pub get-load_file-document {ℓ} :
      {T : Type ℓ} (as_type : Node → Parsed T) (ss : List Text) (trailing : Bool)
      (default_value : T) (file : Option Text) (m : Manager Y)
      → is_null null_node ≡ true
      → AreDotless ss
      → Spells ss trailing
      → let (loaded, m') = load_file Y file m in
        (is_loaded Y m' ≡ loaded)
        × ((loaded ≡ false) ↔ (document file ≡ none))
        × (get Y as_type (spelled ss trailing) default_value m'
            ≡ convert Y as_type default_value (looked_up ss (document file)))
  unfolding get
  get-load_file-document as_type ss trailing default_value file m h dotless can =
      elim (load_file-cases file m) [
        | inl (nothing, e) ↦ rw (nothing, e) (refl, (λ _. refl, λ _. refl), refl)
        | inr (root, found, e) ↦
            let loaded : Manager Y = record { root_node = root; is_loaded = true } in
            rw (found, e)
              (
                refl,
                (λ failed. cc, λ missing. cc),
                get_lem Y as_type ss trailing default_value loaded h dotless can refl,
              )
      ]
