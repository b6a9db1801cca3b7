-- ===== src/Tests/Config.antt =====
-- src/utils/config_manager.cpp at work, on documents of a few nodes.
use secure_ros2_gateway.Prelude.{ℕ, ◌≡◌, ◌↔◌, none, some, refl, Bool, true, false, List, [], ◌∷◌}
use secure_ros2_gateway.Prelude.Text.{Text, text, text_eq}
use secure_ros2_gateway.Config.YamlCpp.{Yaml, Parsed, parsed, failed}
use secure_ros2_gateway.Config.{segments, Manager, load_file, is_loaded, navigate_path, walk, get}
use secure_ros2_gateway.Config.Loading.{document, get-load_file-document}

data Doc : Type 0 where
  undefined : Doc
  null : Doc
  number : ℕ → Doc
  -- A map with one key.
  holds : Text → Doc → Doc

abbrev doc_defined : Doc → Bool
doc_defined undefined = false
doc_defined null = true
doc_defined (number n) = true
doc_defined (holds key d) = true

abbrev doc_map : Doc → Bool
doc_map undefined = false
doc_map null = false
doc_map (number n) = false
doc_map (holds key d) = true

abbrev doc_null : Doc → Bool
doc_null undefined = false
doc_null null = true
doc_null (number n) = false
doc_null (holds key d) = false

abbrev doc_index : Doc → Text → Doc
doc_index undefined key = undefined
doc_index null key = undefined
doc_index (number n) key = undefined
doc_index (holds key' d) key = elim (text_eq key' key) [ true ↦ d | false ↦ undefined ]

abbrev as_number : Doc → Parsed ℕ
as_number undefined = failed
as_number null = failed
as_number (number n) = parsed n
as_number (holds key d) = failed

abbrev port : List Text
port = text "net" ∷ text "port" ∷ []

abbrev settings : Doc
settings = holds (text "net") (holds (text "port") (number 80))

abbrev documents : Yaml
documents = record {
  Node = Doc;
  null_node = null;
  load = λ file. parsed settings;
  is_defined = doc_defined;
  is_map = doc_map;
  is_null = doc_null;
  index = doc_index;
}

abbrev loaded : Manager documents
loaded = record { root_node = settings; is_loaded = true }

get_port : get documents as_number (text "net.port") 5 loaded ≡ 80
unfolding get segments navigate_path walk text_eq
get_port = refl

-- The port of a file, over what was loaded before; a dot at the end changes nothing.
get-load_file-document_example :
    let (found, m) = load_file documents (some (text "net:")) loaded in
    (is_loaded documents m ≡ found)
    × ((found ≡ false) ↔ (document documents (some (text "net:")) ≡ none))
    × (get documents as_number (text "net.port.") 5 m ≡ 80)
unfolding text_eq
get-load_file-document_example =
    get-load_file-document documents as_number port true 5 (some (text "net:")) loaded refl
      ((refl, (refl, (refl, tt))), ((refl, (refl, (refl, (refl, tt)))), tt)) tt
