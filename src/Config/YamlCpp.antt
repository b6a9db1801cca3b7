-- ===== src/Config/YamlCpp.antt =====
-- yaml-cpp, as far as config_manager.cpp and config_manager.hpp call it. A node is a value here:
-- the code reads a clone, so that what assigning to a node does to its other copies plays no part.
use secure_ros2_gateway.Prelude.{Bool}
use secure_ros2_gateway.Prelude.Text.{Text}

-- What a call returns, or that it has thrown.
pub data Parsed {ℓ} (A : Type ℓ) : Type ℓ where
  parsed : A → Parsed A
  failed : Parsed A

pub record Yaml : Type 1 where
  pub Node : Type 0
  -- `YAML::Node()`
  pub null_node : Node
  pub load : Text → Parsed Node
  pub is_defined : Node → Bool
  pub is_map : Node → Bool
  pub is_null : Node → Bool
  -- `node[segment]` on a map; a key that is not there gives an undefined node.
  pub index : Node → Text → Node
