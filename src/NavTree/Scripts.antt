-- ===== src/NavTree/Scripts.antt =====
-- The generated scripts that docs/docs_output/html/navtree.js asks for: getData and getScript.
use Prim.Native.String.{[], ◌∷◌}
use cherry_recorder_server.Prelude.{
  String, code, Bool, false, ◌||◌, ◌==◌, ◌⧺◌, if◌then◌else◌, List, [], ◌∷◌, ◌++◌,
}

abbrev pub has_slash : String → Bool
has_slash [] = false
has_slash (c ∷ s) = code c == b'/' || has_slash s

-- What follows the last slash, or the whole name
unfoldable pub after_slash : String → String
after_slash [] = ""
after_slash (c ∷ s) =
    let rest = after_slash s in if has_slash s then rest else if code c == b'/' then s else c ∷ s

-- `n.replace(/-/g,'_')`
unfoldable pub underscored : String → String
underscored [] = ""
underscored (c ∷ s) = (if code c == b'-' then "_" else c ∷ "") ⧺ underscored s

-- The variable that `getData` reads
unfoldable pub data_variable : String → String
unfolding after_slash underscored
data_variable var_name = underscored (after_slash var_name)

pub record Script : Type 0 where
  pub id : String
  pub src : String

-- `getScript`: the scripts of the page's head
unfoldable pub get_script : String → List Script → List Script
get_script script_name scripts =
    scripts ++ record { id = script_name; src = script_name ⧺ ".js" } ∷ []
