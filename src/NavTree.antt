-- ===== src/NavTree.antt =====
-- docs/docs_output/html/navtree.js: the tree of the pages, as data. A node object of the script is an
-- `Item` with the nodes of its `children`; what the generated scripts hold, and the location of the
-- page, are a `Site`. A script that is asked for runs before anything else happens, or never loads.
pub mod Links
pub mod Tree
pub mod Settled
pub mod Opening
pub mod Clicks
pub mod Search
pub mod Agreement
pub mod Page
pub mod Sync
pub mod Anchors
pub mod Scripts
pub mod Siblings
use cherry_recorder_server.Prelude.{ℕ, String, Bool, Option, List}
use cherry_recorder_server.StringMap.{StringMap}

-- `childrenData`: null, the name of a script's variable, or an array of entries with text, link and
-- children
mutual
  pub data ChildrenData : Type 0 where
    null : ChildrenData
    script : String → ChildrenData
    array : Entries → ChildrenData

  pub data Entries : Type 0 where
    empty : Entries
    entry : String → Option String → ChildrenData → Entries → Entries

-- A node without its children: what `newNode` puts into the page, and the flags that change.
pub record Item : Type 0 where
  pub label : String
  pub class_name : String
  pub href : String
  pub stored : Option String
  pub children_data : ChildrenData
  pub depth : ℕ
  pub indent : ℕ
  pub is_last : Bool
  pub children_visited : Bool
  pub expanded : Bool
  pub children_shown : Bool
  pub arrow_down : Bool
  pub selected : Bool

mutual
  pub data Node : Type 0 where
    node : Item → Nodes → Node

  pub data Nodes : Type 0 where
    nil : Nodes
    cons : Node → Nodes → Nodes

pub record Site : Type 0 where
  pub toroot : String
  pub relpath : String
  pub pathname : String
  pub hash : String
  pub navtree : Entries
  pub navtreeindex : List String
  pub sub_index : ℕ → Option (StringMap (List ℕ))
  pub scripts : String → Option Entries
