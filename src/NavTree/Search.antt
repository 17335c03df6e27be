-- ===== src/NavTree/Search.antt =====
-- The part of the index that `navTo` of docs/docs_output/html/navtree.js asks for.
use cherry_recorder_server.Prelude.{
  ℕ, zero, suc, ◌-◌, String, true, false, ◌==◌, if◌then◌else◌, ◌≡◌, refl, arith, ap, ◌∙◌, List, [],
  ◌∷◌, ◌⧺◌,
}
use cherry_recorder_server.StringMap.Order.{lt, lt_trans}
use cherry_recorder_server.NavTree.{Node, Site}
use cherry_recorder_server.NavTree.Links.{is_line_number}
use cherry_recorder_server.NavTree.Tree.{End}
use cherry_recorder_server.NavTree.Page.{
  index_rounds, goto_loaded, goto_first, first_link, nav_to_page,
}

abbrev pub AllAfter : String → List String → Type 0
AllAfter key [] = Unit
AllAfter key (next ∷ keys) = (lt key next ≡ true) × AllAfter key keys

abbrev pub IsIncreasing : List String → Type 0
IsIncreasing [] = Unit
IsIncreasing (key ∷ keys) = AllAfter key keys × IsIncreasing keys

-- How many keys are not after the address
abbrev pub keys_upto : String → List String → ℕ
keys_upto url [] = 0
keys_upto url (key ∷ keys) = if lt url key then keys_upto url keys else suc (keys_upto url keys)

none_upto :
    (url key : String) (keys : List String)
    → lt url key ≡ true
    → AllAfter key keys
    → keys_upto url keys ≡ 0
none_upto url key [] h k = refl
none_upto url key (next ∷ keys) h (p, k) =
    ground (arith, lt_trans url key next h p, none_upto url key keys h k)

index_rounds-upto :
    (keys : List String) (url : String)
    → IsIncreasing keys
    → index_rounds keys url ≡ keys_upto url keys
unfolding index_rounds
index_rounds-upto [] url h = refl
index_rounds-upto (key ∷ keys) url (after, h) =
    ground (arith, none_upto url key keys, index_rounds-upto keys url h, after)

-- The part for a number of keys: that of the last of them, or the main page
abbrev pub part_for : Site → String → String → Node → ℕ → Node × End
part_for site root anchor n zero = goto_first site (first_link site.navtree) anchor n
part_for site root anchor n (suc i) = goto_loaded site (site.sub_index i) root anchor n

part_for-rounds :
    (site : Site) (root anchor : String) (n : Node) (rounds : ℕ)
    → (if rounds == 0
        then goto_first site (first_link site.navtree) anchor n
        else goto_loaded site (site.sub_index (rounds - 1)) root anchor n)
      ≡ part_for site root anchor n rounds
part_for-rounds site root anchor n zero = refl
part_for-rounds site root anchor n (suc i) =
    let positive : (suc i == 0) ≡ false = ground arith in
    let less : suc i - 1 ≡ i = omega arith in rw (positive, less) refl

-- A hash of a line is dropped.
abbrev pub anchor_of : String → String
anchor_of hash = if is_line_number hash then "" else hash

-- Where the keys of the index increase, `navTo` asks for the part of the last key that is not after
-- the address, counted over all keys, and for the main page in the first part if there is none.
pub nav_to_page-upto :
    (site : Site) (root hash : String) (n : Node)
    → IsIncreasing site.navtreeindex
    → nav_to_page site root hash n
      ≡ part_for site root (anchor_of hash) n (keys_upto (root ⧺ anchor_of hash) site.navtreeindex)
unfolding nav_to_page
nav_to_page-upto site root hash n h =
    part_for-rounds site root (anchor_of hash) n _
    ∙ ap (part_for site root (anchor_of hash) n)
        (index_rounds-upto site.navtreeindex (root ⧺ anchor_of hash) h)
