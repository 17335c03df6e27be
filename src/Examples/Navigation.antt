-- ===== src/Examples/Navigation.antt =====
-- Runs of the navigation tree of the documentation.
use cherry_recorder_server.Prelude.{
  ℕ, true, none, some, List, [], ◌∷◌, ◌≡◌, refl, ◌⧺◌, str_eq, if◌then◌else◌,
}
use cherry_recorder_server.StringMap
use cherry_recorder_server.StringMap.{StringMap}
use cherry_recorder_server.DocSearch.Cookie.{Browser, Platform}
use cherry_recorder_server.NavTree.{null, script, array, Entries, empty, entry, Node, Site}
use cherry_recorder_server.NavTree.Tree.{with_node}
use cherry_recorder_server.NavTree.Page.{
  breadcrumbs, goto_node, nav_to_page, root_node, init_nav_tree,
}
use cherry_recorder_server.NavTree.Settled.{IsSettled}
use cherry_recorder_server.NavTree.Clicks
use cherry_recorder_server.NavTree.Clicks.{toggle_path, init, Reach-IsSettled}
use cherry_recorder_server.NavTree.Opening.First.{entry_at, goto_node-first}
use cherry_recorder_server.NavTree.Opening.Selection.{IsShown}
use cherry_recorder_server.NavTree.Search.{part_for, anchor_of, keys_upto, nav_to_page-upto}
use cherry_recorder_server.NavTree.Sync.{NavSync, init_sync, on_sync_click}
use cherry_recorder_server.NavTree.Agreement
use cherry_recorder_server.NavTree.Agreement.{IsAgreed, load, Reach-IsAgreed}

abbrev class_list : Entries
class_list = entry "Session" (some "class_session.html") null empty

abbrev pages : Entries
pages =
    entry "CherryRecorder-Server" (some "index.html")
      (array (entry "Classes" (some "annotated.html") (script "annotated_dup") empty)) empty

abbrev site : Site
site = record {
  toroot = "annotated.html";
  relpath = "";
  pathname = "/html/annotated.html";
  hash = "";
  navtree = pages;
  navtreeindex = "annotated.html" ∷ "files.html" ∷ [];
  sub_index = λ i. some (("annotated.html", 0 ∷ []) ∷ ("class_session.html", 0 ∷ 0 ∷ []) ∷ []);
  scripts = λ name. if str_eq name "annotated_dup" then some class_list else none;
}

abbrev sub_index : StringMap (List ℕ)
sub_index = ("annotated.html", 0 ∷ []) ∷ ("class_session.html", 0 ∷ 0 ∷ []) ∷ []

goto_node-first_example :
    ((goto_node site sub_index "class_session.html" "" (root_node site)).1 ≡ with_node)
    × IsShown
        (0 ∷ breadcrumbs sub_index "class_session.html" "")
        (goto_node site sub_index "class_session.html" "" (root_node site)).0
unfolding breadcrumbs StringMap.find entry_at
goto_node-first_example =
    goto_node-first site sub_index "class_session.html" ""
      (pages, refl, (_, refl, (_, refl, (_, refl, (class_list, refl, (_, refl, tt))))))

abbrev clicked : Node
clicked = toggle_path site (0 ∷ []) (init_nav_tree site "").0

Reach-IsSettled_example : IsSettled clicked
Reach-IsSettled_example =
    Reach-IsSettled clicked (Clicks.click site (0 ∷ []) (init_nav_tree site "").0 (init site ""))

nav_to_page-upto_example :
    nav_to_page site "class_session.html" "" (root_node site)
    ≡ part_for site "class_session.html"
        (anchor_of "")
        (root_node site)
        (keys_upto ("class_session.html" ⧺ anchor_of "") ("annotated.html" ∷ "files.html" ∷ []))
nav_to_page-upto_example =
    nav_to_page-upto site "class_session.html" "" (root_node site) ((refl, tt), (tt, tt))

abbrev browser : Browser
browser = record { chrome = true; local_storage = []; session_storage = []; cookie = "" }

abbrev platform : Platform
platform = record { gmt_string = λ days. ""; set_cookie = λ assigned cookies. cookies }

abbrev unsynced : NavSync
unsynced = on_sync_click platform site (init_sync site browser)

Reach-IsAgreed_example : IsAgreed unsynced
unfolding StringMap.find
Reach-IsAgreed_example = Reach-IsAgreed platform unsynced (
    Agreement.click site (init_sync site browser)
      (load site browser (record { chrome = refl; unstored = refl })))
