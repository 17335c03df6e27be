-- ===== src/NavTree/Sync.antt =====
-- The button of docs/docs_output/html/navtree.js that ties the tree to the pages, and the link that
-- is kept in the settings while it does not.
use cherry_recorder_server.Prelude.{String, Bool, true, false, if◌then◌else◌, ◌⧺◌, str_eq}
use cherry_recorder_server.DocSearch.Cookie.{
  Browser, Platform, session, read_setting, write_setting, erase_setting,
}
use cherry_recorder_server.NavTree.{Site}
use cherry_recorder_server.NavTree.Links.{strip_path2, path_name, hash_url}

-- `#nav-sync`: its class and its picture, and the browser's settings
pub record NavSync : Type 0 where
  pub sync : Bool
  pub image : String
  pub browser : Browser

abbrev pub navpath_cookie_name : String
navpath_cookie_name = "navpath"

unfoldable pub cached_link : Browser → String
unfolding read_setting
cached_link b = read_setting b navpath_cookie_name ""

unfoldable pub store_link : Platform → String → NavSync → NavSync
unfolding write_setting
store_link p link n =
    if n.sync
    then n
    else record n { browser = write_setting p navpath_cookie_name link session n.browser }

unfoldable pub delete_link : Platform → NavSync → NavSync
unfolding erase_setting
delete_link p n = record n { browser = erase_setting p navpath_cookie_name n.browser }

abbrev pub show_sync_off : Site → NavSync → NavSync
show_sync_off site n = record n { image = site.relpath ⧺ "sync_off.png" }

abbrev pub show_sync_on : Site → NavSync → NavSync
show_sync_on site n = record n { image = site.relpath ⧺ "sync_on.png" }

-- The element of a new page, which has the class, prepared by `initNavTree`
unfoldable pub init_sync : Site → Browser → NavSync
unfolding cached_link
init_sync site b =
    let n : NavSync = record { sync = true; image = ""; browser = b } in
    if str_eq (cached_link b) ""
    then show_sync_on site n
    else record (show_sync_off site n) { sync = false }

unfoldable pub on_sync_click : Platform → Site → NavSync → NavSync
unfolding store_link delete_link strip_path2 path_name hash_url
on_sync_click p site n =
    if n.sync
    then store_link p (strip_path2 (path_name site) ⧺ hash_url site)
        (show_sync_off site (record n { sync = false }))
    else delete_link p (show_sync_on site (record n { sync = true }))
