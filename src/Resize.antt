-- ===== src/Resize.antt =====
-- docs/docs_output/html/resize.js: the side panel of a page, whose width is kept in the settings.
-- Sizes are whole pixels; the padding of the panel is the width of its bar, so that its outer width
-- is its width and the bar.
pub mod Width
pub mod Events
use Prim.Native.String.{[], ◌∷◌}
use cherry_recorder_server.Prelude.{
  ℕ, ◌+◌, ◌-◌, ◌*◌, String, code, Bool, true, false, ◌&&◌, ◌==◌, ltb, leb, if◌then◌else◌, str_eq,
  Option, none, some, List, [], ◌∷◌,
}
use cherry_recorder_server.Text.{to_string}
use cherry_recorder_server.DocSearch.Cookie.{Browser, Platform, days, read_setting, write_setting}

-- `page_layout` is none where it is not defined.
pub record Window : Type 0 where
  pub width : ℕ
  pub height : ℕ
  pub header_height : ℕ
  pub footer_height : ℕ
  pub page_layout : Option ℕ
  pub touch_device : Bool

pub record Layout : Type 0 where
  pub bar_width : ℕ
  pub side_width : ℕ
  pub side_height : ℕ
  pub navtree_height : ℕ
  pub content_height : ℕ
  pub content_margin : ℕ
  pub footer_margin : ℕ
  pub browser : Browser

abbrev pub resize_cookie_name : String
resize_cookie_name = "width"

-- `parseInt` of what the script writes
unfoldable pub parse_int : ℕ → String → ℕ
parse_int n [] = n
parse_int n (c ∷ s) =
    let rest = parse_int (10 * n + (code c - 48)) s in
    if leb 48 (code c) && leb (code c) 57 then rest else n

abbrev pub outer_width : Layout → ℕ
outer_width l = l.side_width + l.bar_width

abbrev pub moves_footer : Option ℕ → Bool
moves_footer none = false
moves_footer (some page_layout) = page_layout == 1

abbrev pub write_width : Platform → Layout → Layout
write_width p l = record l {
  browser =
      write_setting p resize_cookie_name (to_string (outer_width l - l.bar_width)) (days 3650)
        l.browser;
}

unfoldable pub resize_width : Platform → Window → Layout → Layout
unfolding to_string write_setting
resize_width p w l = write_width p (record l {
  content_margin = outer_width l;
  footer_margin = if moves_footer w.page_layout then outer_width l else l.footer_margin;
})

unfoldable pub restore_width : Window → ℕ → Layout → Layout
restore_width w nav_width l = record l {
  content_margin = nav_width + l.bar_width;
  footer_margin = if moves_footer w.page_layout then nav_width + l.bar_width else l.footer_margin;
  side_width = nav_width;
}

-- Under a header that goes across the page
abbrev pub low_tree : Window → Layout → Layout
low_tree w l =
    let height = (w.height - w.header_height) - w.footer_height in
    record l { content_height = height; navtree_height = height; side_height = height }

abbrev pub high_tree : Window → Layout → Layout
high_tree w l = record l {
  content_height = w.height - w.footer_height;
  navtree_height = w.height - w.header_height;
  side_height = w.height;
}

-- `page_layout` 0 or undefined, 1, or another, which leaves the heights undefined
abbrev pub tree_heights : Window → Layout → Option ℕ → Option Layout
tree_heights w l none = some (low_tree w l)
tree_heights w l (some page_layout) =
    if page_layout == 0
    then some (low_tree w l)
    else if page_layout == 1
    then some (high_tree w l)
    else none

-- Without heights, the style is not changed: "undefinedpx" is no length.
abbrev pub kept_or : Layout → Option Layout → Layout
kept_or l none = l
kept_or l (some resized) = resized

unfoldable pub resize_height : Bool → Window → Layout → Layout
resize_height treeview w l =
    if treeview
    then kept_or l (tree_heights w l w.page_layout)
    else record l { content_height = w.height - w.header_height }

-- The stored width, 250 if there is none
unfoldable pub stored_width : Browser → ℕ
unfolding read_setting parse_int
stored_width b = parse_int 0 (read_setting b resize_cookie_name "250")

-- From the width of the panel and the stored one
abbrev pub new_width : Window → ℕ → ℕ → ℕ
new_width w side_width stored =
    if ltb 0 side_width then 0 else if ltb 250 stored && ltb stored w.width then stored else 250

unfoldable pub collapse_expand : Platform → Window → Layout → Layout
unfolding restore_width stored_width to_string write_setting
collapse_expand p w l =
    write_width p (restore_width w (new_width w l.side_width (stored_width l.browser)) l)

-- `if (width) { restoreWidth(width); } else { resizeWidth(); }`
abbrev pub set_width : Platform → Window → Layout → Layout
set_width p w l =
    if str_eq (read_setting l.browser resize_cookie_name "250") ""
    then resize_width p w l
    else restore_width w (stored_width l.browser) l

-- `initResizable`, for a page with its layout from the style sheet
unfoldable pub init_resizable : Platform → Bool → Window → Layout → Layout
unfolding resize_width restore_width resize_height stored_width read_setting
init_resizable p treeview w l =
    if treeview
    then resize_height true w
        (set_width p w (record l { bar_width = if w.touch_device then 20 else 6 }))
    else resize_height false w (record l { bar_width = 6 })

-- What the user and the browser do to an open page: the panel is dragged to a width, its handle is
-- clicked twice, the window is resized, the page is loaded.
pub data Event : Type 0 where
  dragged : ℕ → Event
  double_clicked resized loaded : Event

-- A page without the tree has no panel, and binds neither the handle nor its double click.
unfoldable pub on_event : Platform → Bool → Window → Event → Layout → Layout
unfolding resize_width resize_height collapse_expand
on_event p treeview w (dragged n) l =
    if treeview then resize_width p w (record l { side_width = n }) else l
on_event p treeview w double_clicked l = if treeview then collapse_expand p w l else l
on_event p treeview w resized l = resize_height treeview w l
on_event p treeview w loaded l = resize_height treeview w l

-- Each event with the sizes that are measured when it happens
unfoldable pub on_events : Platform → Bool → List (Window × Event) → Layout → Layout
unfolding on_event
on_events p treeview [] l = l
on_events p treeview ((w, event) ∷ later) l =
    on_events p treeview later (on_event p treeview w event l)
