-- ===== src/Examples/Panels.antt =====
-- The side panel of the documentation, dragged and hidden.
use cherry_recorder_server.Prelude.{true, false, none, List, [], ◌∷◌, ◌≡◌, refl}
use cherry_recorder_server.Text.{to_string}
use cherry_recorder_server.StringMap
use cherry_recorder_server.DocSearch.Cookie.{Browser, Platform, read_setting}
use cherry_recorder_server.Resize.{
  resize_cookie_name, Window, Layout, Event, dragged, double_clicked, resized, outer_width,
  init_resizable, on_events,
}
use cherry_recorder_server.Resize.Events.{init_resizable-on_events}

abbrev platform : Platform
platform = record { gmt_string = λ days. ""; set_cookie = λ assigned cookies. cookies }

abbrev browser : Browser
browser = record { chrome = true; local_storage = []; session_storage = []; cookie = "" }

abbrev window : Window
window = record {
  width = 1280;
  height = 720;
  header_height = 60;
  footer_height = 20;
  page_layout = none;
  touch_device = false;
}

abbrev phone : Window
phone = record window { width = 400; touch_device = true }

abbrev opened : Layout
opened = record {
  bar_width = 6;
  side_width = 321;
  side_height = 640;
  navtree_height = 640;
  content_height = 640;
  content_margin = 256;
  footer_margin = 0;
  browser = browser;
}

abbrev events : List (Window × Event)
events = (window, dragged 321) ∷ (phone, resized) ∷ (phone, double_clicked) ∷ []

abbrev next_page : Layout
next_page = record opened {
  side_width = 250;
  browser = (on_events platform true events (init_resizable platform true window opened)).browser;
}

unset : read_setting browser resize_cookie_name "250" ≡ to_string 250
unfolding read_setting StringMap.find to_string
unset = refl

init_resizable-on_events_example :
    ((on_events platform true events (init_resizable platform true window opened)).content_margin
      ≡ outer_width (on_events platform true events (init_resizable platform true window opened)))
    × ((init_resizable platform true phone next_page).side_width
        ≡ (on_events platform true events (init_resizable platform true window opened)).side_width)
    × ((init_resizable platform true phone next_page).content_margin
        ≡ outer_width (init_resizable platform true phone next_page))
init_resizable-on_events_example =
    init_resizable-on_events platform window phone events opened next_page 250 refl unset refl

-- The panel is hidden, and stays hidden on the next page.
hidden_next : (init_resizable platform true phone next_page).side_width ≡ 0
unfolding init_resizable on_events StringMap.find StringMap.assign
hidden_next = refl
