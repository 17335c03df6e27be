-- ===== src/Resize/Events.antt =====
-- The width of the side panel of docs/docs_output/html/resize.js over the events of a page.
use cherry_recorder_server.Prelude.{ℕ, true, List, [], ◌∷◌, ◌≡◌, refl, ap, ◌∙◌, arith}
use cherry_recorder_server.Text.{to_string}
use cherry_recorder_server.DocSearch.Cookie.{Platform, read_setting, write_setting}
use cherry_recorder_server.Resize.{
  Window, Layout, Event, dragged, double_clicked, resized, loaded, resize_cookie_name, outer_width,
  write_width, resize_width, restore_width, new_width, stored_width, collapse_expand, resize_height,
  init_resizable, on_event, on_events,
}
use cherry_recorder_server.Resize.Width.{
  written_width, read-resize_width, heights-width, init_resizable-kept,
}

-- The content begins right of the panel, and the settings, in the storages, have its width.
record IsKept (l : Layout) : Type 0 where
  chrome : l.browser.chrome ≡ true
  margin : l.content_margin ≡ outer_width l
  setting : read_setting l.browser resize_cookie_name "250" ≡ to_string l.side_width

write_width-chrome :
    (p : Platform) (l : Layout) → l.browser.chrome ≡ true → (write_width p l).browser.chrome ≡ true
unfolding write_setting
write_width-chrome p l plain = ground arith

resize_width-IsKept :
    (p : Platform) (w : Window) (l : Layout) → l.browser.chrome ≡ true → IsKept (resize_width p w l)
unfolding resize_width
resize_width-IsKept p w l plain = record {
  chrome = write_width-chrome p (record l { content_margin = outer_width l }) plain;
  margin = refl;
  setting = read-resize_width p w l plain;
}

collapse_expand-IsKept :
    (p : Platform) (w : Window) (l : Layout)
    → l.browser.chrome ≡ true
    → IsKept (collapse_expand p w l)
unfolding collapse_expand restore_width
collapse_expand-IsKept p w l plain =
    let restored = restore_width w (new_width w l.side_width (stored_width l.browser)) l in
    record {
      chrome = write_width-chrome p restored plain;
      margin = refl;
      setting = written_width p restored plain;
    }

resize_height-IsKept : (w : Window) (l : Layout) → IsKept l → IsKept (resize_height true w l)
resize_height-IsKept w l kept =
    let (side, margin, bar, settings) = heights-width w l in
    record {
      chrome = ap (λ b. b.chrome) settings ∙ kept.chrome;
      margin = ground (arith, side, margin, bar, kept.margin);
      setting = rw (settings, side) kept.setting;
    }

on_event-IsKept :
    (p : Platform) (w : Window) (event : Event) (l : Layout)
    → IsKept l
    → IsKept (on_event p true w event l)
unfolding on_event
on_event-IsKept p w (dragged n) l kept =
    resize_width-IsKept p w (record l { side_width = n }) kept.chrome
on_event-IsKept p w double_clicked l kept = collapse_expand-IsKept p w l kept.chrome
on_event-IsKept p w resized l kept = resize_height-IsKept w l kept
on_event-IsKept p w loaded l kept = resize_height-IsKept w l kept

on_events-IsKept :
    (p : Platform) (events : List (Window × Event)) (l : Layout)
    → IsKept l
    → IsKept (on_events p true events l)
unfolding on_events
on_events-IsKept p [] l kept = kept
on_events-IsKept p ((w, event) ∷ later) l kept =
    on_events-IsKept p later (on_event p true w event l) (on_event-IsKept p w event l kept)

init_resizable-IsKept :
    (p : Platform) (w : Window) (l : Layout) (n : ℕ)
    → l.browser.chrome ≡ true
    → read_setting l.browser resize_cookie_name "250" ≡ to_string n
    → IsKept (init_resizable p true w l)
init_resizable-IsKept p w l n plain kept =
    let (width, margin, settings) = init_resizable-kept p w l n kept in
    record {
      chrome = ap (λ b. b.chrome) settings ∙ plain;
      margin = margin;
      setting = rw (settings, width) kept;
    }

-- In a browser with storages, where the width in the settings is unset or was written as a number:
-- after any sequence of drags, double clicks, changes of the window and loads on an open page, the
-- content begins right of the panel, and a page that is opened with these settings, whatever its
-- window, has the panel in the same width and the content right of it.
pub init_resizable-on_events :
    (p : Platform) (w v : Window) (events : List (Window × Event)) (l m : Layout) (n : ℕ)
    → l.browser.chrome ≡ true
    → read_setting l.browser resize_cookie_name "250" ≡ to_string n
    → m.browser ≡ (on_events p true events (init_resizable p true w l)).browser
    → let page = on_events p true events (init_resizable p true w l) in
      let next = init_resizable p true v m in
      (page.content_margin ≡ outer_width page)
      × (next.side_width ≡ page.side_width)
      × (next.content_margin ≡ outer_width next)
init_resizable-on_events p w v events l m n plain stored same =
    let page = on_events p true events (init_resizable p true w l) in
    let kept =
      on_events-IsKept p events (init_resizable p true w l)
        (init_resizable-IsKept p w l n plain stored) in
    let (width, margin, settings) =
      init_resizable-kept p v m page.side_width
        (ap (λ b. read_setting b resize_cookie_name "250") same ∙ kept.setting) in
    (kept.margin, width, margin)
