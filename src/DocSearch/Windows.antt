-- ===== src/DocSearch/Windows.antt =====
-- Where docs/docs_output/html/search/search.js puts the window of the sections and that of the
-- results. Positions and sizes are whole pixels.
pub mod Fit
use cherry_recorder_server.Prelude.{ℕ, ◌==◌, Bool, not, if◌then◌else◌, List, [], ◌∷◌}
use cherry_recorder_server.Integer.{ℤ, pos, negsuc, ◌+ℤ◌, ◌-ℤ◌, leb_ℤ}

pub record Offset : Type 0 where
  pub left : ℤ
  pub top : ℤ

-- An element: its own offset and those of its `offsetParent`s below the body
pub record Placed : Type 0 where
  pub width : ℕ
  pub height : ℕ
  pub offsets : List Offset

abbrev pub sum_left : List Offset → ℤ
sum_left [] = pos 0
sum_left (o ∷ offsets) = o.left +ℤ sum_left offsets

abbrev pub sum_top : List Offset → ℤ
sum_top [] = pos 0
sum_top (o ∷ offsets) = o.top +ℤ sum_top offsets

-- An element without a width has no place.
unfoldable pub get_x_pos : Placed → ℤ
get_x_pos e = if e.width == 0 then pos 0 else sum_left e.offsets

unfoldable pub get_y_pos : Placed → ℤ
get_y_pos e = if e.width == 0 then pos 0 else sum_top e.offsets

pub record Size : Type 0 where
  pub width : ℕ
  pub height : ℕ

pub record Box : Type 0 where
  pub left : ℤ
  pub top : ℤ
  pub size : Size

-- `style.left` and `style.top` of the window of the sections, for the button that opens it
unfoldable pub select_place : Placed → ℤ × ℤ
unfolding get_x_pos get_y_pos
select_place button = (get_x_pos button, get_y_pos button +ℤ pos button.height)

-- The size, or what is left to the end of the page
abbrev pub fitted : ℤ → ℤ → ℤ → ℤ
fitted size start end = if leb_ℤ (size +ℤ start +ℤ pos 8) end then size else end -ℤ start -ℤ pos 8

abbrev pub at_least_10 : ℤ → ℤ
at_least_10 left = if leb_ℤ (pos 10) left then left else pos 10

-- A length in the style: a negative one is none, and the style keeps the one it had.
abbrev pub styled : ℤ → ℕ → ℕ
styled (pos n) old = n
styled (negsuc n) old = old

-- The window of the results, for the search box, the width of the results, the size of the page, and
-- the size that the window had
unfoldable pub results_place : Placed → ℕ → ℕ → ℕ → Size → Box
unfolding get_x_pos get_y_pos
results_place search_box results_width max_width max_height old =
    let left = at_least_10 (get_x_pos search_box +ℤ pos 150 -ℤ pos results_width) in
    let top = get_y_pos search_box +ℤ pos 20 in
    record {
      left = left;
      top = top;
      size = record {
        width = styled (fitted (pos 300) left (pos max_width)) old.width;
        height = styled (fitted (pos 400) top (pos max_height)) old.height;
      };
    }
