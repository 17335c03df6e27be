-- ===== src/Resize/Width.antt =====
-- The width of the side panel of docs/docs_output/html/resize.js, hidden, shown, and on the next page.
use Prim.Native.Nat.{◌/◌, ◌%◌}
use Prim.Native.String.{◌∷◌}
use text.Mathlib.TextLemmas.{nil-append, cons-append}
use cherry_recorder_server.Prelude.{
  ℕ, Char, zero, suc, ◌+◌, ◌-◌, ◌*◌, ◌<◌, String, code, true, false, ◌&&◌, ◌==◌, ==_iff, leb,
  if◌then◌else◌, ◌≡◌, ◌≢◌, refl, ap, arith, ◌∙◌, ◌⧺◌, str_eq, str_eq-ne, Bool-cases, inl, inr,
}
use cherry_recorder_server.Text.{to_string, digit, digits}
use cherry_recorder_server.DocSearch.Cookie.{Platform, days, read_setting, read-write_setting}
use cherry_recorder_server.Resize.{
  Window, Layout, resize_cookie_name, parse_int, moves_footer, outer_width, write_width,
  resize_width, restore_width, resize_height, stored_width, new_width, collapse_expand, set_width,
  init_resizable,
}

one_char : (c : Char) (rest : String) → (c ∷ "") ⧺ rest ≡ c ∷ rest
one_char c rest = rw (cons-append, nil-append) refl

pub digit-code :
    (d : ℕ) (rest : String) → d < 10 → (c : Char) × (digit d ⧺ rest ≡ c ∷ rest) × (code c ≡ 48 + d)
digit-code zero rest h = (_, one_char _ rest, refl)
digit-code (suc zero) rest h = (_, one_char _ rest, refl)
digit-code (suc (suc zero)) rest h = (_, one_char _ rest, refl)
digit-code (suc (suc (suc zero))) rest h = (_, one_char _ rest, refl)
digit-code (suc (suc (suc (suc zero)))) rest h = (_, one_char _ rest, refl)
digit-code (suc (suc (suc (suc (suc zero))))) rest h = (_, one_char _ rest, refl)
digit-code (suc (suc (suc (suc (suc (suc zero)))))) rest h = (_, one_char _ rest, refl)
digit-code (suc (suc (suc (suc (suc (suc (suc zero))))))) rest h = (_, one_char _ rest, refl)
digit-code (suc (suc (suc (suc (suc (suc (suc (suc zero)))))))) rest h = (_, one_char _ rest, refl)
digit-code (suc (suc (suc (suc (suc (suc (suc (suc (suc zero))))))))) rest h =
    (_, one_char _ rest, refl)
digit-code (suc (suc (suc (suc (suc (suc (suc (suc (suc (suc n)))))))))) rest h =
    absurd (omega arith)

parse-digit :
    (acc d : ℕ) (rest : String)
    → d < 10
    → parse_int acc (digit d ⧺ rest) ≡ parse_int (10 * acc + d) rest
unfolding parse_int
parse-digit acc d rest h =
    let (c, e, value) = digit-code d rest h in
    let in_range : (leb 48 (code c) && leb (code c) 57) ≡ true = ground (arith, value) in
    let number : 10 * acc + (code c - 48) ≡ 10 * acc + d = omega (arith, value) in
    rw e (rw (in_range, number) refl)

parse-digits :
    (fuel n : ℕ) (rest : String) → n < fuel → parse_int 0 (digits fuel n rest) ≡ parse_int n rest
unfolding digits
parse-digits zero n rest h = absurd (omega arith)
parse-digits (suc fuel) n rest h = elim (Bool-cases (n / 10 == 0)) [
  | inl small ↦
      let whole : 10 * 0 + n % 10 ≡ n = omega (arith, (==_iff (n / 10) 0).0 small) in
      rw small (parse-digit 0 (n % 10) rest (omega arith) ∙ rw whole refl)
  | inr large ↦
      let whole : 10 * (n / 10) + n % 10 ≡ n = omega arith in
      let some_left : n / 10 ≢ 0 = λ none_left. ground (arith, large) in
      rw large (
        parse-digits fuel (n / 10) (digit (n % 10) ⧺ rest) (omega (arith, some_left))
        ∙ parse-digit (n / 10) (n % 10) rest (omega arith)
        ∙ rw whole refl)
]

pub parse-to_string : (n : ℕ) → parse_int 0 (to_string n) ≡ n
unfolding to_string parse_int
parse-to_string n = parse-digits (n + 1) n "" (omega arith)

cons_not_empty : (c : Char) (s text : String) → text ≡ c ∷ s → text ≢ ""
cons_not_empty c s text e missing = cc (e, missing)

digit-not_empty : (d : ℕ) (rest : String) → d < 10 → digit d ⧺ rest ≢ ""
digit-not_empty d rest h =
    let (c, e, value) = digit-code d rest h in cons_not_empty c rest (digit d ⧺ rest) e

-- One round with what the others make of the rest
round-not_empty :
    (fuel n : ℕ) (rest : String)
    → digits fuel (n / 10) (digit (n % 10) ⧺ rest) ≢ ""
    → digits (suc fuel) n rest ≢ ""
unfolding digits
round-not_empty fuel n rest later = elim (Bool-cases (n / 10 == 0)) [
  | inl small ↦ rw small (digit-not_empty (n % 10) rest (omega arith))
  | inr large ↦ rw large later
]

digits-not_empty : (fuel n : ℕ) (rest : String) → digits (suc fuel) n rest ≢ ""
unfolding digits
digits-not_empty zero n rest =
    round-not_empty zero n rest (digit-not_empty (n % 10) rest (omega arith))
digits-not_empty (suc fuel) n rest =
    round-not_empty (suc fuel) n rest (digits-not_empty fuel (n / 10) (digit (n % 10) ⧺ rest))

to_string-not_empty : (n : ℕ) → to_string n ≢ ""
unfolding to_string
to_string-not_empty n =
    let one_more : n + 1 ≡ suc n = omega arith in rw one_more (digits-not_empty n n "")

-- What the settings hold after the width is written
pub written_width :
    (p : Platform) (l : Layout)
    → l.browser.chrome ≡ true
    → read_setting (write_width p l).browser resize_cookie_name "250" ≡ to_string l.side_width
written_width p l plain =
    let inner : outer_width l - l.bar_width ≡ l.side_width = omega arith in
    read-write_setting p l.browser resize_cookie_name (to_string (outer_width l - l.bar_width))
      "250" (days 3650) plain (to_string-not_empty _) (λ session. absurd (ground (arith, session)))
    ∙ ap to_string inner

stored-written :
    (p : Platform) (l : Layout)
    → l.browser.chrome ≡ true
    → stored_width (write_width p l).browser ≡ l.side_width
unfolding stored_width
stored-written p l plain = ap (parse_int 0) (written_width p l plain) ∙ parse-to_string l.side_width

pub read-resize_width :
    (p : Platform) (w : Window) (l : Layout)
    → l.browser.chrome ≡ true
    → read_setting (resize_width p w l).browser resize_cookie_name "250" ≡ to_string l.side_width
unfolding resize_width
read-resize_width p w l plain =
    written_width p
      (record l {
        content_margin = outer_width l;
        footer_margin = if moves_footer w.page_layout then outer_width l else l.footer_margin;
      })
      plain

-- The heights are set apart from the widths.
pub heights-width :
    (w : Window) (l : Layout)
    → ((resize_height true w l).side_width ≡ l.side_width)
      × ((resize_height true w l).content_margin ≡ l.content_margin)
      × ((resize_height true w l).bar_width ≡ l.bar_width)
      × ((resize_height true w l).browser ≡ l.browser)
unfolding resize_height
heights-width w l = ground arith

-- A width that is stored is restored.
set_width-stored :
    (p : Platform) (w : Window) (l : Layout) (n : ℕ)
    → read_setting l.browser resize_cookie_name "250" ≡ to_string n
    → set_width p w l ≡ restore_width w n l
unfolding stored_width
set_width-stored p w l n e =
    let there : str_eq (read_setting l.browser resize_cookie_name "250") "" ≡ false =
      ap (λ t. str_eq t "") e ∙ str_eq-ne (to_string n) "" (to_string-not_empty n) in
    let width : stored_width l.browser ≡ n = ap (parse_int 0) e ∙ parse-to_string n in
    rw (there, width) refl

-- A page that is opened with a width in its settings
pub init_resizable-kept :
    (p : Platform) (v : Window) (m : Layout) (n : ℕ)
    → read_setting m.browser resize_cookie_name "250" ≡ to_string n
    → ((init_resizable p true v m).side_width ≡ n)
      × ((init_resizable p true v m).content_margin ≡ outer_width (init_resizable p true v m))
      × ((init_resizable p true v m).browser ≡ m.browser)
unfolding init_resizable restore_width
init_resizable-kept p v m n kept =
    let barred = record m { bar_width = if v.touch_device then 20 else 6 } in
    let frame = heights-width v (restore_width v n barred) in
    rw (set_width-stored p v barred n kept) (ground (arith, frame))

-- In a browser with storages, the width to which the panel is dragged is its width on a page that is
-- opened with these settings, whatever the window, and the content begins right of the panel there.
init_resizable-resize_width :
    (p : Platform) (w v : Window) (l m : Layout)
    → l.browser.chrome ≡ true
    → m.browser ≡ (resize_width p w l).browser
    → ((init_resizable p true v m).side_width ≡ l.side_width)
      × ((init_resizable p true v m).content_margin ≡ outer_width (init_resizable p true v m))
init_resizable-resize_width p w v l m plain same =
    let (width, margin, settings) =
      init_resizable-kept p v m l.side_width
        (ap (λ b. read_setting b resize_cookie_name "250") same ∙ read-resize_width p w l plain) in
    (width, margin)

hidden :
    (p : Platform) (w : Window) (l : Layout)
    → 0 < l.side_width
    → collapse_expand p w l ≡ write_width p (restore_width w 0 l)
unfolding collapse_expand
hidden p w l shown =
    let none_left : new_width w l.side_width (stored_width l.browser) ≡ 0 = ground (arith, shown) in
    ap (λ n. write_width p (restore_width w n l)) none_left

-- In a browser with storages, a panel that is shown, whatever its width, has the width 250 after it
-- is hidden and shown again.
collapse_expand-twice :
    (p : Platform) (w : Window) (l : Layout)
    → l.browser.chrome ≡ true
    → 0 < l.side_width
    → (collapse_expand p w (collapse_expand p w l)).side_width ≡ 250
unfolding collapse_expand restore_width
collapse_expand-twice p w l plain shown =
    ap (λ m. (collapse_expand p w m).side_width) (hidden p w l shown)
    ∙ ap (new_width w 0) (stored-written p (restore_width w 0 l) plain)
