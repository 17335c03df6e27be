-- ===== src/Clipboard/Copies.antt =====
-- What docs/docs_output/html/clipboard.js puts into the clipboard.
use Prim.Native.String.{[], ◌∷◌}
use text.Mathlib.TextLemmas.{nil-append, cons-append}
use cherry_recorder_server.Prelude.{
  ℕ, suc, zero, ◌≤◌, ◌<◌, String, Char, code, Bool, true, false, ◌==◌, ==_iff, eq_iff, ◌⧺◌, ◌≡◌,
  refl, arith, ap, sym, ◌∙◌, if◌then◌else◌, str_eq, Option, none, some, Option-cases, inl, inr,
}
use cherry_recorder_server.Clipboard.{
  is_space, is_line_terminator, after_blank, chars, replace_blank, strip_newlines, clean, Content,
  text_node, element, Contents, nil, cons, is_hidden, without_hidden, kept_of, text_content,
  text_of, Button, on_click,
}

-- The characters that are no white space
unfoldable pub visible : String → String
visible [] = ""
visible (c ∷ s) = let rest = visible s in if is_space (code c) then rest else c ∷ rest

-- The texts outside hidden elements
unfoldable mutual
  pub shown : Contents → String
  shown nil = ""
  shown (cons content contents) =
      let own = shown_of content in
      let rest = shown contents in if is_hidden content then rest else own ⧺ rest

  pub shown_of : Content → String
  shown_of (text_node s) = s
  shown_of (element classes contents) = shown contents

mutual
  unfolding without_hidden text_content shown

  text_content-without_hidden :
      (contents : Contents) → text_content (without_hidden contents) ≡ shown contents
  text_content-without_hidden nil = refl
  text_content-without_hidden (cons content contents) =
      ground (arith, text_of-kept_of content, text_content-without_hidden contents)

  text_of-kept_of : (content : Content) → text_of (kept_of content) ≡ shown_of content
  text_of-kept_of (text_node s) = refl
  text_of-kept_of (element classes contents) = text_content-without_hidden contents

visible-newline : (c : Char) (s : String) → (code c == 10) ≡ true → visible (c ∷ s) ≡ visible s
unfolding visible
visible-newline c s e = ground (arith, ==_iff (code c) 10, e)

visible-strip_newlines : (s : String) → visible (strip_newlines s) ≡ visible s
unfolding strip_newlines visible
visible-strip_newlines [] = refl
visible-strip_newlines (c ∷ s) =
    ground (arith, eq_iff (strip_newlines s) "", visible-newline c s, visible-strip_newlines s)

after_blank-visible :
    (s r : String) → after_blank s ≡ some r → (visible s ≡ visible r) × (chars r < chars s)
unfolding after_blank visible chars
after_blank-visible [] r e = cc
after_blank-visible (c ∷ s) r e = elim (Option-cases (after_blank s)) [
  | inr (q, later) ↦ ground (arith, e, later, after_blank-visible s q later)
  | inl none_later ↦ ground (arith, e, none_later, visible-newline c s)
]

fits :
    (fuel : ℕ) (c : Char) (s r : String)
    → chars (c ∷ s) ≤ suc fuel
    → chars r < chars (c ∷ s)
    → chars r ≤ fuel
unfolding chars
fits fuel c s r h k = omega (arith, h, k)

visible-cons : (c : Char) (s t : String) → visible s ≡ visible t → visible (c ∷ s) ≡ visible (c ∷ t)
unfolding visible
visible-cons c s t e = rw e refl

visible-line : (s : String) → visible ("\n" ⧺ s) ≡ visible s
unfolding visible
visible-line s = rw (cons-append, nil-append) refl

-- A step of the replacement, with what is matched and what follows otherwise
replaced-visible :
    (fuel : ℕ) (blank : Option String) (c : Char) (next s : String)
    → visible next ≡ visible s
    → ((r : String) → blank ≡ some r → visible (replace_blank fuel true r) ≡ visible (c ∷ s))
    → visible (elim blank as (λ _. String) [
      | none ↦ c ∷ next
      | some rest ↦ "\n" ⧺ replace_blank fuel true rest
    ])
      ≡ visible (c ∷ s)
replaced-visible fuel none c next s e h = visible-cons c next s e
replaced-visible fuel (some rest) c next s e h =
    visible-line (replace_blank fuel true rest) ∙ h rest refl

if_blank :
    (b : Bool) (blank : Option String) (r : String)
    → (if b then blank else none) ≡ some r
    → blank ≡ some r
if_blank true blank r e = e
if_blank false blank r e = cc

replace_blank-visible :
    (fuel : ℕ) (at_start : Bool) (s : String)
    → chars s ≤ fuel
    → visible (replace_blank fuel at_start s) ≡ visible s
unfolding replace_blank chars
replace_blank-visible zero at_start [] h = refl
replace_blank-visible zero at_start (c ∷ s) h = absurd (omega (arith, h))
replace_blank-visible (suc fuel) at_start [] h = refl
replace_blank-visible (suc fuel) at_start (c ∷ s) h =
    replaced-visible fuel (if at_start then after_blank (c ∷ s) else none) c _ s
      (replace_blank-visible fuel (is_line_terminator (code c)) s (omega (arith, h)))
      λ r e.
        let (same, shorter) =
          after_blank-visible (c ∷ s) r (if_blank at_start (after_blank (c ∷ s)) r e) in
        replace_blank-visible fuel true r (fits fuel c s r h shorter) ∙ sym same

-- The last character is a newline.
unfoldable pub ends_with_newline : String → Bool
ends_with_newline [] = false
ends_with_newline (c ∷ s) =
    let rest = ends_with_newline s in if str_eq s "" then code c == 10 else rest

ends_with_newline-strip_newlines : (s : String) → ends_with_newline (strip_newlines s) ≡ false
unfolding strip_newlines ends_with_newline
ends_with_newline-strip_newlines [] = refl
ends_with_newline-strip_newlines (c ∷ s) =
    ground (arith, eq_iff (strip_newlines s) "", ends_with_newline-strip_newlines s)

-- What is copied has the characters outside hidden elements, but for white space, in their order,
-- and its last character is no newline.
pub on_click-visible :
    (fragment : Contents) (button : Button)
    → (visible (on_click fragment button).0 ≡ visible (shown fragment))
      × (ends_with_newline (on_click fragment button).0 ≡ false)
unfolding on_click clean
on_click-visible fragment button =
    let copied = text_content (without_hidden fragment) in
    (
      visible-strip_newlines (replace_blank (chars copied) true copied)
          ∙ replace_blank-visible (chars copied) true copied (omega arith)
          ∙ ap visible (text_content-without_hidden fragment),
      ends_with_newline-strip_newlines (replace_blank (chars copied) true copied),
    )
