-- ===== src/NavTree/Agreement.antt =====
-- The button of docs/docs_output/html/navtree.js and the link in the settings, over the pages of a
-- session.
use Prim.Native.String.{[], ◌∷◌}
use text.Mathlib.TextLemmas.{nil-append, cons-append}
use cherry_recorder_server.Prelude.{
  String, true, ◌≡◌, ◌≢◌, refl, sym, ap, arith, ◌∙◌, none, ◌⧺◌, str_eq, str_eq-ne, eq_refl,
  Bool-cases, inl, inr, Option-cases,
}
use cherry_recorder_server.StringMap
use cherry_recorder_server.StringMap.{StringMap, find-assign, find-erase}
use cherry_recorder_server.DocSearch.Cookie.{
  Browser, Platform, session, read_setting, write_setting, erase_setting, cookie_namespace,
}
use cherry_recorder_server.NavTree.{Site}
use cherry_recorder_server.NavTree.Links.{strip_path2, path_name, hash_url}
use cherry_recorder_server.NavTree.Sync.{
  NavSync, navpath_cookie_name, cached_link, store_link, delete_link, show_sync_on, init_sync,
  on_sync_click,
}

-- A browser with storages, where the link is not stored for good
pub record IsPlain (b : Browser) : Type 0 where
  pub chrome : b.chrome ≡ true
  pub unstored : StringMap.find (cookie_namespace ⧺ navpath_cookie_name) b.local_storage ≡ none

-- The pages of a session with one browser: a page is loaded, the button is clicked, a link that is
-- not empty is clicked.
pub data Reach (p : Platform) : NavSync → Type 0 where
  load : (site : Site) (b : Browser) → IsPlain b → Reach p (init_sync site b)
  reload : (site : Site) (n : NavSync) → Reach p n → Reach p (init_sync site n.browser)
  click : (site : Site) (n : NavSync) → Reach p n → Reach p (on_sync_click p site n)
  follow : (link : String) (n : NavSync) → link ≢ "" → Reach p n → Reach p (store_link p link n)

pub record IsAgreed (n : NavSync) : Type 0 where
  pub plain : IsPlain n.browser
  pub agree : n.sync ≡ str_eq (cached_link n.browser) ""

init-IsAgreed : (site : Site) (b : Browser) → IsPlain b → IsAgreed (init_sync site b)
unfolding init_sync
init-IsAgreed site b h = elim (Bool-cases (str_eq (cached_link b) "")) [
  | inl nothing ↦ simp nothing (record { plain = h; agree = sym nothing })
  | inr something ↦ simp something (record { plain = h; agree = sym something })
]

-- What is stored for the session is read.
stored_link :
    (p : Platform) (link : String) (b : Browser)
    → IsPlain b
    → link ≢ ""
    → cached_link (write_setting p navpath_cookie_name link session b) ≡ link
unfolding cached_link read_setting write_setting
stored_link p link b h named =
    let key = cookie_namespace ⧺ navpath_cookie_name in
    ground (
      arith,
      h.chrome,
      h.unstored,
      str_eq-ne link "" named,
      find-assign key key link b.session_storage,
      eq_refl key,
    )

stored-IsPlain :
    (p : Platform) (link : String) (b : Browser)
    → IsPlain b
    → IsPlain (write_setting p navpath_cookie_name link session b)
unfolding write_setting
stored-IsPlain p link b h = record {
  chrome = ground (arith, h.chrome);
  unstored = ground (arith, h.chrome, h.unstored);
}

store-IsAgreed :
    (p : Platform) (link : String) (n : NavSync)
    → link ≢ ""
    → IsAgreed n
    → IsAgreed (store_link p link n)
unfolding store_link
store-IsAgreed p link n named h = elim (Bool-cases n.sync) [
  | inl synced ↦ simp synced h
  | inr free ↦ simp free (record {
    plain = stored-IsPlain p link n.browser h.plain;
    agree = sym (
        ap (λ l. str_eq l "") (stored_link p link n.browser h.plain named)
        ∙ str_eq-ne link "" named);
  })
]

deleted_link :
    (p : Platform) (b : Browser)
    → IsPlain b
    → cached_link (erase_setting p navpath_cookie_name b) ≡ ""
unfolding erase_setting cached_link read_setting
deleted_link p b h =
    let key = cookie_namespace ⧺ navpath_cookie_name in
    elim (Option-cases (StringMap.find key b.session_storage)) [
      | inl gone ↦ simp (h.chrome, h.unstored, gone)
      | inr (link, found) ↦ elim (Bool-cases (str_eq link "")) [
        | inl empty ↦ simp (h.chrome, h.unstored, found, empty)
        | inr full ↦ simp (h.chrome, h.unstored, found, full, find-erase key key b.session_storage)
      ]
    ]

deleted-IsAgreed :
    (p : Platform) (n : NavSync) → n.sync ≡ true → IsPlain n.browser → IsAgreed (delete_link p n)
unfolding delete_link erase_setting
deleted-IsAgreed p n synced h = record {
  plain = record {
    chrome = ground (arith, h.chrome, h.unstored);
    unstored = ground (arith, h.chrome, h.unstored);
  };
  agree = synced ∙ sym (ap (λ l. str_eq l "") (deleted_link p n.browser h) ∙ eq_refl "");
}

-- A page's address with its hash is not empty.
not_empty : (s t : String) → s ⧺ "#" ⧺ t ≢ ""
not_empty [] t e = cc (rw (nil-append, cons-append) at e)
not_empty (c ∷ s) t e = cc (rw cons-append at e)

url_not_empty : (site : Site) → strip_path2 (path_name site) ⧺ hash_url site ≢ ""
unfolding hash_url
url_not_empty site = not_empty (strip_path2 (path_name site)) _

click-IsAgreed :
    (p : Platform) (site : Site) (n : NavSync) → IsAgreed n → IsAgreed (on_sync_click p site n)
unfolding on_sync_click store_link
click-IsAgreed p site n h = elim (Bool-cases n.sync) [
  | inl synced ↦
      let url = strip_path2 (path_name site) ⧺ hash_url site in
      simp synced (record {
        plain = stored-IsPlain p url n.browser h.plain;
        agree = sym (
            ap (λ l. str_eq l "") (stored_link p url n.browser h.plain (url_not_empty site))
            ∙ str_eq-ne url "" (url_not_empty site));
      })
  | inr free ↦
      simp free (deleted-IsAgreed p (show_sync_on site (record n { sync = true })) refl h.plain)
]

-- In a browser with storages where no link is stored for good, whichever pages are loaded and
-- whatever is clicked, the button is on exactly while no link is kept.
pub Reach-IsAgreed : (p : Platform) (n : NavSync) → Reach p n → IsAgreed n
Reach-IsAgreed p _ (load site b h) = init-IsAgreed site b h
Reach-IsAgreed p _ (reload site n r) = init-IsAgreed site n.browser (Reach-IsAgreed p n r).plain
Reach-IsAgreed p _ (click site n r) = click-IsAgreed p site n (Reach-IsAgreed p n r)
Reach-IsAgreed p _ (follow link n named r) = store-IsAgreed p link n named (Reach-IsAgreed p n r)
