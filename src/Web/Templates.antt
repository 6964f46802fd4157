-- ===== src/Web/Templates.antt =====
-- The templates of web/handler.go: which one a page is executed from. Parsing and executing them is
-- html/template's: `T` is a parsed set of templates, and `parse` is ParseFS on the embedded files.
use Prim.Native.String.{◌++◌}
use claude_gate.Prelude.{
  true, sym, ◌∙◌, Bool-cases, eq_iff, ℕ, String, ◌≡◌, refl, ap, Option, none, some, List, [], ◌∷◌,
  ◌==◌, if◌then◌else◌, arith, Option-cases, inl, inr,
}
use claude_gate.Store.Table.{map_option, exists}
use claude_gate.Prelude.Result.{Error}
use claude_gate.Web.Sessions.{LoginReply, see_other, login_page}
use claude_gate.Web.Pages.{
  PageReply, dashboard_page, real_tokens_page, gate_tokens_page, server_error, redirected,
}

-- The templates of a Handler; the map layoutCache as a list of its pairs.
pub record Templates (T : Type 0) : Type 0 where
  pub templates : T
  pub layout_cache : List (String × T)

-- The pages that NewHandler parses with the layout.
abbrev pub pages : List String
pages = "dashboard.html" ∷ "real_tokens.html" ∷ "gate_tokens.html" ∷ []

-- What goes to the client: a template of a parsed set, executed; http.Error; or a redirect.
pub data Rendering (T : Type 0) : Type 0 where
  executed : T → String → Rendering T
  http_error : ℕ → String → Rendering T
  failed : Error → Rendering T
  redirects : LoginReply → Rendering T

module _ {T : Type 0} where
  abbrev with_page : String → Option T → Option (List (String × T)) → Option (List (String × T))
  with_page page none rest = none
  with_page page (some t) none = none
  with_page page (some t) (some rest) = some ((page, t) ∷ rest)

  -- The loop over the pages.
  unfoldable pub parse_pages : (List String → Option T) → List String → Option (List (String × T))
  parse_pages parse [] = some []
  parse_pages parse (page ∷ rest) =
      let more = parse_pages parse rest in
      with_page page (parse ("templates/layout.html" ∷ ("templates/" ++ page) ∷ [])) more

  abbrev with_templates : Option T → Option (List (String × T)) → Option (Templates T)
  with_templates none cache = none
  with_templates (some t) cache = map_option (λ c. record { templates = t; layout_cache = c }) cache

  -- The templates that NewHandler makes, `none` for an error.
  unfoldable pub new_templates : (List String → Option T) → Option (Templates T)
  unfolding parse_pages
  new_templates parse = with_templates (parse ("templates/*.html" ∷ [])) (parse_pages parse pages)

  -- layoutCache[name].
  unfoldable pub look_up : String → List (String × T) → Option T
  look_up name [] = none
  look_up name ((k, t) ∷ rest) = if k == name then some t else look_up name rest

  -- render.
  abbrev pub render : Templates T → String → Rendering T
  render h name = executed h.templates name

  abbrev pub or_not_found : Option T → Rendering T
  or_not_found none = http_error 500 "template not found"
  or_not_found (some t) = executed t "layout"

  unfoldable pub render_layout : Templates T → String → Rendering T
  unfolding look_up
  render_layout h name = or_not_found (look_up name h.layout_cache)

  -- loginPage, and what loginSubmit and logout answer.
  abbrev pub render_login : Templates T → LoginReply → Rendering T
  render_login h (login_page text) = render h "login"
  render_login h (see_other to cookie) = redirects (see_other to cookie)

  unfoldable pub render_page : Templates T → PageReply → Rendering T
  unfolding render_layout
  render_page h (dashboard_page d) = render_layout h "dashboard.html"
  render_page h (real_tokens_page ts stats flash) = render_layout h "real_tokens.html"
  render_page h (gate_tokens_page ts stats flash new) = render_layout h "gate_tokens.html"
  render_page h (server_error x) = failed x
  render_page h (redirected r) = render_login h r

-- The page that a reply shows.
abbrev pub page_name : PageReply → Option String
page_name (dashboard_page d) = some "dashboard.html"
page_name (real_tokens_page ts stats flash) = some "real_tokens.html"
page_name (gate_tokens_page ts stats flash new) = some "gate_tokens.html"
page_name (server_error x) = none
page_name (redirected r) = none

module _ {T : Type 0} (parse : List String → Option T) where
  abbrev files : String → List String
  files page = "templates/layout.html" ∷ ("templates/" ++ page) ∷ []

  found :
      (name : String) (ps : List String) (cache : List (String × T))
      → parse_pages parse ps ≡ some cache
      → exists (λ page. page == name) ps ≡ true
      → (t : T) × (parse (files name) ≡ some t) × (look_up name cache ≡ some t)
  unfolding parse_pages look_up exists
  found name [] cache h listed = absurd (ground arith)
  found name (page ∷ ps) cache h listed = elim (Option-cases (parse (files page))) [
    | inl bad ↦ absurd (ground arith)
    | inr (t, good) ↦ elim (Option-cases (parse_pages parse ps)) [
      | inl bad ↦ absurd (ground arith)
      | inr (more, rest) ↦
          let whole : cache ≡ (page, t) ∷ more = ground arith in
          elim (Bool-cases (page == name)) [
            | inl same ↦
                let eq : page ≡ name = ground (arith, eq_iff page name) in
                (t, ap (λ n. parse (files n)) (sym eq) ∙ good, rw (whole, same, look_up) refl)
            | inr other ↦
                let (u, there, inside) = found name ps more rest (ground arith) in
                (u, there, rw (whole, other, look_up) inside)
          ]
    ]
  ]

  cache_of :
      (h : Templates T)
      → new_templates parse ≡ some h
      → parse_pages parse pages ≡ some h.layout_cache
  unfolding new_templates
  cache_of h made = elim (Option-cases (parse ("templates/*.html" ∷ []))) [
    | inl bad ↦ absurd (ground arith)
    | inr (t, good) ↦ elim (Option-cases (parse_pages parse pages)) [
      | inl bad ↦ absurd (ground arith)
      | inr (c, all) ↦ ground arith
    ]
  ]

  at_page :
      (h : Templates T) (name : String)
      → new_templates parse ≡ some h
      → exists (λ page. page == name) pages ≡ true
      → (t : T) × (parse (files name) ≡ some t) × (render_layout h name ≡ executed t "layout")
  unfolding render_layout
  at_page h name made listed =
      let (t, there, inside) = found name pages h.layout_cache (cache_of h made) listed in
      (t, there, ap or_not_found inside)

  -- With the templates that NewHandler made, every page is executed from the layout together with its
  -- own file: no page ends with "template not found".
  pub render_page-layout :
      (h : Templates T) (p : PageReply) (name : String)
      → new_templates parse ≡ some h
      → page_name p ≡ some name
      → (t : T) × (parse (files name) ≡ some t) × (render_page h p ≡ executed t "layout")
  unfolding render_page exists
  render_page-layout h (dashboard_page d) name made shown =
      let eq : name ≡ "dashboard.html" = ground arith in
      rw eq (at_page h "dashboard.html" made refl)
  render_page-layout h (real_tokens_page ts stats flash) name made shown =
      let eq : name ≡ "real_tokens.html" = ground arith in
      rw eq (at_page h "real_tokens.html" made refl)
  render_page-layout h (gate_tokens_page ts stats flash new) name made shown =
      let eq : name ≡ "gate_tokens.html" = ground arith in
      rw eq (at_page h "gate_tokens.html" made refl)
  render_page-layout h (server_error x) name made shown = absurd (ground arith)
  render_page-layout h (redirected r) name made shown = absurd (ground arith)
