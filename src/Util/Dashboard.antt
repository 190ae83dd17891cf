-- ===== src/Util/Dashboard.antt =====
-- util/dashboard.js: the navigation bar, the sidebar with its counters, and the skins.
pub mod Tags
pub mod Look
use elastic_job_lite.Prelude.{
  String, Bool, true, false, Option, none, some, List, [], ◌∷◌, ◌===◌, ◌<>◌, length, if◌then◌else◌,
  ◌>>=◌, ◌>>◌, skip, each, ltb, ◌==◌, numeral_text,
}
use elastic_job_lite.Browser.{Browser}
use elastic_job_lite.Browser.Closures.{Handler, Success, Center}
use elastic_job_lite.Browser.Calls.{
  Method, Request, no_body, fields, on_click, bind, set_text, set_css, append, empty, hide, load,
  add_class, remove_class, prevent_default, button, refresh, ajax,
}
use elastic_job_lite.Util.Common.{
  do_locale, show_success_dialog, show_reg_center_failure_dialog, show_data_source_failure_dialog,
}

abbrev pub get_from : String → Request
get_from url = record { method = Method.get; url = url; body = no_body }

abbrev pub post_name : String → String → Request
post_name url name = record { method = Method.post; url = url; body = fields (("name", name) ∷ []) }

-- The variable `activatedRegCenterName` after the first loop, from its value before.
activated_from : Option String → List Center → Option String
activated_from found [] = found
activated_from found (c ∷ cs) = activated_from (if c.activated then some c.name else found) cs

unfoldable pub activated_name : List Center → Option String
unfolding activated_from
activated_name = activated_from none

-- `activatedRegCenterName && activatedRegCenterName === regCenterName`; the empty text is falsy.
unfoldable pub is_connected : Option String → String → Bool
is_connected none name = false
is_connected (some a) name = if a === "" then false else a === name

unfoldable pub display_name : Option String → String → String
unfolding is_connected
display_name active name =
    if is_connected active name
    then "<b>" <> name <> "(<span data-lang='status-connected'></span>)</b>"
    else name

-- the item of the second loop; the attribute is `reg-name` or `data-source-name`
unfoldable pub item : String → Option String → String → String
unfolding display_name
item attribute active name =
    "<li><a href='#' "
    <> attribute
    <> "='"
    <> name
    <> "' data-loading-text='loading...'>"
    <> display_name active name
    <> "</a></li>"

abbrev pub my_skins : List String
my_skins =
    "skin-blue" ∷ "skin-black" ∷ "skin-red" ∷ "skin-yellow" ∷ "skin-purple" ∷ "skin-green"
    ∷ "skin-blue-light" ∷ "skin-black-light" ∷ "skin-red-light" ∷ "skin-yellow-light"
    ∷ "skin-purple-light" ∷ "skin-green-light" ∷ []

module _ (B : Browser) where
  open B use {World, exec, count, attr}

  -- the callback of both lists
  unfoldable pub render_dimension : String → String → List Center → World → World
  unfolding item activated_name
  render_dimension dimension attribute data' = do
    exec (empty dimension)
    each
        (λ c. do
          exec (append dimension (item attribute (activated_name data') c.name))
          do_locale B)
        data'
    if length data' == 0 then exec (hide dimension) else skip

  unfoldable pub got_nav_reg_centers : List Center → World → World
  unfolding render_dimension
  got_nav_reg_centers = render_dimension "#registry-center-dimension" "reg-name"

  unfoldable pub got_nav_data_sources : List Center → World → World
  unfolding render_dimension
  got_nav_data_sources = render_dimension "#data-source-dimension" "data-source-name"

  unfoldable pub render_reg_center_for_dashboard_nav : World → World
  render_reg_center_for_dashboard_nav = do
    exec (ajax (get_from "api/registry-center") Success.got_nav_reg_centers)
    exec (on_click "#registry-center-dimension-link" Handler.show_reg_centers)

  unfoldable pub render_data_source_for_dashboard_nav : World → World
  render_data_source_for_dashboard_nav = do
    exec (ajax (get_from "api/data-source") Success.got_nav_data_sources)
    exec (on_click "#data-source-dimension-link" Handler.show_data_sources)

  unfoldable pub show_reg_centers : World → World
  show_reg_centers = do
    n ← count "#registry-center-dimension>li"
    if ltb 0 n then exec (set_css "#registry-center-dimension" "display" "") else skip

  unfoldable pub show_data_sources : World → World
  show_data_sources = do
    n ← count "#data-source-dimension>li"
    if ltb 0 n then exec (set_css "#data-source-dimension" "display" "") else skip

  unfoldable pub refresh_job_nav_tag : World → World
  refresh_job_nav_tag = exec (ajax (get_from "/api/jobs/count") Success.got_job_tag)

  unfoldable pub refresh_server_nav_tag : World → World
  refresh_server_nav_tag = exec (ajax (get_from "/api/servers/count") Success.got_server_tag)

  unfoldable pub got_job_tag : String → World → World
  got_job_tag data' = exec (set_text "#job-nav-tag" data')

  unfoldable pub got_server_tag : String → World → World
  got_server_tag data' = exec (set_text "#server-nav-tag" data')

  unfoldable pub refresh_reg_center_nav_tag : World → World
  refresh_reg_center_nav_tag =
      exec (ajax (get_from "api/registry-center") Success.got_reg_centers_tag)

  unfoldable pub clear_tags : World → World
  clear_tags = do exec (set_text "#job-nav-tag" "0"); exec (set_text "#server-nav-tag" "0")

  -- one round of its loop
  unfoldable pub tag_round : Center → World → World
  unfolding refresh_job_nav_tag refresh_server_nav_tag clear_tags
  tag_round c = if c.activated then refresh_job_nav_tag >> refresh_server_nav_tag else clear_tags

  unfoldable pub got_reg_centers_tag : List Center → World → World
  unfolding tag_round
  got_reg_centers_tag data' = do
    exec (set_text "#reg-nav-tag" (numeral_text (length data')))
    if ltb 0 (length data') then each tag_round data' else clear_tags

  unfoldable pub refresh_event_trace_nav_tag : World → World
  refresh_event_trace_nav_tag = exec (ajax (get_from "api/data-source") Success.got_event_trace_tag)

  unfoldable pub got_event_trace_tag : List Center → World → World
  got_event_trace_tag data' = exec (set_text "#event-trace-nav-tag" (numeral_text (length data')))

  unfoldable pub render_sidebar_menu : String → World → World
  render_sidebar_menu div = do
    exec (remove_class (div <> "::parent>*") "active")
    exec (remove_class (div <> "::parent>*>*>li") "active")
    exec (set_css (div <> "::parent>*>ul") "display" "")
    exec (add_class div "active")

  unfoldable pub switch_reg_center : World → World
  switch_reg_center = exec (on_click "a[reg-name]" Handler.switch_reg_center)

  -- the click; `this` is the link
  unfoldable pub switch_reg_center_clicked : String → World → World
  switch_reg_center_clicked this = do
    exec (button this "loading")
    name ← attr this "reg-name"
    exec (ajax (post_name "api/registry-center/connect" name) (Success.switched_reg_center this))

  unfoldable pub switched_reg_center : String → Bool → World → World
  switched_reg_center link true = do
    show_success_dialog B
    exec (refresh "#reg-centers")
    render_reg_center_for_dashboard_nav
    refresh_job_nav_tag
    refresh_server_nav_tag
    exec (load "#content" "html/global/registry_center.html" none)
    render_sidebar_menu "#settings"
    exec (add_class "#reg-center::parent" "active")
  switched_reg_center link false = do exec (button link "reset"); show_reg_center_failure_dialog B

  unfoldable pub switch_data_source : World → World
  switch_data_source = exec (on_click "a[data-source-name]" Handler.switch_data_source)

  unfoldable pub switch_data_source_clicked : String → World → World
  switch_data_source_clicked this = do
    exec (prevent_default this)
    exec (button this "loading")
    name ← attr this "data-source-name"
    exec (ajax (post_name "api/data-source/connect" name) (Success.switched_data_source this))

  unfoldable pub switched_data_source : String → Bool → World → World
  switched_data_source link true = do
    show_success_dialog B
    exec (refresh "#data-sources")
    render_data_source_for_dashboard_nav
    exec (load "#content" "html/global/event_trace_data_source.html" none)
    render_sidebar_menu "#settings"
    exec (add_class "#event-trace-data-source::parent" "active")
  switched_data_source link false = do exec (button link "reset"); show_data_source_failure_dialog B

  unfoldable pub render_skin : World → World
  render_skin = exec (bind "[data-skin]" "click" Handler.pick_skin)

  unfoldable pub change_skin : String → World → World
  change_skin skin_class = do
    each (λ s. exec (remove_class "body" s)) my_skins
    exec (add_class "body" skin_class)

  unfoldable pub pick_skin : String → World → World
  unfolding change_skin
  pick_skin this = do exec (prevent_default this); skin ← attr this "data-skin"; change_skin skin

  unfoldable pub control_sub_menu_style : World → World
  control_sub_menu_style = exec (bind ".sub-menu" "click" Handler.open_sub_menu)

  unfoldable pub open_sub_menu : String → World → World
  open_sub_menu this = do
    exec (remove_class (this <> "::parent::parent>*") "active")
    exec (add_class (this <> "::parent") "active")

  -- the function that runs when the document is ready
  unfoldable pub ready : World → World
  unfolding render_reg_center_for_dashboard_nav render_data_source_for_dashboard_nav
      switch_reg_center switch_data_source render_skin control_sub_menu_style
      refresh_reg_center_nav_tag refresh_event_trace_nav_tag
  ready = do
    render_reg_center_for_dashboard_nav
    render_data_source_for_dashboard_nav
    switch_reg_center
    switch_data_source
    render_skin
    control_sub_menu_style
    refresh_reg_center_nav_tag
    refresh_event_trace_nav_tag
