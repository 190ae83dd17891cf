-- ===== src/Util/Common/Bindings.antt =====
-- The functions of util/common.js bind no click to the document.
use elastic_job_lite.Prelude.{
  ℕ, String, ◌≡◌, refl, Option, none, some, List, arith, Bool-cases, inl, inr,
}
use elastic_job_lite.Browser.{Browser}
use elastic_job_lite.Util.Common.{
  ready, show_success_dialog, got_authority, has_zh, choose_language, init_language, do_locale,
  show_delete_confirm_modal, show_shutdown_confirm_modal, show_update_confirm_modal,
}

-- A program that leaves the handlers of every selector as they were.
abbrev pub Keeps : (B : Browser) → (B.World → B.World) → Type 0
Keeps B f = (w : B.World) (s : String) → B.handlers s (f w) ≡ B.handlers s w

module _ (B : Browser) where
  pub ready-Keeps : Keeps B (ready B)
  unfolding ready
  ready-Keeps w s = simp B.handlers-exec

  pub show_success_dialog-Keeps : Keeps B (show_success_dialog B)
  unfolding show_success_dialog
  show_success_dialog-Keeps w s = simp B.handlers-exec

  pub got_authority-Keeps : (identify : String) → Keeps B (got_authority B identify)
  unfolding got_authority
  got_authority-Keeps identify w s = grind (arith, B.handlers-exec)

  pub do_locale-Keeps : Keeps B (do_locale B)
  unfolding do_locale
  do_locale-Keeps w s = simp B.handlers-exec

  choose_language-Keeps : (lan : Option (List ℕ)) → Keeps B (choose_language B lan)
  unfolding choose_language
  choose_language-Keeps none w s = refl
  choose_language-Keeps (some lan) w s = elim (Bool-cases (has_zh lan)) [
    | inl zh ↦ rw zh (B.handlers-exec _ w s)
    | inr other ↦ rw other
  ]

  pub init_language-Keeps : Keeps B (init_language B)
  unfolding init_language
  init_language-Keeps w s = choose_language-Keeps (B.language w) w s

  pub show_delete_confirm_modal-Keeps : Keeps B (show_delete_confirm_modal B)
  unfolding show_delete_confirm_modal
  show_delete_confirm_modal-Keeps w s = simp B.handlers-exec

  pub show_shutdown_confirm_modal-Keeps : Keeps B (show_shutdown_confirm_modal B)
  unfolding show_shutdown_confirm_modal
  show_shutdown_confirm_modal-Keeps w s = simp B.handlers-exec

  pub show_update_confirm_modal-Keeps : Keeps B (show_update_confirm_modal B)
  unfolding show_update_confirm_modal
  show_update_confirm_modal-Keeps w s = simp B.handlers-exec
