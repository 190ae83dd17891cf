-- ===== src/Util/Common/Language.antt =====
-- Which language the clicks on the two flags load.
use elastic_job_lite.Prelude.{◌≡◌, refl, ◌∙◌, [], ◌∷◌, ◌++◌, true, false, append_assoc}
use elastic_job_lite.Browser.{Browser}
use elastic_job_lite.Browser.Calls.{add_class, remove_class, i18n_properties}
use elastic_job_lite.Util.Common.{lang_zh, lang_en}

module _ (B : Browser) (w : B.World) where
  english :
      B.has_class "#content" "lang-en"
        (B.exec (add_class "#content" "lang-en") (B.exec (remove_class "#content" "lang-zh") w))
      ≡ true
  english = B.has_class-exec (add_class "#content" "lang-en") _ "#content" "lang-en" refl refl

  chinese :
      B.has_class "#content" "lang-en"
        (B.exec (add_class "#content" "lang-zh") (B.exec (remove_class "#content" "lang-en") w))
      ≡ false
  chinese =
      B.has_class-exec (add_class "#content" "lang-zh") _ "#content" "lang-en" refl refl
      ∙ B.has_class-exec (remove_class "#content" "lang-en") w "#content" "lang-en" refl refl

  -- A click on English or Chinese gives the content the class of that language in place of the
  -- other's, and loads the texts of that language, whichever language was shown before.
  pub lang-calls :
      (B.calls (lang_en B w)
        ≡ B.calls w
          ++ remove_class "#content" "lang-zh"
            ∷ add_class "#content" "lang-en"
            ∷ i18n_properties "en"
            ∷ [])
      × (B.calls (lang_zh B w)
          ≡ B.calls w
            ++ remove_class "#content" "lang-en"
              ∷ add_class "#content" "lang-zh"
              ∷ i18n_properties "zh"
              ∷ [])
  unfolding lang_en lang_zh
  lang-calls = (
    simp (B.calls-exec, append_assoc) (rw english),
    simp (B.calls-exec, append_assoc) (rw chinese),
  )
