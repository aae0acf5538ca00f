-- ===== src/Examples/Pauses.antt =====
-- A concrete pause and resume.
use afiliado_shopee.Prelude.{true, false, ◌≡◌, refl, some, text_eq, option_eq}
use afiliado_shopee.Schedule.{Settings, fallback_settings}
use afiliado_shopee.Schedule.Pause.{
  World, Env, resume_confirmation, service_set_paused, service_set_paused-resumes,
}

abbrev quiet : Env
quiet k s = s

abbrev stored : World
stored = record { settings = fallback_settings 5; calls = 0 }

abbrev running : Settings
running = record (fallback_settings 5) { paused = false; resumed_at = some 8; updated_at = 9 }

service_set_paused-resumes_example :
    (some resume_confirmation ≡ some resume_confirmation)
    × ((fallback_settings 5).paused ≡ true)
    × (some 5 ≡ some (fallback_settings 5).updated_at)
unfolding service_set_paused fallback_settings
service_set_paused-resumes_example =
    service_set_paused-resumes quiet 9 8 (some resume_confirmation) (some 5) stored running refl
      refl
