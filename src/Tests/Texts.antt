-- ===== src/Tests/Texts.antt =====
-- Texts, thrown values and parameters.
use bengali_tts_service.Base.{◌≤◌, ◌<◌, ◌≡◌, refl, ◌↔◌, length}
use bengali_tts_service.Text.{JsString, js, code_points, text_eq}
use bengali_tts_service.Errors.{domain, text_empty, fail, succeed}
use bengali_tts_service.Text.Laws.{IsBlank}
use bengali_tts_service.TtsText.{is_bengali, bengali_ratio, validate_tts_text}
use bengali_tts_service.TtsText.Verdict.{
  IsSpeakable, IsForeign, too_long, foreign, validate_tts_text_accepts, validate_tts_text_rejects,
}
use bengali_tts_service.Tests.Setting.{bangla}

validate_tts_text-bangla : validate_tts_text bangla 20 ≡ succeed tt
unfolding validate_tts_text bengali_tts_service.Text.trim code_points bengali_ratio is_bengali
validate_tts_text-bangla = refl

validate_tts_text_spaces : validate_tts_text (js "  ") 20 ≡ fail (domain text_empty)
unfolding validate_tts_text bengali_tts_service.Text.trim js
validate_tts_text_spaces = refl

validate_tts_text_english : validate_tts_text (js "hello") 20 ≡ foreign (js "hello")
unfolding validate_tts_text bengali_tts_service.Text.trim js code_points bengali_ratio is_bengali
validate_tts_text_english = refl

validate_tts_text_accepts_example :
    (validate_tts_text bangla 20 ≡ succeed tt) ↔ IsSpeakable 20 bangla
validate_tts_text_accepts_example = validate_tts_text_accepts bangla 20

validate_tts_text_rejects_example :
    ((validate_tts_text (js "hello") 3 ≡ fail (domain text_empty)) ↔ IsBlank (js "hello"))
    × ((validate_tts_text (js "hello") 3 ≡ too_long (js "hello") 3)
        ↔ ((¬ IsBlank (js "hello")) × (3 < length (code_points (js "hello")))))
    × ((validate_tts_text (js "hello") 3 ≡ foreign (js "hello")) ↔ (
        (¬ IsBlank (js "hello"))
        × (length (code_points (js "hello")) ≤ 3)
        × IsForeign (js "hello")))
validate_tts_text_rejects_example = validate_tts_text_rejects (js "hello") 3
