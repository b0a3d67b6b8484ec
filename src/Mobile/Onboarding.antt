-- ===== src/Mobile/Onboarding.antt =====
-- OnboardingScreen.tsx: the form that takes the connection key. A handler returns the screen's new
-- state with what it does outside: a write to localStorage, a timer, an alert.
pub mod Screen
pub mod Laws
use wow_vpn.Common.{
  String, Bool, true, false, Option, none, some, List, [], ◌∷◌, ◌==◌, if◌then◌else◌, not, trim,
  starts_with,
}

pub record State : Type 0 where
  pub key_input : String
  pub error : String
  pub success : Bool

abbrev pub initial : State
initial = record { key_input = ""; error = ""; success = false }

pub data Effect : Type 0 where
  store_key : String → Effect
  -- `setTimeout(() => navigate(path, { replace: true }), 600)`.
  navigate_later : String → Effect
  alert : String → Effect
  log_error : String → Effect

-- The input's onChange.
unfoldable pub change_key : String → State → State
change_key typed s = record s { key_input = typed; error = ""; success = false }

-- handlePaste, at the answer of the clipboard: its text, or a refusal.
unfoldable pub handle_paste : Option String → State → State × List Effect
handle_paste none s = (s, log_error "Failed to read clipboard" ∷ [])
handle_paste (some clip) s = (record s { key_input = clip; error = "" }, [])

unfoldable pub handle_activate : State → State × List Effect
handle_activate s =
    if trim s.key_input == ""
    then (record s { error = "Введите ключ подключения" }, [])
    else if not (starts_with s.key_input "shade://")
    then (record s { error = "Неверный формат ключа" }, [])
    else (record s { success = true }, store_key s.key_input ∷ navigate_later "/home" ∷ [])

unfoldable pub handle_scan_qr : State → State × List Effect
handle_scan_qr s = (s, alert "В реальном приложении откроется камера для сканирования QR-кода" ∷ [])

unfoldable pub handle_upload_qr : State → State × List Effect
handle_upload_qr s =
    (s, alert "В реальном приложении откроется галерея для выбора изображения с QR-кодом" ∷ [])
