-- ===== src/Mobile/Onboarding/Screen.antt =====
-- What OnboardingScreen.tsx renders.
use wow_vpn.Common.{String, ◌∷◌, [], ◌++◌, ◌==◌, not, if◌then◌else◌}
use wow_vpn.View.{Node, text, element, nodes, shown, on_click, on_change, value, tone}
use wow_vpn.Mobile.Onboarding.{State}

pub data Msg : Type 0 where
  change : String → Msg
  paste activate scan_qr upload_qr : Msg

abbrev input_tone : State → String
input_tone s =
    if not (s.error == "")
    then "border-[#FF3D57]"
    else if s.success
    then "border-[#00C853]"
    else "border-transparent focus:border-[#00E5FF] focus:shadow-[0_0_20px_rgba(0,229,255,0.2)]"

unfoldable pub welcome : Node Msg
welcome = element "div" [] (
    nodes (
      element "div" [] (
        nodes (
          element "span" [] (nodes (text "Shade" ∷ []))
          ∷ element "span" [] (nodes (text "VPN" ∷ []))
          ∷ []))
      ∷ element "div" [] (
          nodes (
            element "h1" [] (nodes (text "Добро пожаловать" ∷ []))
            ∷ element "p" []
                (nodes (text "Введите ваш ключ подключения или отсканируйте QR-код" ∷ []))
            ∷ []))
      ∷ []))

unfoldable pub key_form : State → Node Msg
key_form s = element "div" [] (
    nodes (
      element "input" (value s.key_input ∷ on_change change ∷ tone (input_tone s) ∷ []) (nodes [])
        ∷ element "button" (on_click paste ∷ []) (nodes (text "Вставить" ∷ []))
        ∷ shown (not (s.error == "")) (element "motion.p" [] (nodes (text s.error ∷ [])) ∷ [])
      ++ element "button" (on_click activate ∷ []) (nodes (text "Активировать ключ" ∷ [])) ∷ []))

unfoldable pub qr_options : Node Msg
qr_options = element "div" [] (
    nodes (
      element "span" [] (nodes (text "или" ∷ []))
      ∷ element "button" (on_click scan_qr ∷ []) (nodes (text "Сканировать QR камерой" ∷ []))
      ∷ element "button" (on_click upload_qr ∷ []) (nodes (text "Загрузить QR из галереи" ∷ []))
      ∷ element "a" []
          (nodes (text "Нет ключа? " ∷ element "span" [] (nodes (text "Получить ключ" ∷ [])) ∷ []))
      ∷ []))

unfoldable pub onboarding_view : State → Node Msg
unfolding welcome key_form qr_options
onboarding_view s = element "div" [] (nodes (welcome ∷ key_form s ∷ qr_options ∷ []))
