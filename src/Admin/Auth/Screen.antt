-- ===== src/Admin/Auth/Screen.antt =====
-- What App.tsx and Login.tsx render; the console is the router's, in Shell.
use wow_vpn.Common.{String, not, [], ◌∷◌, ◌++◌, ◌==◌, if◌then◌else◌}
use wow_vpn.View.{Node, text, element, nodes, shown, on_change, on_submit, disabled, value}
use wow_vpn.Admin.Auth.{LoginForm, has_sent, is_blocked}

pub data Msg : Type 0 where
  change : String → Msg
  send : Msg

unfoldable pub login_view : LoginForm → Node Msg
login_view f = element "div" [] (
    nodes (
      element "div" [] (
        nodes (
          element "h2" [] (nodes (text "ShadeVPN Admin" ∷ []))
          ∷ element "form" (on_submit send ∷ []) (
              nodes (
                element "div" [] (
                    nodes (
                      element "label" [] (nodes (text "Пароль администратора" ∷ []))
                      ∷ element "input" (value f.password ∷ on_change change ∷ []) (nodes [])
                      ∷ []))
                  ∷ shown (not (f.error == "")) (element "p" [] (nodes (text f.error ∷ [])) ∷ [])
                ++ element "button" (disabled (is_blocked f) ∷ [])
                    (nodes (text (if has_sent f then "Проверка..." else "Войти") ∷ []))
                  ∷ []))
          ∷ []))
      ∷ element "p" [] (nodes (text "Copyright © 2026" ∷ []))
      ∷ []))
