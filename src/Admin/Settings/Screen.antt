-- ===== src/Admin/Settings/Screen.antt =====
-- What pages/Settings.tsx renders. The three password inputs and their button have no handler.
use wow_vpn.Common.{String, not, List, [], ◌∷◌, ◌==◌}
use wow_vpn.View.{Node, Attr, text, element, nodes, on_click, on_change, value, checked, shown}
use wow_vpn.Admin.Settings.{State}

pub data Msg : Type 0 where
  download save_bot_section save_server_section flip_logging : Msg
  enter_port enter_stealth enter_bot_token enter_chat_id : String → Msg

field : String → List (Attr Msg) → Node Msg
field label attrs =
    element "div" []
      (nodes (element "label" [] (nodes (text label ∷ [])) ∷ element "input" attrs (nodes []) ∷ []))

panel : String → String → List (Node Msg) → Node Msg
panel title subtitle content = element "section" [] (
    nodes (
      element "h2" [] (nodes (text title ∷ []))
      ∷ element "p" [] (nodes (text subtitle ∷ []))
      ∷ element "div" [] (nodes content)
      ∷ []))

backup_panel : Node Msg
unfolding panel
backup_panel = panel "Резервное копирование" "Управление бекапами базы данных" (
    element "div" [] (
      nodes (
        element "p" [] (nodes (text "Скачать бекап" ∷ []))
        ∷ element "p" [] (nodes (text "Скачать текущую базу данных shadevpn.db" ∷ []))
        ∷ element "a" (on_click download ∷ []) (nodes (text "Скачать бекап" ∷ []))
        ∷ []))
    ∷ [])

bot_panel : State → Node Msg
unfolding panel field
bot_panel s = panel "Интеграция Telegram Бота" "Настройка бота для уведомлений и авто-продаж" (
    field "Токен Бота (Bot Token)" (value s.inputs.bot_token ∷ on_change enter_bot_token ∷ [])
    ∷ field "Твой ID чата (Admin Chat ID)" (value s.inputs.chat_id ∷ on_change enter_chat_id ∷ [])
    ∷ element "button" (on_click save_bot_section ∷ [])
        (nodes (text "Сохранить настройки бота" ∷ []))
    ∷ [])

server_panel : State → Node Msg
unfolding panel field
server_panel s = panel "VPN Конфигуратор" "Управление портами и маскировкой ShadeVPN сервера" (
    field "Порт сервера (Server Port)" (value s.inputs.port ∷ on_change enter_port ∷ [])
    ∷ field "Маскировка трафика (Stealth Domain)"
        (value s.inputs.stealth ∷ on_change enter_stealth ∷ [])
    ∷ element "p" [] (nodes (text "Внешний домен для обхода DPI (Deep Packet Inspection)" ∷ []))
    ∷ element "div" [] (
        nodes (
          element "input" (checked s.inputs.logging ∷ on_click flip_logging ∷ []) (nodes [])
          ∷ element "label" [] (nodes (text "Включить продвинутое логирование подключений" ∷ []))
          ∷ []))
    ∷ element "button" (on_click save_server_section ∷ [])
        (nodes (text "Сохранить настройки сервера" ∷ []))
    ∷ [])

password_panel : Node Msg
unfolding panel field
password_panel = panel "Безопасность" "Настройки паролей и авторизации" (
    field "Текущий пароль" []
    ∷ field "Новый пароль" []
    ∷ field "Подтверждение пароля" []
    ∷ element "button" [] (nodes (text "Обновить пароль" ∷ []))
    ∷ [])

unfoldable pub panels_view : State → Node Msg
unfolding backup_panel bot_panel server_panel password_panel
panels_view s = element "div" [] (
    nodes (
      element "div" [] (
        nodes (
          element "h1" [] (nodes (text "Настройки" ∷ []))
          ∷ element "p" [] (nodes (text "Конфигурация системы и предпочтения" ∷ []))
          ∷ shown (not (s.saved.content == ""))
              (element "p" [] (nodes (text s.saved.content ∷ [])) ∷ [])))
      ∷ backup_panel
      ∷ bot_panel s
      ∷ server_panel s
      ∷ password_panel
      ∷ []))
