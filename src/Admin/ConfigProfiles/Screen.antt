-- ===== src/Admin/ConfigProfiles/Screen.antt =====
-- What pages/ConfigProfiles.tsx renders, and what its clicks do.
use wow_vpn.Common.{Bool, String, List, [], ◌∷◌, ◌++◌, map, length, nat_eq, ◌==◌, if◌then◌else◌}
use wow_vpn.View.{Node, text, element, nodes, tone, on_click, shown}
use wow_vpn.Admin.ConfigProfiles.{Client, State, copy_key}

pub data Msg : Type 0 where
  refresh : Msg
  copy : String → String → Msg

-- The label of a client's button.
unfoldable pub copy_label : State → Client → String
copy_label s c = if s.copied.content == c.username then "✅ Скопировано!" else "Скопировать ключ"

unfoldable pub profile_row : State → Client → Node Msg
unfolding copy_label
profile_row s c = element "tr" [] (
    nodes (
      element "td" [] (nodes (element "span" [] (nodes (text c.username ∷ [])) ∷ []))
      ∷ element "td" [] (nodes (element "span" [] (nodes (text c.protocol ∷ [])) ∷ []))
      ∷ element "td" [] (nodes (text c.vpn_ip ∷ []))
      ∷ element "td" [] (
          nodes (
            element "span"
              (tone (
                  if c.status == "online"
                  then "bg-[#10B981]/20 text-[#10B981]"
                  else "bg-muted text-muted-foreground")
                ∷ [])
              (nodes (text (if c.status == "online" then "Активен" else "Заблокирован") ∷ []))
            ∷ []))
      ∷ element "td" [] (
          nodes (
            element "button" (on_click (copy c.shade_link c.username) ∷ [])
              (nodes (text (copy_label s c) ∷ []))
            ∷ []))
      ∷ []))

head_cell : String → Node Msg
head_cell title = element "th" [] (nodes (text title ∷ []))

unfoldable pub profiles_view : State → Node Msg
unfolding profile_row head_cell
profiles_view s = element "div" [] (
    nodes (
      element "div" [] (
          nodes (
            element "h1" [] (nodes (text "Ключи подключений" ∷ []))
            ∷ element "p" []
                (nodes (text "Все сгенерированные shade:// ключи для быстрого копирования" ∷ []))
            ∷ element "button" (on_click refresh ∷ []) (nodes (text "Обновить" ∷ []))
            ∷ []))
        ∷ shown (nat_eq (length s.clients) 0) (
            element "div" []
              (nodes (text "Нет клиентов. Создайте клиента на вкладке «Клиенты»." ∷ []))
            ∷ [])
      ++ element "table" [] (
          nodes (
            element "thead" [] (
              nodes (map head_cell ("КЛИЕНТ" ∷ "ПРОТОКОЛ" ∷ "VPN IP" ∷ "СТАТУС" ∷ "ДЕЙСТВИЯ" ∷ [])))
            ∷ element "tbody" [] (nodes (map (profile_row s) s.clients))
            ∷ []))
        ∷ []))

-- What a click does at once, with or without a clipboard; `refresh` asks for the clients, whose answer goes to `load`.
unfoldable pub update : Bool → Msg → State → State × List String
update clipboard refresh s = (s, [])
update clipboard (copy link name) s = copy_key clipboard link name s
