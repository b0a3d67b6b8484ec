-- ===== src/Admin/ConnectionLogs/Screen.antt =====
-- What pages/ConnectionLogs.tsx renders.
use wow_vpn.Common.{String, [], ◌∷◌, map, ◌==◌, if◌then◌else◌}
use wow_vpn.View.{Node, text, element, nodes, tone, on_click}
use wow_vpn.Admin.ConnectionLogs.{Log, State}

-- The one message: the button that makes the rows anew.
pub data Msg : Type 0 where
  refresh : Msg

abbrev pub status_tone : String → String
status_tone status =
    if status == "success"
    then "bg-[#10B981]/20 text-[#10B981]"
    else if status == "error"
    then "bg-[#F43F5E]/20 text-[#F43F5E]"
    else "bg-[#F59E0B]/20 text-[#F59E0B]"

abbrev pub status_label : String → String
status_label status =
    if status == "success" then "УСПЕХ" else if status == "error" then "ОШИБКА" else "ВНИМАНИЕ"

unfoldable pub log_view : Log → Node Msg
log_view log = element "tr" [] (
    nodes (
      element "td" [] (nodes (text log.timestamp ∷ []))
      ∷ element "td" [] (nodes (text log.client ∷ []))
      ∷ element "td" [] (nodes (text log.event ∷ []))
      ∷ element "td" [] (nodes (text log.ip ∷ []))
      ∷ element "td" [] (
          nodes (
            element "span" (tone (status_tone log.status) ∷ [])
              (nodes (text (status_label log.status) ∷ []))
            ∷ []))
      ∷ []))

head_cell : String → Node Msg
head_cell title = element "th" [] (nodes (text title ∷ []))

unfoldable pub logs_view : State → Node Msg
unfolding log_view head_cell
logs_view s = element "div" [] (
    nodes (
      element "div" [] (
        nodes (
          element "h1" [] (nodes (text "Логи подключений" ∷ []))
          ∷ element "p" [] (nodes (text "Мониторинг активности сервера в реальном времени" ∷ []))
          ∷ element "button" (on_click refresh ∷ []) (nodes (text "Обновить" ∷ []))
          ∷ []))
      ∷ element "span" [] (nodes (text "Мониторинг активен • Данные из базы клиентов" ∷ []))
      ∷ element "table" [] (
          nodes (
            element "thead" []
              (nodes (map head_cell ("ВРЕМЯ" ∷ "КЛИЕНТ" ∷ "СОБЫТИЕ" ∷ "IP АДРЕС" ∷ "СТАТУС" ∷ [])))
            ∷ element "tbody" [] (nodes (map log_view s.logs))
            ∷ []))
      ∷ []))
