-- ===== src/Admin/HwidInspector.antt =====
-- pages/HWIDInspector.tsx: the clients with their status, and how many have which.
pub mod Laws
use wow_vpn.Common.{
  ℕ, ◌-◌, String, Bool, Option, none, some, List, [], ◌∷◌, ◌++◌, map, length, filter, nat_eq,
  decimal, ◌==◌, if◌then◌else◌, or_else,
}
use wow_vpn.View.{Node, text, element, nodes, tone, on_click, shown}

pub record Client : Type 0 where
  pub id : String
  pub username : String
  pub status : String
  pub telegram_id : String
  pub vpn_ip : String
  pub group_name : String

pub record State : Type 0 where
  pub clients : List Client

abbrev pub initial : State
initial = record { clients = [] }

-- `load`, on mount and at a click: `none` is a request or an answer that fails.
unfoldable pub load : Option (List Client) → State → State
load none s = s
load (some clients) s = record s { clients = clients }

abbrev pub is_active : Client → Bool
is_active c = c.status == "online"

abbrev pub total : List Client → ℕ
total clients = length clients

unfoldable pub safe : List Client → ℕ
safe clients = length (filter is_active clients)

unfoldable pub suspicious : List Client → ℕ
unfolding safe
suspicious clients = total clients - safe clients

-- The one message: the button that asks for the clients again.
pub data Msg : Type 0 where
  refresh : Msg

unfoldable pub row_label : Client → String
row_label c = if is_active c then "АКТИВЕН" else "ЗАБЛОКИРОВАН"

count_card : String → ℕ → Node Msg
count_card label count = element "div" [] (
    nodes (
      element "p" [] (nodes (text label ∷ []))
      ∷ element "p" [] (nodes (text (decimal count) ∷ []))
      ∷ []))

unfoldable pub client_row : Client → Node Msg
unfolding row_label
client_row c = element "tr" (tone (if c.status == "offline" then "bg-[#F43F5E]/5" else "") ∷ []) (
    nodes (
      element "td" [] (
        nodes (
          element (if is_active c then "Shield" else "AlertTriangle") [] (nodes [])
          ∷ element "span" (tone (if is_active c then "text-[#10B981]" else "text-[#F43F5E]") ∷ [])
              (nodes (text (row_label c) ∷ []))
          ∷ []))
      ∷ element "td" [] (nodes (text c.username ∷ []))
      ∷ element "td" [] (nodes (text c.telegram_id ∷ []))
      ∷ element "td" [] (nodes (text c.vpn_ip ∷ []))
      ∷ element "td" [] (nodes (text (or_else c.group_name "—") ∷ []))
      ∷ []))

head_cell : String → Node Msg
head_cell title = element "th" [] (nodes (text title ∷ []))

unfoldable pub hwid_view : State → Node Msg
unfolding count_card client_row head_cell safe suspicious
hwid_view s = element "div" [] (
    nodes (
      element "div" [] (
        nodes (
          element "h1" [] (nodes (text "Контроль Устройств" ∷ []))
          ∷ element "p" [] (nodes (text "Отслеживание устройств и анти-шаринг" ∷ []))
          ∷ element "button" (on_click refresh ∷ []) (nodes (text "Обновить" ∷ []))
          ∷ []))
      ∷ count_card "Всего отслеживается" (total s.clients)
      ∷ count_card "Активные аккаунты" (safe s.clients)
      ∷ count_card "Заблокированные" (suspicious s.clients)
      ∷ element "table" [] (
          nodes (
            element "thead" [] (
              nodes
                (map head_cell ("СТАТУС" ∷ "ИМЯ КЛИЕНТА" ∷ "TELEGRAM" ∷ "VPN IP" ∷ "ГРУППА" ∷ [])))
            ∷ element "tbody" [] (
                nodes (
                  shown (nat_eq (length s.clients) 0) (
                    element "tr" [] (
                      nodes
                        (element "td" [] (nodes (text "Нет клиентов для отслеживания" ∷ [])) ∷ []))
                    ∷ [])
                  ++ map client_row s.clients))
            ∷ []))
      ∷ []))
