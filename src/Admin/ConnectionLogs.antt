-- ===== src/Admin/ConnectionLogs.antt =====
-- pages/ConnectionLogs.tsx: the rows that the page makes up from the list of clients. A row that
-- reads beyond a list's end fails, as does reading the name of a client that is not there.
pub mod Laws
pub mod Screen
use wow_vpn.Common.{
  ℕ, zero, suc, ◌+◌, ◌*◌, ◌%◌, max, String, Option, none, some, List, [], ◌∷◌, length, nat_eq,
  if◌then◌else◌, decimal, ◌>>=◌,
}

pub record Client : Type 0 where
  pub username : String

pub record Log : Type 0 where
  pub id : String
  pub timestamp : String
  pub client : String
  pub event : String
  pub ip : String
  pub status : String

pub record State : Type 0 where
  pub logs : List Log

abbrev pub events : List String
events =
    "Подключение установлено" ∷ "Хэндшейк завершён" ∷ "Соединение закрыто" ∷ "Передача данных"
    ∷ "Согласование протокола" ∷ []

abbrev pub ips : List String
ips = "185.243.215.42" ∷ "92.154.78.123" ∷ "45.89.123.67" ∷ "78.142.56.89" ∷ "123.45.67.89" ∷ []

-- `xs[i]`.
abbrev pub nth {ℓ} : {A : Type ℓ} → List A → ℕ → Option A
nth [] i = none
nth (x ∷ xs) zero = some x
nth (x ∷ xs) (suc i) = nth xs i

-- The client of row i.
unfoldable pub client_of : List Client → ℕ → Option Client
client_of [] i = some (record { username = "—" })
client_of (c ∷ cs) i = nth (c ∷ cs) (i % length (c ∷ cs))

unfoldable pub status_of : ℕ → String
status_of i = if nat_eq i 2 then "error" else if nat_eq i 4 then "warning" else "success"

-- The `catch`.
caught : Option (List Log) → List Log
caught none = []
caught (some logs) = logs

-- The text of the time that lies so many milliseconds back.
module _ (time_back : ℕ → String) where
  unfoldable pub log_row : List Client → ℕ → Option Log
  unfolding client_of status_of
  log_row clients i = do
    c ← client_of clients i
    event ← nth events (i % length events)
    ip ← nth ips (i % length ips)
    some (record {
      id = decimal i;
      timestamp = time_back (i * 120000);
      client = c.username;
      event = event;
      ip = ip;
      status = status_of i;
    })

  -- `count` rounds of the loop from row i on.
  unfoldable pub log_rows : List Client → ℕ → ℕ → Option (List Log)
  unfolding log_row
  log_rows clients zero i = some []
  log_rows clients (suc count) i = do
    row ← log_row clients i
    rows ← log_rows clients count (i + 1)
    some (row ∷ rows)

  unfoldable pub generated : List Client → Option (List Log)
  unfolding log_rows
  generated clients = log_rows clients (max (length clients * 2) 8) 0

  -- generateLogs, on mount and at a click: `none` is a request or an answer that fails.
  unfoldable pub generate_logs : Option (List Client) → State → State
  unfolding generated caught
  generate_logs none s = record s { logs = [] }
  generate_logs (some clients) s = record s { logs = caught (generated clients) }
