-- ===== src/Mobile/Settings.antt =====
-- SettingsScreen.tsx: two switches, the language, the theme, and the buttons of the account.
pub mod Screen
pub mod Laws
use wow_vpn.Common.{
  ℕ, zero, suc, ◌+◌, ◌%◌, String, Bool, true, not, Option, none, some, List, [], ◌∷◌, length, ◌==◌,
  if◌then◌else◌,
}

pub data Theme : Type 0 where
  light dark system : Theme

pub record State : Type 0 where
  pub kill_switch : Bool
  pub net_shield : Bool
  -- `none` is JavaScript's `undefined`, what an index out of range reads.
  pub language : Option String
  pub theme : Theme

abbrev pub initial : State
initial = record { kill_switch = true; net_shield = true; language = some "Русский"; theme = dark }

pub data Effect : Type 0 where
  remove_key : Effect
  -- `navigate(path, { replace: true })`.
  replace_path : String → Effect
  alert : String → Effect

unfoldable pub toggle_kill_switch : State → State
toggle_kill_switch s = record s { kill_switch = not s.kill_switch }

unfoldable pub toggle_net_shield : State → State
toggle_net_shield s = record s { net_shield = not s.net_shield }

abbrev pub langs : List String
langs = "Русский" ∷ "English" ∷ "Deutsch" ∷ []

-- `langs.indexOf(language) + 1`: 0 if it is not there.
index_of_plus_one : List String → String → ℕ → ℕ
index_of_plus_one [] lang i = 0
index_of_plus_one (l ∷ ls) lang i =
    let rest = index_of_plus_one ls lang (i + 1) in if l == lang then i + 1 else rest

abbrev get_elem? {ℓ} : {A : Type ℓ} → List A → ℕ → Option A
get_elem? [] i = none
get_elem? (x ∷ xs) zero = some x
get_elem? (x ∷ xs) (suc i) = get_elem? xs i

next_index : Option String → ℕ
unfolding index_of_plus_one
next_index none = 0
next_index (some lang) = index_of_plus_one langs lang 0 % length langs

unfoldable pub next_language : State → State
unfolding next_index
next_language s = record s { language = get_elem? langs (next_index s.language) }

unfoldable pub set_theme : Theme → State → State
set_theme t s = record s { theme = t }

unfoldable pub handle_change_key : List Effect
handle_change_key = remove_key ∷ replace_path "/onboarding" ∷ []

unfoldable pub handle_invite : List Effect
handle_invite = alert "Открывается реферальная ссылка в Telegram-бот" ∷ []

unfoldable pub handle_feedback : List Effect
handle_feedback = alert "Форма обратной связи будет отправлена в Telegram-бот" ∷ []
