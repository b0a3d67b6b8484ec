-- ===== src/Mobile/Onboarding/Laws.antt =====
-- When OnboardingScreen.tsx accepts a key, and what it then does.
use wow_vpn.Common.{String, true, false, ◌≡◌, ◌≢◌, ◌⊎◌, [], ◌∷◌, arith, eq_iff, trim, starts_with}
use wow_vpn.Mobile.Onboarding.{State, store_key, navigate_later, handle_activate}

-- A key that the form takes.
abbrev pub IsKey : String → Type 0
IsKey key = (trim key ≢ "") × (starts_with key "shade://" ≡ true)

-- Each outcome of the click on "activate", with what selects it: an empty key and a key without
-- the scheme only set their own error text, and any other is stored as typed and opens the home
-- screen later.
pub handle_activate-cases :
    (s : State)
    → ((trim s.key_input ≡ "")
        × (handle_activate s ≡ (record s { error = "Введите ключ подключения" }, [])))
      ⊎ ((trim s.key_input ≢ "")
          × (starts_with s.key_input "shade://" ≡ false)
          × (handle_activate s ≡ (record s { error = "Неверный формат ключа" }, [])))
      ⊎ (IsKey s.key_input
          × (handle_activate s
              ≡ (record s { success = true }, store_key s.key_input ∷ navigate_later "/home" ∷ [])))
unfolding handle_activate
handle_activate-cases s = ground (arith, eq_iff (trim s.key_input) "")
