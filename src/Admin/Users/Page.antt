-- ===== src/Admin/Users/Page.antt =====
-- pages/Users.tsx at work: the messages of what is rendered, the answers of the server in any
-- order, and the poll.
use wow_vpn.Common.{String, Bool, true, false, Option, none, some, List, []}
use wow_vpn.Common.Number.{Number}
use wow_vpn.Admin.Users.Types.{Form, State, Effect}
use wow_vpn.Admin.Users.Panel
use wow_vpn.Admin.Users.Handlers
use wow_vpn.Admin.Users.Screen
use wow_vpn.Admin.Users.Screen.{Msg}

-- What the browser answers at once: `confirm`, whether the clipboard can be used, and whether the
-- copy of the fallback works.
pub record Browser : Type 0 where
  pub confirmed : Bool
  pub secure_clipboard : Bool
  pub copy_works : Bool

write_form : (Form → Form) → Option Form → Option Form
write_form w none = none
write_form w (some f) = some (w f)

module _ {num : Number} where
  quiet : State num → State num × List (Effect num)
  quiet s = (s, [])

  module _ (date_value : String → String) (browser : Browser) where
    -- The handler of each message. `navigate` leaves the page, which is not modelled here.
    unfoldable pub update : Msg num → State num → State num × List (Effect num)
    unfolding quiet write_form
    update (Screen.navigate path) s = quiet s
    update Screen.open_add s = quiet (Panel.open_new date_value s)
    update Screen.close s = quiet (Panel.close_sidebar s)
    update Screen.toggle_all s = quiet (Panel.toggle_select_all s)
    update Screen.save_new s = Handlers.handle_create s
    update Screen.save_changes s = Handlers.handle_update s
    update Screen.bulk_remove s = Handlers.handle_bulk_delete browser.confirmed s
    update Screen.hide_qr s = quiet (Panel.close_qr s)
    update (Screen.toggle_one id) s = quiet (Panel.toggle_user_selection id s)
    update (Screen.remove id) s = Handlers.handle_delete browser.confirmed id s
    update (Screen.copy_link link) s =
        (s, Handlers.copy_key browser.secure_clipboard browser.copy_works link)
    update (Screen.copy_qr link) s =
        (Panel.close_qr s, Handlers.copy_key browser.secure_clipboard browser.copy_works link)
    update (Screen.details u) s = quiet (Panel.open_user_details date_value u s)
    update (Screen.qr u) s = quiet (Panel.show_qr u s)
    update (Screen.toggle_status id status) s = Handlers.handle_toggle id status s
    update (Screen.pick_group id) s = quiet (Panel.select_group id s)
    update (Screen.pick_template id) s = quiet (Panel.handle_template_change id s)
    update (Screen.type_name t) s =
        quiet (record s { form = write_form (λ f. record f { name = t }) s.form })
    update (Screen.type_telegram t) s =
        quiet (record s { form = write_form (λ f. record f { telegram = t }) s.form })
    update (Screen.type_limit t) s =
        quiet (record s { form = write_form (λ f. record f { limit = t }) s.form })
    update (Screen.type_date t) s =
        quiet (record s { form = write_form (λ f. record f { date = t }) s.form })

-- The messages that save a client.
abbrev pub is_save : {num : Number} → Msg num → Bool
is_save Screen.save_new = true
is_save Screen.save_changes = true
is_save _ = false

-- The messages of inputs and selects.
abbrev pub is_entry : {num : Number} → Msg num → Bool
is_entry (Screen.pick_group _) = true
is_entry (Screen.pick_template _) = true
is_entry (Screen.type_name _) = true
is_entry (Screen.type_telegram _) = true
is_entry (Screen.type_limit _) = true
is_entry (Screen.type_date _) = true
is_entry _ = false
