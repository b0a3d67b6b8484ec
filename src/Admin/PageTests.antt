-- ===== src/Admin/PageTests.antt =====
-- Concrete runs of the pages of the groups and the rules.
use wow_vpn.Common.{trim, eq_iff, arith, ◌≡◌, refl, ◌≢◌, String, true, some, [], ◌∷◌}
use wow_vpn.Admin.Groups
use wow_vpn.Admin.ResponseRules

-- The page of the groups: a group is edited, and the timer writes it into the form.
abbrev vip : Groups.Group
vip = record { id = "g1"; name = "VIP"; description = "all"; data_limit = ""; members = 2 }

abbrev editing : Groups.State
editing = Groups.fill (Groups.start_edit vip Groups.initial)

editing_reached : Groups.Laws.Reach editing
editing_reached = Groups.Laws.Reach.filled (Groups.Laws.Reach.edited vip Groups.Laws.Reach.begin)

Reach-Formed_example : Groups.Laws.Formed editing
Reach-Formed_example = Groups.Laws.Reach-Formed editing_reached

named : trim "VIP" ≢ ""
unfolding trim
named e = ground (arith, eq_iff "VIP" "")

abbrev vip_id : String
vip_id = "g1"

identified : vip_id ≢ ""
identified e = ground (arith, eq_iff vip_id "")

handle_create-start_edit_example :
    (Groups.handle_create editing).1
    ≡ Groups.Effect.start Groups.Job.saving (
        Groups.Request.update_group "g1"
          (record { name = trim "VIP"; description = "all"; data_limit = "100 ГБ/юзер" }))
      ∷ []
handle_create-start_edit_example =
    Groups.Laws.handle_create-start_edit vip Groups.initial refl named identified

abbrev vip_form : Groups.Form
vip_form = record { name = "VIP"; description = "all"; limit = "" }

editing_form : editing.form ≡ some vip_form
unfolding Groups.fill Groups.start_edit
editing_form = refl

handle_create-open_new_example :
    (Groups.handle_create (Groups.open_new editing)).1
    ≡ Groups.Effect.start Groups.Job.saving (Groups.Request.create_group (Groups.body_of vip_form))
      ∷ []
handle_create-open_new_example =
    Groups.Laws.handle_create-open_new vip_form editing editing_form named

-- The page of the billing rules.
abbrev warning : ResponseRules.Form
warning = record { name = "VIP"; trigger = "VIP"; action = "VIP" }

abbrev rules : ResponseRules.State
rules = record {
  rules = record { id = "r"; name = "warn"; trigger = "90%"; action = "mail"; enabled = true } ∷ [];
  form = some warning;
}
