-- ===== src/Admin/Console/Laws.antt =====
-- What holds between the pages of the console: from a group's card to the clients of the group, and
-- back to all clients.
use wow_vpn.Common.{
  ◌≡◌, refl, ◌≢◌, String, false, Option, none, some, List, [], ◌∷◌, Memᴰ, filter, ◌==◌, template,
  arith, eq_iff,
}
use wow_vpn.Common.Number.{Number}
use wow_vpn.View.{clicks}
use wow_vpn.Admin.Shell.{route}
use wow_vpn.Admin.Users
use wow_vpn.Admin.Users.Panel.{displayed_users}
use wow_vpn.Admin.Groups
use wow_vpn.Admin.Groups.Screen.{navigate, group_card}
use wow_vpn.Admin.Console.{
  Router, Mounted, at_users, at_groups, mount, open_page, visit, clients_come,
}

-- The address that a group's card opens.
abbrev pub clients_of : Groups.Group → String
clients_of g = template ("/users?group=" ∷ g.id ∷ [])

not_empty : {id : String} → id ≢ "" → (id == "") ≡ false
not_empty {id} h = ground (arith, h, eq_iff id "")

-- The clients that the clients page displays, if it is there.
abbrev pub displayed :
    {num : Number} → Option (Mounted num) → Option (List (Users.Types.Client num))
displayed (some (at_users s)) = some (displayed_users s)
displayed _ = none

module _ {num : Number} where
  -- If the router finds the path "/users" and the group's identifier, which is not empty, in the
  -- address of a group's card: a click on the card opens the clients page, which displays, when the
  -- clients have come, exactly those of the group.
  pub displayed-group_card :
      (router : Router) (g : Groups.Group) (s : Groups.State) (xs : List (Users.Types.Client num))
      → router.pathname (clients_of g) ≡ "/users"
      → router.param "group" (clients_of g) ≡ some g.id
      → g.id ≢ ""
      → Memᴰ (navigate (clients_of g)) (clicks (group_card g))
        × (displayed (clients_come xs (visit router (clients_of g) (some (at_groups s))))
            ≡ some (filter (λ u. u.group_id == g.id) xs))
  unfolding visit clients_come mount open_page Users.Handlers.answer displayed_users route
      group_card
  displayed-group_card router g s xs path param named =
      (Memᴰ.head refl, rw (path, param, not_empty named) refl)

  -- From the clients page, at whatever group, an address with the path "/users" and no parameter
  -- "group" keeps the page as it is, its selection and its open form included, and displays every
  -- client.
  pub displayed-users_link :
      (router : Router) (url : String) (s : Users.Types.State num)
      → router.pathname url ≡ "/users"
      → router.param "group" url ≡ none
      → (visit router url (some (at_users s)) ≡ some (at_users (record s { group_filter = none })))
        × (displayed (visit router url (some (at_users s))) ≡ some s.users)
  unfolding visit open_page displayed_users route
  displayed-users_link router url s path param = rw (path, param) (refl, refl)
