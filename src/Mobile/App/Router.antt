-- ===== src/Mobile/App/Router.antt =====
-- App.tsx's routes, the browser's history and what it opens: the part of the prototype's state that
-- its screens share.
use wow_vpn.Common.{
  String, Bool, false, Option, none, some, List, [], ◌∷◌, ◌==◌, if◌then◌else◌, not,
}
use wow_vpn.Mobile.Home
use wow_vpn.Mobile.Onboarding
use wow_vpn.Mobile.ServerList
use wow_vpn.Mobile.Settings
use wow_vpn.Mobile.SplitTunneling

pub data Screen : Type 0 where
  splash : Screen
  onboarding : Onboarding.State → Screen
  home : Home.State → Screen
  server_list : ServerList.State → Screen
  settings : Settings.State → Screen
  split_tunneling : SplitTunneling.State → Screen

-- A pending `setTimeout(() => navigate(path, { replace }))`.
pub record Later : Type 0 where
  pub path : String
  pub replace : Bool

pub record State : Type 0 where
  -- The browser's history, the open entry first.
  pub history : List String
  pub screen : Screen
  pub key : Option String
  pub laters : List Later

-- The routes; `none` is the route "*".
unfoldable pub mount : String → Option Screen
mount path =
    if path == "/"
    then some splash
    else if path == "/onboarding"
    then some (onboarding Onboarding.initial)
    else if path == "/home"
    then some (home Home.initial)
    else if path == "/servers"
    then some (server_list ServerList.initial)
    else if path == "/settings"
    then some (settings Settings.initial)
    else if path == "/split-tunneling"
    then some (split_tunneling SplitTunneling.initial)
    else none

-- The path whose route shows a screen.
abbrev pub path_of : Screen → String
path_of splash = "/"
path_of (onboarding _) = "/onboarding"
path_of (home _) = "/home"
path_of (server_list _) = "/servers"
path_of (settings _) = "/settings"
path_of (split_tunneling _) = "/split-tunneling"

-- `<Navigate to="/" replace />` for a path that no other route takes.
unfoldable pub open_route : List String → Option Screen → State → State
open_route below none s = record s { history = "/" ∷ below; screen = splash }
open_route below (some screen) s = record s { screen = screen }

-- The router at a new location: the same route keeps its screen mounted, another mounts its own.
unfoldable pub show : String → List String → State → State
unfolding open_route
show path below s =
    if path == path_of s.screen
    then record s { history = path ∷ below }
    else open_route below (mount path) (record s { history = path ∷ below })

abbrev pub rest_of {ℓ} : {A : Type ℓ} → List A → List A
rest_of [] = []
rest_of (x ∷ xs) = xs

unfoldable pub navigate : String → State → State
unfolding show
navigate path s = show path s.history s

unfoldable pub navigate_replace : String → State → State
unfolding show
navigate_replace path s = show path (rest_of s.history) s

-- The page opened at "/", with what localStorage holds.
abbrev pub launch : Option String → State
launch key = record { history = "/" ∷ []; screen = splash; key = key; laters = [] }

abbrev pub has_key : Option String → Bool
has_key none = false
has_key (some key) = not (key == "")

-- The callback of SplashScreen's timer.
unfoldable pub splash_timer : State → State
unfolding navigate_replace
splash_timer s = navigate_replace (if has_key s.key then "/home" else "/onboarding") s
