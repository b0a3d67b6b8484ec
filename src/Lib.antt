-- ===== src/Lib.antt =====
-- wowVPN's two React applications: the Android prototype ("shadevpn_android figma/app") and the
-- admin panel (figmadesighn/src/app).
--
-- The prototype has one module for each screen under Mobile: Home (components/HomeScreen.tsx),
-- Onboarding (OnboardingScreen.tsx), ServerList (ServerListScreen.tsx), SplitTunneling
-- (SplitTunnelingScreen.tsx), Settings (SettingsScreen.tsx). Mobile.App joins them: the routes of
-- App.tsx, SplashScreen.tsx, the browser's history, localStorage's "shadeVPN_key" and the timers.
-- An event is a click or an input of the open screen, a timer that fires, the answer of the
-- clipboard, the back button, or a restart; any order of events is a run.
--
-- The panel has one module for each page under Admin: Auth (config.ts, App.tsx, pages/Login.tsx),
-- Users (pages/Users.tsx), Groups (Groups.tsx), Templates (Templates.tsx), ResponseRules
-- (ResponseRules.tsx), Nodes (Nodes.tsx), Dashboard (Home.tsx), Settings (Settings.tsx),
-- ConnectionLogs, HwidInspector and ConfigProfiles (the files of these names); Shell has the frame
-- around them (routes.tsx and components/Layout.tsx, Sidebar.tsx, Header.tsx, GlobalSearch.tsx),
-- Console the router with the page that is mounted: Console.Work has what the pages' handlers do at
-- the answers, Console.Acts what a user does on a page, and Console.Sessions puts them together
-- over time, with pages that are left while their requests are under way; Console.Sessions.Clients
-- sets the clients page in the console against the page alone (Users.World). Panel joins Auth and
-- Console: App.tsx shows the sign-in form or the router, every answer passes the wrapper of
-- config.ts, and a reload starts a new document. Cards has two components that no page uses, and
-- Notice the text that two pages show for two seconds. A handler
-- that waits for the server is cut at each `await`: it returns the new state and what it starts,
-- and goes on when the answer comes; in Admin.Users.World the answers of the server come in any
-- order, among clicks, inputs and polls. Admin.ListPage is the interface of a page that lists what
-- the server has and changes it: Users, Groups, Nodes, Templates and ResponseRules fill it, with a
-- server that answers in order.
--
-- A component's `useState` variables are the fields of its State; a handler is a function of the
-- state with the handler's name; a message is what an element's handler is called with. View holds
-- the tree that a component renders, and the clicks that the user can send from it: those of the
-- elements that are not disabled. A screen's tree is a function of its state, in its module
-- Screen.
--
-- Parameters: JavaScript's numbers, `toLowerCase`, how a date input reads a text, what a new
-- default does to a mounted input, how the router splits an address, what the charts draw, and the
-- answers of the server and the browser. `Common.Number` has the operations on numbers; the few
-- laws of them that the dashboard relies on are the records OrderLaws and RatioLaws under
-- Admin.Dashboard. Only whole numbers that stay small (the session's seconds, lengths, pings) are
-- native numbers, without the rounding of doubles above 2 ^ 53. A text is a list of code points,
-- where JavaScript has UTF-16 units: the tests on texts that the code makes agree for well-formed
-- texts.
--
-- Fuel: only `Common.Text.decimal` runs on fuel, n + 1 rounds for n, of which each divides by ten.
-- The runs that come to rest are counted down: by Admin.Users.Settling.answers_due, the answers that
-- jobs wait for, and by Admin.ListPage.Rounds.work_due, what server and page have left to do.
--
-- Not modelled: styles and animations, the copies of a component library under components/ui and
-- of the design tool's image component, which no page uses, and the programs in other languages:
-- the server and its gateway are the environment, whose answers are any. A body that is no list
-- where a list was asked for makes a page throw: Users tells when (`throws`), for the other pages
-- there is only Console.Sessions' `crash`, at any time. That React drops what an unmounted component
-- sets, and that React Router has an error page of its own, is the documented behaviour of these
-- libraries, in Console.Sessions' `come` and `crash`; no code of the repository stands behind
-- the two. What React does to the inputs of the clients page's open sidebar when their defaults
-- change is left out: the overlay covers what could change them.
pub mod Common
pub mod View
pub mod Mobile
pub mod Admin
