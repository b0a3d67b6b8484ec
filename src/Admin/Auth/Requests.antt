-- ===== src/Admin/Auth/Requests.antt =====
-- The headers of the panel's requests: config.ts.
use wow_vpn.Common.{
  String, Option, none, some, List, [], ◌∷◌, ◌==◌, ◌≡◌, if◌then◌else◌, or_else, arith, eq_iff,
}

abbrev pub Headers : Type 0
Headers = List (String × String)

-- A property of an object literal: one that is there is overwritten in its place.
pub put : String → String → Headers → Headers
put k v [] = (k, v) ∷ []
put k v ((j, w) ∷ hs) = let rest = put k v hs in if j == k then (k, v) ∷ hs else (j, w) ∷ rest

abbrev pub token_text : Option String → String
token_text none = ""
token_text (some t) = or_else t ""

-- `{ ...init.headers, "X-Admin-Token": localStorage.getItem("adminToken") || "" }`.
unfoldable pub with_token : Option String → Headers → Headers
unfolding put
with_token token headers = put "X-Admin-Token" (token_text token) headers

pub lookup : String → Headers → Option String
lookup k [] = none
lookup k ((j, w) ∷ hs) = let rest = lookup k hs in if j == k then some w else rest

lookup-put :
    (k v j : String) (hs : Headers)
    → lookup j (put k v hs) ≡ (if k == j then some v else lookup j hs)
unfolding lookup put
lookup-put k v j [] = ground arith
lookup-put k v j ((i, w) ∷ hs) =
    ground (arith, eq_iff k j, eq_iff i k, eq_iff i j, lookup-put k v j hs)

-- Every request carries the stored token, or an empty one, in X-Admin-Token, whatever the caller
-- wrote there, and every other header as the caller wrote it.
pub lookup-with_token :
    (token : Option String) (headers : Headers) (j : String)
    → lookup j (with_token token headers)
      ≡ (if "X-Admin-Token" == j then some (token_text token) else lookup j headers)
unfolding with_token
lookup-with_token token headers j = lookup-put "X-Admin-Token" (token_text token) j headers
