-- ===== src/Admin/ConfigProfiles/Laws.antt =====
-- pages/ConfigProfiles.tsx over time: which button says that its link was copied, and until when.
use wow_vpn.Common.{
  ◌⊎◌, Bool, true, false, ◌≡◌, refl, ◌≢◌, String, Option, List, arith, ◌==◌, eq_iff, sym, ◌∙◌,
  Bool-cases, inl, inr,
}
use wow_vpn.Admin.Notice.{show, IsTimed, show-IsTimed, expire-IsTimed}
use wow_vpn.Admin.ConfigProfiles.{Client, State, initial, load, copy_key, copied_timer}
use wow_vpn.Admin.ConfigProfiles.Screen.{copy_label}

-- The list of clients comes, a link is copied, or a timer fires.
pub data Reach : State → Type 0 where
  start : Reach initial
  loaded : {s : State} → (a : Option (List Client)) → Reach s → Reach (load a s)
  copied :
      {s : State}
      → (clipboard : Bool) (link name : String) → Reach s
      → Reach (copy_key clipboard link name s).0
  expired : {s : State} → Reach s → Reach (copied_timer s)

load-copied : (a : Option (List Client)) (s : State) → (load a s).copied ≡ s.copied
unfolding load
load-copied a s = ground arith

Reach-IsTimed : (s : State) → Reach s → IsTimed s.copied
unfolding copy_key copied_timer
Reach-IsTimed s start = λ e. refl
Reach-IsTimed s (loaded {s = t} a r) = rw (load-copied a t) (Reach-IsTimed t r)
Reach-IsTimed s (copied {s = t} true link name r) = show-IsTimed name t.copied
Reach-IsTimed s (copied {s = t} false link name r) = Reach-IsTimed t r
Reach-IsTimed s (expired {s = t} r) = expire-IsTimed t.copied (Reach-IsTimed t r)

-- Whatever was loaded and copied: once every timer has fired, the button of a client that has a name
-- offers to copy the link.
pub copy_label-settled :
    (s : State) (c : Client)
    → Reach s
    → s.copied.timers ≡ 0
    → c.username ≢ ""
    → copy_label s c ≡ "Скопировать ключ"
unfolding copy_label
copy_label-settled s c r e named = elim (Bool-cases (s.copied.content == c.username)) [
  | inl same ↦
      absurd (named (sym ((eq_iff s.copied.content c.username).0 same) ∙ Reach-IsTimed s r e))
  | inr differs ↦ rw differs refl
]

-- Right after a link is copied, exactly the buttons of the clients with that name say so.
pub copy_label-copy_key :
    (s : State) (link name : String) (c : Client)
    → ((name ≡ c.username) × (copy_label (copy_key true link name s).0 c ≡ "✅ Скопировано!"))
      ⊎ ((name ≢ c.username) × (copy_label (copy_key true link name s).0 c ≡ "Скопировать ключ"))
unfolding copy_label copy_key show
copy_label-copy_key s link name c = elim (Bool-cases (name == c.username)) [
  | inl same ↦ inl ((eq_iff name c.username).0 same, rw same refl)
  | inr differs ↦ inr (λ e. ground (arith, differs, (eq_iff name c.username).1 e), rw differs refl)
]
