-- ===== src/Admin/Users/Polling.antt =====
-- The poll of pages/Users.tsx while a client is being edited or chosen.
use wow_vpn.Common.{
  ◌≡◌, ◌≢◌, refl, sym, ◌∙◌, ◌⊎◌, inl, inr, Bool, true, false, ◌&&◌, Option, none, some, List, [],
  ◌∷◌, All, arith, Bool-cases, if◌then◌else◌,
}
use wow_vpn.Common.Number.{Number}
use wow_vpn.Admin.Users.Types.{
  State, none_misread, Job, loading_clients, loading_groups, loading_templates, Answer, failed,
  clients, groups_answer, templates_answer,
}
use wow_vpn.Admin.Users.Panel.{throws}
use wow_vpn.Admin.Users.Handlers.{answer}

abbrev pub is_load : Job → Bool
is_load loading_clients = true
is_load loading_groups = true
is_load loading_templates = true
is_load _ = false

-- Whether the page can store the answer as the list that it asked for, or stores nothing.
abbrev pub is_readable : {num : Number} → Job → Answer num → Bool
is_readable j failed = true
is_readable loading_clients (clients _) = true
is_readable loading_groups (groups_answer _) = true
is_readable loading_templates (templates_answer _) = true
is_readable _ _ = false

both_true : (b c : Bool) → b && c ≡ true → (b ≡ true) × (c ≡ true)
both_true b c h = ground (arith, h)

module _ {num : Number} where
  abbrev pub all_readable : List (Job × Answer num) → Bool
  all_readable [] = true
  all_readable ((j, a) ∷ rest) = is_readable j a && all_readable rest

  -- The page after answers, one after another; `none` as soon as rendering it throws.
  pub take_in : List (Job × Answer num) → State num → Option (State num)
  take_in [] s = some s
  take_in ((j, a) ∷ rest) s =
      let later = take_in rest (answer j a s).0 in if throws (answer j a s).0 then none else later

  -- The page with the lists of another state.
  abbrev pub with_lists : State num → State num → State num
  with_lists t s = record s {
    users = t.users;
    groups = t.groups;
    templates = t.templates;
    misread = t.misread;
  }

  answer-with_lists :
      (j : Job) (a : Answer num) (s t : State num)
      → is_load j ≡ true
      → with_lists t (answer j a s).0 ≡ with_lists t s
  unfolding answer
  answer-with_lists j a s t e = ground arith

  -- A page that did not throw, and whose other parts are those of `s`.
  abbrev pub IsUndisturbed : State num → Option (State num) → Type 0
  IsUndisturbed s later = (t : State num) × (later ≡ some t) × (with_lists s t ≡ s)

  readable-answer :
      (j : Job) (a : Answer num) (s : State num)
      → is_load j ≡ true
      → is_readable j a ≡ true
      → s.misread ≡ none_misread
      → (answer j a s).0.misread ≡ none_misread
  unfolding answer
  readable-answer j a s e f h = ground (arith, h)

  misread-throws : (s : State num) → s.misread ≡ none_misread → throws s ≡ false
  unfolding throws
  misread-throws s h = ground (arith, h)

  -- Each answer leaves what is beside the lists as it is, until the page throws.
  kept_or_gone :
      (answers : List (Job × Answer num)) (r s : State num)
      → All (λ p. is_load p.0 ≡ true) answers
      → (take_in answers s ≡ none)
        ⊎ ((t : State num) × (take_in answers s ≡ some t) × (with_lists r t ≡ with_lists r s))
  unfolding take_in
  kept_or_gone [] r s h = inr (s, refl, refl)
  kept_or_gone ((j, a) ∷ rest) r s (l, h) = elim (Bool-cases (throws (answer j a s).0)) [
    | inl e ↦ inl (rw e refl)
    | inr e ↦ elim (kept_or_gone rest r (answer j a s).0 h) [
      | inl gone ↦ inl (rw e gone)
      | inr kept ↦ inr (kept.0, rw e kept.1, kept.2 ∙ answer-with_lists j a s r l)
    ]
  ]

  -- Lists and failures do not make the page throw.
  readable-take_in :
      (answers : List (Job × Answer num)) (s : State num)
      → All (λ p. is_load p.0 ≡ true) answers
      → all_readable answers ≡ true
      → s.misread ≡ none_misread
      → take_in answers s ≢ none
  unfolding take_in
  readable-take_in [] s h f m e = ground (arith, e)
  readable-take_in ((j, a) ∷ rest) s (l, h) f m e =
      let (now, later) = both_true (is_readable j a) (all_readable rest) f in
      let read = readable-answer j a s l now m in
      readable-take_in rest (answer j a s).0 h later read
        (sym (rw (misread-throws (answer j a s).0 read) refl) ∙ e)

  -- On a page whose lists are lists: answers to the requests of polls, however many, in whatever
  -- order and whatever they bring, leave what is typed, selected, shown and being saved as it is, and
  -- change what is stored for the three lists at most; unless the page throws, which happens only if
  -- one of the answers is neither a failure nor the list that was asked for.
  pub with_lists-take_in :
      (answers : List (Job × Answer num)) (s : State num)
      → All (λ p. is_load p.0 ≡ true) answers
      → s.misread ≡ none_misread
      → IsUndisturbed s (take_in answers s)
        ⊎ ((take_in answers s ≡ none) × (all_readable answers ≡ false))
  with_lists-take_in answers s h m = elim (kept_or_gone answers s s h) [
    | inr kept ↦ inl kept
    | inl gone ↦ elim (Bool-cases (all_readable answers)) [
      | inl e ↦ absurd (readable-take_in answers s h e m gone)
      | inr e ↦ inr (gone, e)
    ]
  ]
