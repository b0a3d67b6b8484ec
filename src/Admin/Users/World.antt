-- ===== src/Admin/Users/World.antt =====
-- pages/Users.tsx with the server: the jobs that are under way, and every order of clicks, inputs,
-- polls, answers and other queries of the address. A page whose rendering throws is gone from the
-- screen; the steps go on here, so they include what its handlers still do.
mod Steps
pub use Steps.*
use wow_vpn.Common.{
  ℕ, ◌+◌, String, Bool, true, false, ◌≡◌, refl, sym, ap, ◌∙◌, Option, List, [], ◌∷◌, ◌++◌, Memᴰ,
  ◌⊎◌, ◌≤◌, arith, All-mem, inl, inr,
}
use wow_vpn.Common.Number.{Number}
use wow_vpn.View.{clicks}
use wow_vpn.Admin.Users.Types.{Form, State, Job, creating, updating, Effect, start, Answer}
use wow_vpn.Admin.Users.Handlers.{
  fetch_data, answer, create_from, handle_create, handle_update, handle_bulk_delete, handle_delete,
  handle_toggle, copy_key, bulk_step,
}
use wow_vpn.Admin.Users.Panel.{
  open_new, close_sidebar, toggle_select_all, close_qr, toggle_user_selection, open_user_details,
  show_qr, select_group, handle_template_change,
}
use wow_vpn.Admin.Users.Screen
use wow_vpn.Admin.Users.Screen.{Msg}
use wow_vpn.Admin.Users.Sidebar.{view}
use wow_vpn.Admin.Users.Page.{Browser, update, is_save, is_entry}
use wow_vpn.Admin.Users.Saving.{IsFree, view-IsFree}

saves-append : (xs ys : List Job) → saves (xs ++ ys) ≡ saves xs + saves ys
saves-append [] ys = omega arith
saves-append (x ∷ xs) ys = omega (arith, saves-append xs ys)

save_of_at_most_one : (j : Job) → (save_of j ≡ 0) ⊎ (save_of j ≡ 1)
save_of_at_most_one j = ground arith

busy_at_most_one : (b : Bool) → busy b ≤ 1
busy_at_most_one b = ground arith

module _ {num : Number} where
  -- A handler that starts the saves that its state then shows.
  abbrev Keeps : State num → State num × List (Effect num) → Type 0
  Keeps s r = saves (started r.1) + busy s.loading ≡ busy r.0.loading

  create_from-Keeps :
      (f : Option Form) (s : State num) → s.loading ≡ false → Keeps s (create_from f s)
  unfolding create_from
  create_from-Keeps f s h = ground arith

  handle_update-Keeps : (s : State num) → s.loading ≡ false → Keeps s (handle_update s)
  unfolding handle_update
  handle_update-Keeps s h = ground arith

  bulk-Keeps : (ids : List String) (s : State num) → Keeps s (bulk_step ids s)
  unfolding bulk_step
  bulk-Keeps [] s = omega arith
  bulk-Keeps (id ∷ ids) s = omega arith

  bulk_delete-Keeps : (b : Bool) (s : State num) → Keeps s (handle_bulk_delete b s)
  unfolding handle_bulk_delete
  bulk_delete-Keeps false s = omega arith
  bulk_delete-Keeps true s = bulk-Keeps s.selected_users s

  delete-Keeps : (b : Bool) (id : String) (s : State num) → Keeps s (handle_delete b id s)
  unfolding handle_delete
  delete-Keeps false id s = omega arith
  delete-Keeps true id s = omega arith

  copy-Keeps : (b c : Bool) (link : String) (s : State num) → Keeps s (s, copy_key b c link)
  unfolding copy_key
  copy-Keeps true c link s = omega arith
  copy-Keeps false true link s = omega arith
  copy-Keeps false false link s = omega arith

  answer-Keeps : (j : Job) (a : Answer num) (s : State num) → save_of j ≡ 0 → Keeps s (answer j a s)
  unfolding answer
  answer-Keeps j a s h = ground arith

  answer-ends :
      (j : Job) (a : Answer num) (s : State num)
      → save_of j ≡ 1
      → saves (started (answer j a s).1) ≡ 0 × busy (answer j a s).0.loading ≡ 0
  unfolding answer
  answer-ends j a s h = ground arith

  -- Every message leaves the saves and what the page shows in step, if it saves only when nothing
  -- is being saved.
  update-Keeps :
      (date_value : String → String) (browser : Browser) (m : Msg num) (s : State num)
      → (is_save m ≡ true → s.loading ≡ false)
      → Keeps s (update date_value browser m s)
  unfolding update handle_create open_new close_sidebar toggle_select_all close_qr
      toggle_user_selection open_user_details show_qr handle_toggle select_group
      handle_template_change
  update-Keeps d browser (Screen.navigate path) s free = omega arith
  update-Keeps d browser Screen.open_add s free = omega arith
  update-Keeps d browser Screen.close s free = omega arith
  update-Keeps d browser Screen.toggle_all s free = omega arith
  update-Keeps d browser Screen.save_new s free = create_from-Keeps s.form s (free refl)
  update-Keeps d browser Screen.save_changes s free = handle_update-Keeps s (free refl)
  update-Keeps d browser Screen.bulk_remove s free = bulk_delete-Keeps browser.confirmed s
  update-Keeps d browser Screen.hide_qr s free = omega arith
  update-Keeps d browser (Screen.toggle_one id) s free = omega arith
  update-Keeps d browser (Screen.remove id) s free = delete-Keeps browser.confirmed id s
  update-Keeps d browser (Screen.copy_link link) s free =
      copy-Keeps browser.secure_clipboard browser.copy_works link s
  update-Keeps d browser (Screen.copy_qr link) s free =
      copy-Keeps browser.secure_clipboard browser.copy_works link s
  update-Keeps d browser (Screen.details u) s free = omega arith
  update-Keeps d browser (Screen.qr u) s free = omega arith
  update-Keeps d browser (Screen.toggle_status id status) s free = omega arith
  update-Keeps d browser (Screen.pick_group id) s free = omega arith
  update-Keeps d browser (Screen.pick_template id) s free = omega arith
  update-Keeps d browser (Screen.type_name t) s free = omega arith
  update-Keeps d browser (Screen.type_telegram t) s free = omega arith
  update-Keeps d browser (Screen.type_limit t) s free = omega arith
  update-Keeps d browser (Screen.type_date t) s free = omega arith

  entry-IsFree :
      (m : Msg num) (s : State num) → is_entry m ≡ true → is_save m ≡ true → s.loading ≡ false
  entry-IsFree m s e = ground arith

  saves-after :
      (jobs : List Job) (s : State num) (r : State num × List (Effect num))
      → saves jobs ≡ busy s.loading
      → Keeps s r
      → saves (after jobs r).jobs ≡ busy (after jobs r).state.loading
  saves-after jobs s (t, es) h k = omega (arith, saves-append jobs (started es), h, k)

  saves-answered :
      (before later : List Job) (j : Job) (a : Answer num) (s : State num)
      → saves (before ++ j ∷ later) ≡ busy s.loading
      → saves (after (before ++ later) (answer j a s)).jobs
        ≡ busy (after (before ++ later) (answer j a s)).state.loading
  saves-answered before later j a s h = elim (save_of_at_most_one j) [
    | inl z ↦ omega (
      arith,
      answer-Keeps j a s z,
      z,
      h,
      saves-append before (j ∷ later),
      saves-append before later,
      saves-append (before ++ later) (started (answer j a s).1),
    )
    | inr z ↦ omega (
      arith,
      busy_at_most_one s.loading,
      answer-ends j a s z,
      z,
      h,
      saves-append before (j ∷ later),
      saves-append before later,
      saves-append (before ++ later) (started (answer j a s).1),
    )
  ]

  fetch-Keeps : (s : State num) → Keeps s (s, fetch_data)
  unfolding fetch_data
  fetch-Keeps s = omega arith

  Step-Keeps :
      (date_value : String → String) (w v : World num)
      → Step date_value w v
      → saves w.jobs ≡ busy w.state.loading
      → saves v.jobs ≡ busy v.state.loading
  Step-Keeps d w v (clicked browser m among) h =
      saves-after w.jobs w.state (update d browser m w.state) h
        (update-Keeps d browser m w.state (All-mem (IsFree w.state) among (view-IsFree w.state)))
  Step-Keeps d w v (entered browser m e) h =
      saves-after w.jobs w.state (update d browser m w.state) h
        (update-Keeps d browser m w.state (entry-IsFree m w.state e))
  Step-Keeps d w v polled h =
      saves-after w.jobs w.state (w.state, fetch_data) h (fetch-Keeps w.state)
  Step-Keeps d w v (requeried group) h = h
  Step-Keeps d w v (answered before later j a e) h =
      saves-answered before later j a w.state (sym (ap saves e) ∙ h)

  -- From a page that is not loading and waits for no answer: however clicks, inputs, polls,
  -- answers and other queries of the address follow each other, there is exactly one save of a client
  -- under way while the page shows that it is loading, and none while it does not.
  pub saves-loading :
      (date_value : String → String) (first : State num) (w : World num)
      → first.loading ≡ false
      → Reach date_value first w
      → saves w.jobs ≡ busy w.state.loading
  saves-loading d first w e here = ground arith
  saves-loading d first w e (next {w = w₀} r step) =
      Step-Keeps d w₀ w step (saves-loading d first w₀ e r)
