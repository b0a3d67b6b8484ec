-- ===== src/Admin/Users/Panel.antt =====
-- pages/Users.tsx: the selection, the sidebar with its form, and the QR modal.
use wow_vpn.Common.{
  ◌||◌, ◌&&◌, String, Bool, true, false, not, Option, none, some, List, [], ◌∷◌, ◌++◌, map, filter,
  length, includes, without, ◌==◌, nat_eq, if◌then◌else◌,
}
use wow_vpn.Common.Number.{Number}
use wow_vpn.Admin.Users.Types.{Client, Tariff, Form, State}

-- JavaScript's truth of `groupFilterId`.
abbrev pub has_filter : Option String → Bool
has_filter none = false
has_filter (some id) = not (id == "")

abbrev pub filter_id : Option String → String
filter_id none = ""
filter_id (some id) = id

module _ {num : Number} where
  open num use {Carrier, of_nat, to_text, is_falsy}

  -- `displayedUsers`.
  unfoldable pub displayed_users : State num → List (Client num)
  displayed_users s =
      if has_filter s.group_filter
      then filter (λ u. u.group_id == filter_id s.group_filter) s.users
      else s.users

  -- Whether rendering throws: the table maps the clients, the title looks a group up, and the
  -- sidebar maps the groups and the tariffs.
  unfoldable pub throws : State num → Bool
  throws s =
      s.misread.users
      || ((s.misread.groups && (has_filter s.group_filter || s.sidebar_open))
          || (s.misread.templates && s.sidebar_open))

  unfoldable pub toggle_user_selection : String → State num → State num
  toggle_user_selection id s = record s {
    selected_users =
        if includes s.selected_users id
        then without id s.selected_users
        else s.selected_users ++ id ∷ [];
  }

  unfoldable pub toggle_select_all : State num → State num
  unfolding displayed_users
  toggle_select_all s = record s {
    selected_users =
        if nat_eq (length s.selected_users) (length (displayed_users s))
        then []
        else map (λ u. u.id) (displayed_users s);
  }

  -- `selectedUser?.dataLimit || 100`.
  unfoldable pub limit_of : Option (Client num) → Carrier
  limit_of none = of_nat 100
  limit_of (some u) = if is_falsy u.data_limit then of_nat 100 else u.data_limit

  name_of : Option (Client num) → String
  name_of none = ""
  name_of (some u) = u.username

  telegram_of : Option (Client num) → String
  telegram_of none = ""
  telegram_of (some u) = u.telegram_id

  end_of : Option (Client num) → String
  end_of none = ""
  end_of (some u) = u.subscription_end

  -- A date input shows and returns what is a date, and "" for any other default; `date_value` is
  -- that rule of the browser.
  module _ (date_value : String → String) where
    -- The inputs as they are mounted, with their default values.
    unfoldable pub mount_form : Option (Client num) → Form
    unfolding limit_of name_of telegram_of end_of
    mount_form u = record {
      name = name_of u;
      telegram = telegram_of u;
      limit = to_text (limit_of u);
      date = date_value (end_of u);
    }

    -- Opening the sidebar mounts the inputs. One that is open already covers the rows with its
    -- overlay; inputs that are mounted keep what they hold.
    open_form : Option (Client num) → Option Form → Form
    unfolding mount_form
    open_form u none = mount_form u
    open_form u (some f) = f

    -- openUserDetails.
    unfoldable pub open_user_details : Client num → State num → State num
    unfolding open_form
    open_user_details u s = record s {
      selected_user = some u;
      sidebar_open = true;
      form = some (open_form (some u) s.form);
    }

    -- The button that opens the sidebar for a new client.
    unfoldable pub open_new : State num → State num
    unfolding open_form
    open_new s = record s {
      selected_user = none;
      sidebar_open = true;
      form = some (open_form none s.form);
    }

  unfoldable pub close_sidebar : State num → State num
  close_sidebar s = record s { sidebar_open = false; form = none }

  unfoldable pub select_group : String → State num → State num
  select_group id s = record s { selected_group_id = id }

  find_template : String → List (Tariff num) → Option (Tariff num)
  find_template id [] = none
  find_template id (t ∷ ts) = let rest = find_template id ts in if t.id == id then some t else rest

  write_limit : Option (Tariff num) → Option Form → Option Form
  write_limit (some t) (some f) = some (record f { limit = to_text t.data_limit_gb })
  write_limit _ form = form

  unfoldable pub handle_template_change : String → State num → State num
  unfolding find_template write_limit
  handle_template_change id s = record s {
    form = write_limit (find_template id s.templates) s.form;
  }

  unfoldable pub show_qr : Client num → State num → State num
  show_qr u s = record s { qr_modal = some (record { link = u.shade_link; username = u.username }) }

  unfoldable pub close_qr : State num → State num
  close_qr s = record s { qr_modal = none }
