-- ===== src/Admin/Users/Editing.antt =====
-- pages/Users.tsx: the details of a client are opened and saved at once.
use wow_vpn.Common.{◌≡◌, refl, String, none, [], ◌∷◌, if◌then◌else◌}
use wow_vpn.Common.Number.{Number}
use wow_vpn.Admin.Users.Types.{Client, State, update_client, updating, start}
use wow_vpn.Admin.Users.Panel.{open_user_details, mount_form, limit_of}
use wow_vpn.Admin.Users.Handlers.{handle_update, null_if_empty, limit_patch}

module _ {num : Number} where
  open num use {Carrier, of_nat, to_text, is_falsy}

  -- Opening the details of a client on a closed sidebar and saving at once asks the server to
  -- write the client's own name and Telegram name, its limit, or 100 if the limit is 0, its date as
  -- the date input reads it, and the group that was chosen in the sidebar last, not the client's.
  pub handle_update-open_user_details :
      (date_value : String → String) (u : Client num) (s : State num)
      → s.form ≡ none
      → (handle_update (open_user_details date_value u s)).1
        ≡ start updating (
            update_client u.id (record {
              username = null_if_empty u.username;
              telegram_id = null_if_empty u.telegram_id;
              data_limit =
                  limit_patch num
                    (to_text (if is_falsy u.data_limit then of_nat 100 else u.data_limit));
              subscription_end = date_value u.subscription_end;
              group_id = s.selected_group_id;
            }))
          ∷ []
  unfolding handle_update open_user_details mount_form limit_of
  handle_update-open_user_details d u s e = rw e refl
