-- ===== src/Admin/Users/Handlers.antt =====
-- pages/Users.tsx: the handlers that ask the server, and what they do with its answers. A handler
-- returns the new state and what it does outside, in order. A `fetch` starts a job, and `answer` is
-- the rest of the handler when the answer comes.
use wow_vpn.Common.{
  String, Bool, true, false, not, Option, none, some, List, [], ◌∷◌, ◌++◌, without, ◌==◌,
  if◌then◌else◌, or_else, trim, template,
}
use wow_vpn.Common.Number.{Number}
use wow_vpn.Admin.Users.Types.{
  Client, Form, State, NewClient, ClientPatch, list_clients, list_groups, list_templates,
  toggle_client, create_client, update_client, delete_client, Job, loading_clients, loading_groups,
  loading_templates, toggling, creating, updating, deleting, bulk_deleting, Effect, start, alert,
  copy, Answer, failed, clients, groups_answer, templates_answer, refused,
}
use wow_vpn.Admin.Users.Panel.{close_sidebar}

pub null_if_empty : String → Option String
null_if_empty s = if s == "" then none else some s

module _ (num : Number) where
  open num use {Carrier, parse_float}

  pub limit_patch : String → Option Carrier
  limit_patch limit = if limit == "" then none else some (parse_float limit)

module _ {num : Number} where
  open num use {parse_float}

  unfoldable pub fetch_users : List (Effect num)
  fetch_users = start loading_clients list_clients ∷ []

  -- `fetchData`, on mount and every five seconds.
  unfoldable pub fetch_data : List (Effect num)
  unfolding fetch_users
  fetch_data =
      fetch_users ++ start loading_groups list_groups ∷ start loading_templates list_templates ∷ []

  unfoldable pub handle_toggle : String → String → State num → State num × List (Effect num)
  handle_toggle id status s = (s, start toggling (toggle_client id (not (status == "online"))) ∷ [])

  unfoldable pub new_client : Form → String → NewClient num
  unfolding null_if_empty
  new_client f group = record {
    username = trim f.name;
    telegram_id = null_if_empty f.telegram;
    data_limit = parse_float (or_else f.limit "100");
    group_id = null_if_empty group;
  }

  unfoldable pub create_from : Option Form → State num → State num × List (Effect num)
  unfolding new_client
  create_from none s = (s, alert "Введите имя клиента!" ∷ [])
  create_from (some f) s = if trim f.name == "" then (s, alert "Введите имя клиента!" ∷ []) else (
    record s { loading = true },
    start creating (create_client (new_client f s.selected_group_id)) ∷ [],
  )

  unfoldable pub handle_create : State num → State num × List (Effect num)
  unfolding create_from
  handle_create s = create_from s.form s

  patch_of : Option Form → String → ClientPatch num
  unfolding null_if_empty limit_patch
  patch_of none group = record {
    username = none;
    telegram_id = none;
    data_limit = none;
    subscription_end = "";
    group_id = group;
  }
  patch_of (some f) group = record {
    username = null_if_empty f.name;
    telegram_id = null_if_empty f.telegram;
    data_limit = limit_patch num f.limit;
    subscription_end = f.date;
    group_id = group;
  }

  update_from : Option (Client num) → State num → State num × List (Effect num)
  unfolding patch_of
  update_from none s = (s, [])
  update_from (some u) s = (
    record s { loading = true },
    start updating (update_client u.id (patch_of s.form s.selected_group_id)) ∷ [],
  )

  unfoldable pub handle_update : State num → State num × List (Effect num)
  unfolding update_from
  handle_update s = update_from s.selected_user s

  -- handleDelete, at the answer of `confirm`.
  unfoldable pub handle_delete : Bool → String → State num → State num × List (Effect num)
  handle_delete false id s = (s, [])
  handle_delete true id s = (s, start (deleting id) (delete_client id) ∷ [])

  -- The loop of handleBulkDelete at the identifiers that are left.
  unfoldable pub bulk_step : List String → State num → State num × List (Effect num)
  unfolding fetch_users
  bulk_step [] s = (record s { selected_users = [] }, fetch_users)
  bulk_step (id ∷ ids) s = (s, start (bulk_deleting ids) (delete_client id) ∷ [])

  unfoldable pub handle_bulk_delete : Bool → State num → State num × List (Effect num)
  unfolding bulk_step
  handle_bulk_delete false s = (s, [])
  handle_bulk_delete true s = bulk_step s.selected_users s

  -- copyKey: with the clipboard at hand; or with a hidden text area, whose copy may fail.
  unfoldable pub copy_key : Bool → Bool → String → List (Effect num)
  copy_key true works link = copy link ∷ alert "✅ Ключ shade:// скопирован в буфер обмена!" ∷ []
  copy_key false true link =
      copy link ∷ alert "✅ Ключ shade:// скопирован в буфер обмена (fallback грязным хаком)!" ∷ []
  copy_key false false link =
      alert "Не удалось скопировать ключ. Пожалуйста, выделите его вручную." ∷ []

  unfoldable pub created : Answer num → State num → State num × List (Effect num)
  unfolding close_sidebar fetch_users
  created failed s = (
    record s { loading = false },
    alert "Сервер API недоступен. Убедитесь, что бэкенд запущен." ∷ [],
  )
  created (refused detail) s = (
    record s { loading = false },
    alert (template ("Ошибка: " ∷ or_else detail "Не удалось создать клиента" ∷ [])) ∷ [],
  )
  created _ s = (record (close_sidebar s) { loading = false }, fetch_users)

  unfoldable pub updated : Answer num → State num → State num × List (Effect num)
  unfolding fetch_users
  updated failed s = (record s { loading = false }, alert "Ошибка при вызове API" ∷ [])
  updated (refused _) s = (record s { loading = false }, alert "Ошибка при сохранении" ∷ [])
  updated _ s = (record s { loading = false }, fetch_users ++ alert "✅ Изменения сохранены" ∷ [])

  unfoldable pub deleted : String → Answer num → State num → State num × List (Effect num)
  unfolding fetch_users
  deleted id failed s = (s, alert "Ошибка удаления" ∷ [])
  deleted id _ s = (record s { selected_users = without id s.selected_users }, fetch_users)

  unfoldable pub toggled : Answer num → State num → State num × List (Effect num)
  unfolding fetch_users
  toggled failed s = (s, [])
  toggled _ s = (s, fetch_users)

  -- `setUsers` at the body of any response, and likewise for the two other lists.
  unfoldable pub got_clients : Answer num → State num → State num
  got_clients failed s = s
  got_clients (clients xs) s =
      let m = s.misread in record s { users = xs; misread = record m { users = false } }
  got_clients _ s = let m = s.misread in record s { misread = record m { users = true } }

  unfoldable pub got_groups : Answer num → State num → State num
  got_groups failed s = s
  got_groups (groups_answer xs) s =
      let m = s.misread in record s { groups = xs; misread = record m { groups = false } }
  got_groups _ s = let m = s.misread in record s { misread = record m { groups = true } }

  unfoldable pub got_templates : Answer num → State num → State num
  got_templates failed s = s
  got_templates (templates_answer xs) s =
      let m = s.misread in record s { templates = xs; misread = record m { templates = false } }
  got_templates _ s = let m = s.misread in record s { misread = record m { templates = true } }

  -- The rest of a handler at the answer that it waited for.
  unfoldable pub answer : Job → Answer num → State num → State num × List (Effect num)
  unfolding got_clients got_groups got_templates created updated deleted toggled bulk_step
  answer loading_clients a s = (got_clients a s, [])
  answer loading_groups a s = (got_groups a s, [])
  answer loading_templates a s = (got_templates a s, [])
  answer toggling a s = toggled a s
  answer creating a s = created a s
  answer updating a s = updated a s
  answer (deleting id) a s = deleted id a s
  answer (bulk_deleting ids) a s = bulk_step ids s
