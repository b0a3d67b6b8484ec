-- ===== src/Admin/ListTests.antt =====
-- Concrete runs of the pages that list the server's records, from opening to the last answer.
use wow_vpn.Common.{◌≡◌, refl, true, false, none, List, [], ◌∷◌}
use wow_vpn.Common.Whole.{whole}
use wow_vpn.Admin.ListPage.{World, Step, Reach, Reply}
use wow_vpn.Admin.ListPage
use wow_vpn.Admin.Nodes
use wow_vpn.Admin.ResponseRules
use wow_vpn.Admin.Groups

-- The page of the servers: the list comes, the one server is removed, and the list comes anew.
abbrev node : Nodes.Node whole
node = record {
  id = "n";
  name = "NL";
  location = "";
  ip_address = "";
  port = 443;
  is_online = true;
}

abbrev no_nodes : Nodes.State whole
no_nodes = record { nodes = []; form = none }

abbrev drop_nodes :
    Nodes.Job × Nodes.Request whole → List (Nodes.Node whole) → List (Nodes.Node whole)
drop_nodes c xs = []

abbrev loads_nodes : Nodes.Job × Nodes.Request whole
loads_nodes = (Nodes.Job.loading, Nodes.Request.list_nodes)

abbrev removes_node : Nodes.Job × Nodes.Request whole
removes_node = (Nodes.Job.deleting, Nodes.Request.delete_node "n")

abbrev nodes_after : World (Nodes.Listing.nodes_page whole)
nodes_after = record { state = no_nodes; asked = []; replies = []; records = [] }

nodes_reached : Reach (Nodes.Listing.nodes_page whole) drop_nodes nodes_after
unfolding Nodes.Listing.act Nodes.Listing.receive Nodes.answer Nodes.Screen.update
    Nodes.handle_delete
nodes_reached =
    Reach.next
      (Reach.next
        (Reach.next
          (Reach.next
            (Reach.next
              (Reach.next
                (Reach.next (Reach.opened no_nodes loads_nodes (node ∷ []))
                  (Step.served loads_nodes [] refl))
                (Step.received loads_nodes (Reply.listed (node ∷ [])) [] refl))
              (Step.acted (true, Nodes.Screen.Msg.remove "n")))
            (Step.served removes_node [] refl))
          (Step.received removes_node Reply.done [] refl))
        (Step.served loads_nodes [] refl))
      (Step.received loads_nodes (Reply.listed []) [] refl)

nodes-settled_example : nodes_after.state.nodes ≡ nodes_after.records
nodes-settled_example =
    Nodes.Listing.nodes-settled whole drop_nodes nodes_after nodes_reached refl refl

-- The page of the rules.
abbrev rule : ResponseRules.Rule
rule = record { id = "r"; name = "warn"; trigger = "90%"; action = "mail"; enabled = true }

abbrev loads_rules : ResponseRules.Job × ResponseRules.Request
loads_rules = (ResponseRules.Job.loading, ResponseRules.Request.list_rules)

abbrev keep_rules :
    ResponseRules.Job × ResponseRules.Request → List ResponseRules.Rule → List ResponseRules.Rule
keep_rules c xs = xs

-- A click on the rule's switch while the list is under way.
abbrev switched : World ResponseRules.Listing.rules_page
switched = record {
  state = record { rules = []; form = none };
  asked =
      loads_rules
      ∷ (ResponseRules.Job.toggling, ResponseRules.Request.toggle_rule_to "r" false)
      ∷ [];
  replies = [];
  records = rule ∷ [];
}

switched_reached : Reach ResponseRules.Listing.rules_page keep_rules switched
unfolding ResponseRules.Listing.act ResponseRules.Screen.update ResponseRules.toggle_rule
switched_reached =
    Reach.next (Reach.opened (record { rules = []; form = none }) loads_rules (rule ∷ []))
      (Step.acted (true, ResponseRules.Screen.Msg.toggle "r" true))

rounds-rules_example :
    let v =
      ListPage.Rounds.rounds ResponseRules.Listing.rules_page ResponseRules.Listing.rules_restful
        keep_rules
        (ListPage.Rounds.work_due ResponseRules.Listing.rules_page
          ResponseRules.Listing.rules_restful switched)
        switched in
    (v.asked ≡ []) × (v.replies ≡ []) × (v.state.rules ≡ v.records)
rounds-rules_example = ResponseRules.Listing.rounds-rules keep_rules switched switched_reached

-- The page of the groups: a group is removed while the list is under way.
abbrev loads_groups : Groups.Listing.Command
loads_groups = (Groups.Job.loading_groups, Groups.Request.list_groups, refl)

abbrev removes_group : Groups.Listing.Command
removes_group = (Groups.Job.deleting, Groups.Request.delete_group "g1", refl)

abbrev one_group : List Groups.Group
one_group = record { id = "g1"; name = "VIP"; description = ""; data_limit = ""; members = 0 } ∷ []

abbrev drop_groups : Groups.Listing.Command → List Groups.Group → List Groups.Group
drop_groups c xs = []

abbrev group_removed : World Groups.Listing.groups_page
group_removed = record {
  state = Groups.initial;
  asked = loads_groups ∷ removes_group ∷ [];
  replies = [];
  records = one_group;
}

group_removed_reached : Reach Groups.Listing.groups_page drop_groups group_removed
unfolding Groups.Listing.act Groups.Screen.update Groups.handle_delete
group_removed_reached =
    Reach.next (Reach.opened Groups.initial loads_groups one_group)
      (Step.acted (Groups.Listing.Action.sent true (Groups.Screen.Msg.remove "g1")))

rounds-groups_example :
    let v =
      ListPage.Rounds.rounds Groups.Listing.groups_page Groups.Listing.groups_restful drop_groups
        (ListPage.Rounds.work_due Groups.Listing.groups_page Groups.Listing.groups_restful
          group_removed)
        group_removed in
    (v.asked ≡ []) × (v.replies ≡ []) × (v.state.groups ≡ v.records)
rounds-groups_example = Groups.Listing.rounds-groups drop_groups group_removed group_removed_reached
