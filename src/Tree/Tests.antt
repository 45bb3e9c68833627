-- ===== src/Tree/Tests.antt =====
-- PlumTree on small inputs, and its theorems at concrete trees.
use irn.Base.{ℕ, get_elem?, ◌≡◌, ◌≤◌, ◌+◌, refl, true, List, [], ◌∷◌, some, arith, Eq-ℕ}
use irn.Cache.{Timed, MessageInfo, MessageRecord, ExpiringCache, record_item, info_item}
use irn.Cache
use irn.Samples.{host, host-IsLawful, config}
use irn.Tree.{
  new, PlumTree, inject_message, delivered_payload, forward_message, prune_sender, inject_prune,
  inject_neighbor_up, inject_graft, consider_all, consider, add_graft, repair_tree, prune_history,
  notify,
}
use irn.Tree.Clock
use irn.Tree.Budget
use irn.Tree.Delivery
use irn.Tree.Inputs.{Input, feed, feed_all}
use irn.Tree.Repair
use irn.Tree.Asking
use irn.Tree.Linking
use irn.Tree.Links.{is_linked}
use irn.Cache.Expiry.{IsValid}
use irn.Rpc.{Action}

abbrev small : PlumTree
small = record {
  topic = "t";
  local_node = 0;
  lazy = 3 ∷ [];
  eager = 1 ∷ 2 ∷ [];
  last_tick = 0;
  config = config;
  observed = record { entries = []; by_time = [] };
  received = record { entries = []; by_time = [] };
  out_events = [];
}

program : Unit {0}
unfolding Cache.new Cache.insert Cache.get inject_message delivered_payload forward_message
    prune_sender inject_prune inject_neighbor_up inject_graft feed feed_all consider_all consider
    add_graft repair_tree prune_history Cache.iter_range Cache.remove_older_than Cache.drop_older
program = tt

abbrev inputs : List Input
inputs = Input.message 1 7 1 (5 ∷ []) 10 ∷ Input.message 2 7 2 (5 ∷ []) 11 ∷ []

feed_all-delivers_once_example :
    (u : PlumTree) × (feed_all host small inputs ≡ some u)
    × (Budget.deliveries 7 u.out_events ≤ 0 + 1)
unfolding program
feed_all-delivers_once_example =
    Delivery.feed_all-delivers_once host small inputs 7 ((5 ∷ [], refl), ((5 ∷ [], refl), tt))

-- Peer 3 has announced message 7.
abbrev announced : Timed MessageInfo
announced = record { value = record { id = 7; hop = 1; sender = 3 }; time = 99100 }

abbrev told : PlumTree
told = record small { observed = record { entries = announced ∷ []; by_time = announced ∷ [] } }

abbrev asking : PlumTree
asking = record told { out_events = notify told (Action.graft (7 ∷ [])) 3 ∷ [] }

repairs : repair_tree host told 100000 ≡ some asking
unfolding program
repairs = refl

told-IsValid : IsValid info_item told.observed
told-IsValid = record { distinct = (refl, tt); agree = λ k. refl; sorted = (tt, tt) }

repair_tree-asks_example :
    (u : PlumTree) × (repair_tree host told 100000 ≡ some u) × (Asking.asks 3 7 u.out_events ≡ true)
unfolding program
repair_tree-asks_example =
    Asking.repair_tree-asks host-IsLawful told 100000 0 announced told-IsValid (omega arith) refl
      (omega arith) (omega arith) refl

repair_tree-IsMissing_example :
    Repair.IsMissing told 7
    × (i : ℕ) × (o : Timed MessageInfo) × (get_elem? told.observed.by_time i ≡ some o)
    × (o.value.sender ≡ 3)
    × (o.value.id ≡ 7)
    × (98000 ≤ o.time)
    × (o.time ≤ 99600)
unfolding program
repair_tree-IsMissing_example =
    Asking.repair_tree-IsMissing host-IsLawful told 100000 3 7 {u = asking} told-IsValid
      (omega arith) repairs refl refl

abbrev steps : List Clock.Step
steps =
    Clock.Step.feeds (Input.message 1 7 1 (5 ∷ []) 10)
    ∷ Clock.Step.polls 300
    ∷ Clock.Step.feeds (Input.up 2)
    ∷ Clock.Step.polls 900
    ∷ []

run-returns_example : (u : PlumTree) × (Clock.advance_all host (new "t" config 0 0) steps ≡ some u)
unfolding program
run-returns_example =
    Clock.run-returns host-IsLawful config (omega arith) "t" 0 0 steps
      (omega arith, (5 ∷ [], refl), (omega arith, tt, (omega arith, tt, (omega arith, tt, tt))))

-- Two links come, and one goes.
abbrev links : List Clock.Step
links =
    Clock.Step.feeds (Input.up 5)
    ∷ Clock.Step.feeds (Input.prune 5)
    ∷ Clock.Step.polls 300
    ∷ Clock.Step.feeds (Input.graft 6 [])
    ∷ Clock.Step.feeds (Input.down 6)
    ∷ []

abbrev linked : PlumTree
linked = record (new "t" config 0 0) { lazy = 5 ∷ []; last_tick = 300 }

linking : Clock.advance_all host (new "t" config 0 0) links ≡ some linked
unfolding program irn.Tree.poll irn.Tree.maintain new irn.Tree.publish_ihaves
    irn.Tree.inject_neighbor_down irn.Tree.pop_from
linking = refl

advance_all-links_example : is_linked linked 5 ≡ true
unfolding new
advance_all-links_example =
    Linking.advance_all-links host (new "t" config 0 0) links 5 {u = linked} linking
