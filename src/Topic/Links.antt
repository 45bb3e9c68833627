-- ===== src/Topic/Links.antt =====
-- The links of the tree follow the members of the view.
use irn.Base.{
  ℕ, ◌≡◌, refl, ap, sym, ◌∙◌, true, Option, none, some, List, [], ◌∷◌, map, nat_eq, arith,
  Option-cases, inl, inr, filter_map, Eq-ℕ, String, Bool-cases,
}
use irn.Base.Keyed.{contains, whole, contains-insert, contains-remove, contains-map}
use irn.Config.{Config}
use irn.Host.{Host}
use irn.Rpc.{PeerId, Bytes, AddressablePeer, Action, MessageRef, NetworkAction, EpisubEvent}
use irn.Topic.{
  TopicMesh, with_nodes, with_tree, new, disconnected, initiate_join, publish, inject_ihaves,
  inject_action, inject_rpc_call, tell_tree, poll_tree, poll_nodes, poll_own, poll,
}
use irn.Topic.Calls.{Call, call, run, mesh_of}
use irn.Tree
use irn.Tree.{PlumTree}
use irn.Tree.Inputs.{Input, feed}
use irn.Tree.Links.{is_linked, feed-links, poll-SameLinks}
use irn.View
use irn.View.{HyParView, peer_key, try_from}
use irn.View.Calls
use irn.View.Mirror.{replay, replay_all, IsMirrored, Moves-IsMirrored}
use irn.View.Moves.{handle-Moves}
use irn.View.History.{poll-IsMirrored}

-- The listener's set is linked in the tree, and mirrors the view once its queue is read.
abbrev pub Follows : List PeerId → TopicMesh → Type 0
Follows s m =
    IsMirrored s m.nodes × ((k : PeerId) → contains whole k s ≡ true → is_linked m.tree k ≡ true)

abbrev pub IsFollowed : TopicMesh → Type 0
IsFollowed m = (s : List PeerId) × Follows s m

-- A control message to the view.
nodes-IsFollowed :
    (h : Host) (m : TopicMesh) (c : View.Calls.Call)
    → IsFollowed m
    → IsFollowed (with_nodes m (View.Calls.handle h m.nodes c))
nodes-IsFollowed h m c (s, (mirror, linked)) =
    (s, (Moves-IsMirrored h s (handle-Moves h m.nodes c) mirror, linked))

-- A call of the tree that takes no link away.
tree-IsFollowed :
    (m : TopicMesh) (t : PlumTree)
    → ((k : PeerId) → is_linked m.tree k ≡ true → is_linked t k ≡ true)
    → IsFollowed m
    → IsFollowed (with_tree m t)
tree-IsFollowed m t keeps (s, (mirror, linked)) = (s, (mirror, λ k i. keeps k (linked k i)))

inject_ihaves-links :
    (peer : PeerId) (ihaves : List MessageRef) (now : ℕ) (k : PeerId) (t : PlumTree)
    → is_linked (inject_ihaves t peer ihaves now) k ≡ is_linked t k
unfolding inject_ihaves Tree.inject_ihave
inject_ihaves-links peer [] now k t = refl
inject_ihaves-links peer (i ∷ rest) now k t =
    inject_ihaves-links peer rest now k (Tree.inject_ihave t peer i.id i.hop now)

-- What the tree hears of a member is what a listener makes of it.
tell_tree-linked :
    (a : NetworkAction) (s : List PeerId) (t : PlumTree)
    → ((k : PeerId) → contains whole k s ≡ true → is_linked t k ≡ true)
    → (k : PeerId) → contains whole k (replay s a) ≡ true
    → is_linked (tell_tree a t) k ≡ true
unfolding tell_tree Tree.inject_neighbor_up Tree.inject_neighbor_down
tell_tree-linked (NetworkAction.generate_event (EpisubEvent.peer_added p)) s t l k i =
    ground (arith, contains-insert whole k p s, contains-insert whole k p t.eager, l k)
tell_tree-linked (NetworkAction.generate_event (EpisubEvent.peer_removed p)) s t l k i = ground (
  arith,
  contains-remove whole k p s,
  contains-remove whole k p t.eager,
  contains-remove whole k p t.lazy,
  l k,
)
tell_tree-linked (NetworkAction.generate_event (EpisubEvent.message_received a b c)) s t l k i =
    l k i
tell_tree-linked (NetworkAction.generate_event (EpisubEvent.subscribed a)) s t l k i = l k i
tell_tree-linked (NetworkAction.generate_event (EpisubEvent.unsubscribed a)) s t l k i = l k i
tell_tree-linked (NetworkAction.notify_handler a b) s t l k i = l k i
tell_tree-linked (NetworkAction.dial a b c d) s t l k i = l k i
tell_tree-linked (NetworkAction.close_connection a b) s t l k i = l k i

-- A property of the result, if there is one.
abbrev OnSome : (TopicMesh → Type 0) → Option TopicMesh → Type 0
OnSome P none = Unit
OnSome P (some u) = P u

module _ (h : Host) where
  poll_nodes-IsFollowed :
      (m : TopicMesh) (now : ℕ) {a : Option NetworkAction} {u : TopicMesh}
      → IsFollowed m
      → poll_nodes h m now ≡ some (a, u)
      → IsFollowed u
  unfolding poll_nodes poll_tree
  poll_nodes-IsFollowed m now {a} {u} (s, (mirror, linked)) e =
      let told : TopicMesh = with_nodes m (View.poll h m.nodes now).1 in
      let step = poll-IsMirrored h s m.nodes now mirror in
      elim (Option-cases (View.poll h m.nodes now).0) [
        | inr (b, f) ↦
            let mirrored : IsMirrored (replay s b) (View.poll h m.nodes now).1 = rw f at step in
            let out : with_tree told (tell_tree b m.tree) ≡ u = ground arith in
            rw (sym out) (replay s b, (mirrored, tell_tree-linked b s m.tree linked))
        | inl f ↦
            let mirrored : IsMirrored s (View.poll h m.nodes now).1 = rw f at step in
            elim (Option-cases (Tree.poll h m.tree now)) [
              | inl g ↦ absurd (ground arith)
              | inr ((b, t), g) ↦
                  let out : with_tree told t ≡ u = ground arith in
                  let same = poll-SameLinks h now m.tree g in
                  rw (sym out) (
                    s,
                    (
                      mirrored,
                      λ k i. ground (arith, linked k i, same.eager_links, same.lazy_links),
                    ),
                  )
            ]
      ]

  poll-IsFollowed :
      (m : TopicMesh) (now : ℕ) (own : List NetworkAction) {a : Option NetworkAction}
      {u : TopicMesh}
      → IsFollowed m
      → poll_own h m now own ≡ some (a, u)
      → IsFollowed u
  unfolding poll_own
  poll-IsFollowed m now [] f e = poll_nodes-IsFollowed m now f e
  poll-IsFollowed m now (b ∷ rest) {a} {u} f e =
      let out : (record m { out_events = rest }) ≡ u = ground arith in rw (sym out) f

  inject_message-IsFollowed :
      (m : TopicMesh) (from : PeerId) (id hop : ℕ) (payload : Bytes) (now : ℕ) {t : PlumTree}
      → IsFollowed m
      → Tree.inject_message h m.tree from id hop payload now ≡ some t
      → IsFollowed (with_tree m t)
  unfolding feed
  inject_message-IsFollowed m from id hop payload now {t} f e =
      tree-IsFollowed m t
        (λ k i. feed-links h m.tree (Input.message from id hop payload now) k {u = t} e ∙ i) f

  inject_action-IsFollowed :
      (m : TopicMesh) (from : PeerId) (a : Action) (now : ℕ)
      → IsFollowed m
      → OnSome IsFollowed (mesh_of (inject_action h m from a now))
  unfolding inject_action View.Calls.handle feed
  inject_action-IsFollowed m from (Action.join ttl r) now f = elim (Option-cases (try_from h r)) [
    | inl e ↦ rw (e, inject_action) f
    | inr (p, e) ↦ rw (e, inject_action) (nodes-IsFollowed h m (View.Calls.Call.join from p ttl) f)
  ]
  inject_action-IsFollowed m from (Action.forward_join ttl r) now f =
      elim (Option-cases (try_from h r)) [
        | inl e ↦ rw (e, inject_action) f
        | inr (p, e) ↦
            rw (e, inject_action)
              (nodes-IsFollowed h m (View.Calls.Call.forward_join p ttl m.local_node.peer_id from)
                f)
      ]
  inject_action-IsFollowed m from (Action.neighbor priority r) now f =
      elim (Option-cases (try_from h r)) [
        | inl e ↦ rw (e, inject_action) f
        | inr (p, e) ↦ elim (Bool-cases (nat_eq p.peer_id from)) [
          | inl same ↦
              rw (e, same, inject_action)
                (nodes-IsFollowed h m (View.Calls.Call.neighbor p priority) f)
          | inr other ↦ rw (e, other, inject_action) f
        ]
      ]
  inject_action-IsFollowed m from (Action.shuffle ttl r nodes) now f =
      elim (Option-cases (try_from h r)) [
        | inl e ↦ rw (e, inject_action) f
        | inr (p, e) ↦
            rw (e, inject_action)
              (nodes-IsFollowed h m
                (View.Calls.Call.shuffle from ttl (filter_map (try_from h) nodes) p) f)
      ]
  inject_action-IsFollowed m from (Action.shuffle_reply nodes) now f =
      nodes-IsFollowed h m (View.Calls.Call.shuffle_reply nodes) f
  inject_action-IsFollowed m from (Action.disconnect alive) now f =
      nodes-IsFollowed h m (View.Calls.Call.disconnect from alive) f
  inject_action-IsFollowed m from (Action.message id hop payload) now f =
      elim (Option-cases (Tree.inject_message h m.tree from id hop payload now)) [
        | inl e ↦ rw (e, inject_action) tt
        | inr (t, e) ↦
            rw (e, inject_action) (inject_message-IsFollowed m from id hop payload now f e)
      ]
  inject_action-IsFollowed m from (Action.ihave ihaves) now f =
      tree-IsFollowed m (inject_ihaves m.tree from ihaves now)
        (λ k i. inject_ihaves-links from ihaves now k m.tree ∙ i) f
  inject_action-IsFollowed m from Action.prune now f =
      tree-IsFollowed m (Tree.inject_prune m.tree from)
        (λ k i. ground (
          arith,
          feed-links h m.tree (Input.prune from) k {u = Tree.inject_prune m.tree from} refl,
        ))
        f
  inject_action-IsFollowed m from (Action.graft ids) now f =
      tree-IsFollowed m (Tree.inject_graft m.tree from ids)
        (λ k i. ground (
          arith,
          feed-links h m.tree (Input.graft from ids) k {u = Tree.inject_graft m.tree from ids} refl,
        ))
        f

  call-IsFollowed : (m : TopicMesh) (c : Call) → IsFollowed m → OnSome IsFollowed (call h m c)
  unfolding call disconnected initiate_join publish inject_rpc_call View.Calls.handle feed poll
  call-IsFollowed m (Call.loses peer alive) f =
      nodes-IsFollowed h m (View.Calls.Call.disconnect peer alive) f
  call-IsFollowed m (Call.joins peer) f = nodes-IsFollowed h m (View.Calls.Call.join_to peer) f
  call-IsFollowed m (Call.publishes id payload now) f =
      tree-IsFollowed m (Tree.publish m.tree id payload now)
        (λ k i. ground (
          arith,
          feed-links h m.tree (Input.publishes id payload now) k
              {u = Tree.publish m.tree id payload now} refl,
        ))
        f
  call-IsFollowed m (Call.receives from event now) f = elim (Option-cases event.action) [
    | inl e ↦ rw (e, call, inject_rpc_call) tt
    | inr (a, e) ↦ rw (e, call, inject_rpc_call) (inject_action-IsFollowed m from a now f)
  ]
  call-IsFollowed m (Call.polls now) f = elim (Option-cases (poll h m now)) [
    | inl e ↦ rw (e, call) tt
    | inr (r, e) ↦ rw (e, call) (poll-IsFollowed m now m.out_events {a = r.0} f e)
  ]

  run-IsFollowed :
      (calls : List Call) (m : TopicMesh) {u : TopicMesh}
      → IsFollowed m
      → run h m calls ≡ some u
      → IsFollowed u
  unfolding run
  run-IsFollowed [] m f e = ground (arith, f)
  run-IsFollowed (c ∷ rest) m {u} f e = elim (Option-cases (call h m c)) [
    | inl g ↦ absurd (ground arith)
    | inr (w, g) ↦
        let follows : IsFollowed w = rw g at (call-IsFollowed m c f) in
        run-IsFollowed rest w {u = u} follows (ground arith)
  ]

Follows-linked :
    (m : TopicMesh)
    → m.nodes.out_events ≡ []
    → IsFollowed m
    → (k : PeerId) → contains peer_key k m.nodes.active ≡ true
    → is_linked m.tree k ≡ true
Follows-linked m quiet (s, (mirror, linked)) k member =
    let read : s ≡ map peer_key m.nodes.active = ap (replay_all s) (sym quiet) ∙ mirror in
    linked k (rw read (contains-map peer_key k m.nodes.active ∙ member))

-- After any history of calls and polls of a new mesh that does not panic, once the view has no event
-- left to hand out, every member of the active view has a link in the tree, eager or lazy.
pub run-links :
    (h : Host) (topic : String) (c : Config) (local : AddressablePeer) (now : ℕ) (calls : List Call)
    {m : TopicMesh}
    → run h (new topic c local now) calls ≡ some m
    → m.nodes.out_events ≡ []
    → (k : PeerId) → contains peer_key k m.nodes.active ≡ true
    → is_linked m.tree k ≡ true
unfolding new View.new
run-links h topic c local now calls {m} e quiet k member =
    let fresh : IsFollowed (new topic c local now) = ([], (refl, λ j i. absurd (ground arith))) in
    Follows-linked m quiet (run-IsFollowed h calls (new topic c local now) fresh e) k member
