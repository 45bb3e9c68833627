-- ===== src/Episub/Knowing.antt =====
-- A node before and after a poll finds an address of its own, and the peers that it has banned.
use irn.Base.{
  ℕ, ◌≡◌, sym, String, Bool, true, false, not, Option, none, some, List, [], ◌∷◌, arith,
  Option-cases, inl, inr, Eq-ℕ, Eq-String, if_elim, retain, ◌==◌,
}
use irn.Base.Keyed.{contains, insert, find, put, whole}
use irn.Host.{Host}
use irn.Rpc.{PeerId, Rpc, Multiaddr, NetworkAction}
use irn.Topic.{Outcome}
use irn.Topic
use irn.Episub.{
  Episub, topic_key, joined, with_topics, update_local_node_info, inject_new_listen_addr,
  inject_expired_listen_addr, with_addresses, inject_dial_failure, inject_connection_closed,
  disconnected_all, inject_event, settle, ban_peer, force_disconnect, poll, poll_from, poll_meshes,
  PollParameters, DialError, emit_all, disconnect_on,
}
use irn.Episub.Address.{Eq-Multiaddr, is_local_address}
use irn.Episub.Calls.{Call, call, run}
use irn.Episub.Keeping.{
  Keeps, KeepsSome, Keeps-topics, Keeps-trans, ban_peer-Keeps, subscribe-Keeps, _unsubscibe-Keeps,
  publish-Keeps, keeps_some, update-Keeps, established-Keeps, poll_meshes-nil,
}

module _ (h : Host) where
  settle-Keeps :
      (e : Episub) (p : PeerId) (connection : ℕ) (topic : String) (o : Outcome) {u : Episub}
      → (e.topics ≡ [] → ⊥)
      → settle e p connection topic o ≡ some u
      → Keeps e u
  unfolding settle
  settle-Keeps e p connection topic (Outcome.ingested m) {u} some_ r =
      let out : with_topics e (put topic_key (joined topic m) e.topics) ≡ u = ground arith in
      rw (sym out) (Keeps-topics e _ e.out_events e.draws (λ bare. absurd (some_ bare)))
  settle-Keeps e p connection topic (Outcome.rejected violation m) {u} some_ r =
      let w = with_topics e (put topic_key (joined topic m) e.topics) in
      let out : ban_peer w p connection ≡ u = ground arith in
      rw (sym out) (
        Keeps-trans (Keeps-topics e w.topics e.out_events e.draws (λ bare. absurd (some_ bare)))
          (ban_peer-Keeps w p connection))
  settle-Keeps e p connection topic Outcome.panicked some_ r = absurd (ground arith)

  action-Keeps :
      (e : Episub) (p : PeerId) (connection : ℕ) (event : Rpc) (now : ℕ)
      → KeepsSome e (elim (find topic_key event.topic e.topics) [
        | some j ↦ settle e p connection event.topic (Topic.inject_rpc_call h j.mesh p event now)
        | none ↦
            some (force_disconnect (emit_all e (disconnect_on event.topic p ∷ [])) p connection)
      ])
  unfolding force_disconnect
  action-Keeps e p connection event now =
      elim (Option-cases (find topic_key event.topic e.topics)) [
        | inl missing ↦ simp missing (record { bans = λ k b. b; settles = λ s. s })
        | inr (j, found) ↦ simp found (
            keeps_some e
              (settle e p connection event.topic (Topic.inject_rpc_call h j.mesh p event now))
              (λ u r.
                settle-Keeps e p connection event.topic (Topic.inject_rpc_call h j.mesh p event now)
                  (λ bare. ground arith) r))
      ]

  event-Keeps :
      (e : Episub) (p : PeerId) (connection : ℕ) (event : Rpc) (now : ℕ)
      → KeepsSome e (inject_event h e p connection event now)
  unfolding inject_event force_disconnect
  event-Keeps e p connection event now =
      let closed : Keeps e (force_disconnect e p connection) = record {
        bans = λ k b. b;
        settles = λ s. s;
      } in
      if_elim (KeepsSome e) (contains whole p e.banned_peers) (λ _. closed)
        λ _.
          if_elim (KeepsSome e) (not (e.config.authorizer event.topic p)) (λ _. closed)
            λ _. elim (Option-cases event.action) [
              | inl empty ↦ simp empty (ban_peer-Keeps e p connection)
              | inr (a, acts) ↦ simp acts (action-Keeps e p connection event now)
            ]

  poll-Keeps :
      (e : Episub) (now : ℕ) (own : List NetworkAction) {a : Option NetworkAction} {u : Episub}
      → poll_from h e now own ≡ some (a, u)
      → Keeps e u
  unfolding poll_from
  poll-Keeps e now [] {a} {u} r = elim (Option-cases (poll_meshes h e.topics now)) [
    | inl f ↦ absurd (ground arith)
    | inr ((b, ts), f) ↦
        let out : with_topics e ts ≡ u = ground arith in
        rw (sym out)
          (Keeps-topics e ts e.out_events e.draws (λ bare. ground (arith, poll_meshes-nil h now)))
  ]
  poll-Keeps e now (b ∷ rest) {a} {u} r =
      let out : (record e { out_events = rest }) ≡ u = ground arith in
      rw (sym out) (record { bans = λ k i. i; settles = λ s. s })

  with_addresses-Keeps :
      (e : Episub) (f : List Multiaddr → List Multiaddr) → Keeps e (with_addresses e f)
  unfolding with_addresses
  with_addresses-Keeps e f = elim (Option-cases e.local_node) [
    | inl n ↦ simp (with_addresses, n) (record { bans = λ k b. b; settles = λ s. s })
    | inr (node, n) ↦
        simp (with_addresses, n) (record { bans = λ k b. b; settles = λ s. simp n at s })
  ]

  disconnected_all-Keeps :
      (e : Episub) (p : PeerId) (alive : Bool) → Keeps e (disconnected_all h e p alive)
  unfolding disconnected_all
  disconnected_all-Keeps e p alive = Keeps-topics e _ e.out_events e.draws (λ bare. ground arith)

  failure-Keeps :
      (e : Episub) (p : Option PeerId) (why : DialError) → Keeps e (inject_dial_failure h e p why)
  unfolding inject_dial_failure
  failure-Keeps e p DialError.dial_peer_condition_false = record {
    bans = λ k b. b;
    settles = λ s. s;
  }
  failure-Keeps e none DialError.other_error = record { bans = λ k b. b; settles = λ s. s }
  failure-Keeps e (some p) DialError.other_error = disconnected_all-Keeps e p false

  polled-Keeps :
      (e : Episub) (params : PollParameters) (now : ℕ) {a : Option NetworkAction} {u : Episub}
      → poll h e params now ≡ some (a, u)
      → Keeps e u
  unfolding poll
  polled-Keeps e params now {a} {u} r =
      elim (Option-cases (update_local_node_info h e params now)) [
        | inl f ↦ absurd (ground arith)
        | inr (w, f) ↦
            let rest : poll_from h w now w.out_events ≡ some (a, u) = ground arith in
            Keeps-trans (update-Keeps h e params now f) (poll-Keeps w now w.out_events rest)
      ]

  call-Keeps : (e : Episub) (c : Call) → KeepsSome e (call h e c)
  unfolding call inject_new_listen_addr inject_expired_listen_addr inject_connection_closed
  call-Keeps e (Call.subscribes topic now) = subscribe-Keeps e topic now
  call-Keeps e (Call.unsubscribes topic) = _unsubscibe-Keeps e topic
  call-Keeps e (Call.publishes topic message now) = publish-Keeps h e topic message now
  call-Keeps e (Call.connected peer connection endpoint) =
      established-Keeps h e peer connection endpoint
  call-Keeps e (Call.listens addr) =
      if_elim (Keeps e) (not (is_local_address addr))
        (λ _. with_addresses-Keeps e (insert whole addr))
        (λ _. record { bans = λ k b. b; settles = λ s. s })
  call-Keeps e (Call.expires addr) = with_addresses-Keeps e (retain (λ a. not (a == addr)))
  call-Keeps e (Call.fails peer why) = failure-Keeps e peer why
  call-Keeps e (Call.closed peer) = disconnected_all-Keeps e peer true
  call-Keeps e (Call.receives peer connection event now) = event-Keeps e peer connection event now
  call-Keeps e (Call.polls params now) = elim (Option-cases (poll h e params now)) [
    | inl f ↦ rw (f, KeepsSome) tt
    | inr (r, f) ↦ rw (f, KeepsSome) (polled-Keeps e params now {a = r.0} f)
  ]

  pub run-Keeps : (calls : List Call) (e : Episub) {u : Episub} → run h e calls ≡ some u → Keeps e u
  unfolding run
  run-Keeps [] e {u} r =
      let out : e ≡ u = ground arith in rw (sym out) (record { bans = λ k b. b; settles = λ s. s })
  run-Keeps (c ∷ rest) e {u} r = elim (Option-cases (call h e c)) [
    | inl f ↦ absurd (ground arith)
    | inr (w, f) ↦
        let first : Keeps e w = simp f at (call-Keeps e c) in
        Keeps-trans first (run-Keeps rest w {u = u} (ground arith))
  ]
