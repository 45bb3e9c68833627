-- ===== src/Episub/Standing.antt =====
-- A topic stays with a node, as a mesh or among the pending ones, until it is unsubscribed.
use irn.Base.{
  ℕ, String, ◌≡◌, sym, Bool, true, false, none, some, List, [], ◌∷◌, arith, Option-cases, All, inl,
  inr, Eq-ℕ, Eq-String, ◌==◌, if◌then◌else◌,
}
use irn.Base.Keyed.{find, whole, contains-put, contains-insert, contains-remove}
use irn.Host.{Host}
use irn.Rpc.{Bytes}
use irn.Topic
use irn.Topic.{TopicMesh, Outcome}
use irn.Episub.{
  Episub, topic_key, joined, with_addresses, subscribe, _unsubscibe, publish,
  inject_new_listen_addr, inject_expired_listen_addr, inject_dial_failure, inject_connection_closed,
  poll, DialError,
}
use irn.Episub.Address.{Eq-Multiaddr}
use irn.Episub.Calls.{Call, call, run}
use irn.Episub.Subscribed.{
  IsSubscribed, Stays, disconnected_all-IsSubscribed, event-Stays, established-Stays,
  polled-IsSubscribed,
}

module _ (h : Host) (t : String) where
  -- Whether the call gives the topic up.
  abbrev pub leaves : Call → Bool
  leaves (Call.unsubscribes topic) = topic == t
  leaves c = false

  subscribe-IsSubscribed :
      (e : Episub) (topic : String) (now : ℕ)
      → IsSubscribed t e
      → IsSubscribed t (subscribe e topic now).0
  unfolding subscribe
  subscribe-IsSubscribed e topic now s = elim (Option-cases e.local_node) [
    | inl n ↦ ground (arith, contains-insert whole t topic e.pending_topics)
    | inr (node, n) ↦
        let mesh = joined topic (Topic.new topic e.config node now) in
        ground (arith, contains-put topic_key t mesh e.topics)
  ]

  unsubscribe-IsSubscribed :
      (e : Episub) (topic : String)
      → (topic == t) ≡ false
      → IsSubscribed t e
      → IsSubscribed t (_unsubscibe e topic).0
  unfolding _unsubscibe
  unsubscribe-IsSubscribed e topic apart s = ground (
    arith,
    contains-remove topic_key t topic e.topics,
    contains-remove whole t topic e.pending_topics,
  )

  publish-IsSubscribed :
      (e : Episub) (topic : String) (message : Bytes) (now : ℕ)
      → IsSubscribed t e
      → IsSubscribed t (publish h e topic message now).0
  unfolding publish
  publish-IsSubscribed e topic message now s = elim (Option-cases (find topic_key topic e.topics)) [
    | inl f ↦ ground arith
    | inr (j, f) ↦
        elim (Option-cases (
          if e.config.enable_compression
          then h.encode_all message e.config.compression_level
          else some message)) [
            | inl c ↦ ground arith
            | inr (payload, c) ↦
                let mesh = joined topic (Topic.publish j.mesh (h.gen_id e.draws) payload now) in
                ground (arith, contains-put topic_key t mesh e.topics)
          ]
  ]

  call-Stays : (e : Episub) (c : Call) → leaves c ≡ false → Stays t e (call h e c)
  unfolding call inject_new_listen_addr inject_expired_listen_addr inject_connection_closed
      inject_dial_failure with_addresses
  call-Stays e (Call.subscribes topic now) l = subscribe-IsSubscribed e topic now
  call-Stays e (Call.unsubscribes topic) l = unsubscribe-IsSubscribed e topic l
  call-Stays e (Call.publishes topic message now) l = publish-IsSubscribed e topic message now
  call-Stays e (Call.connected peer connection endpoint) l =
      established-Stays h t e peer connection endpoint
  call-Stays e (Call.listens addr) l = λ s. ground arith
  call-Stays e (Call.expires addr) l = λ s. ground arith
  call-Stays e (Call.fails peer DialError.dial_peer_condition_false) l = λ s. s
  call-Stays e (Call.fails none DialError.other_error) l = λ s. s
  call-Stays e (Call.fails (some peer) DialError.other_error) l =
      disconnected_all-IsSubscribed h t e peer false
  call-Stays e (Call.closed peer) l = disconnected_all-IsSubscribed h t e peer true
  call-Stays e (Call.receives peer connection event now) l =
      event-Stays h t e peer connection event now
  call-Stays e (Call.polls params now) l = elim (Option-cases (poll h e params now)) [
    | inl f ↦ rw (f, Stays) tt
    | inr (r, f) ↦ rw (f, Stays) (polled-IsSubscribed h t e params now {a = r.0} f)
  ]

  -- A topic that a node has, as a mesh or as a pending one, it has in every state of its history from
  -- there, as long as the topic is not unsubscribed.
  pub run-IsSubscribed :
      (calls : List Call) (e : Episub) {u : Episub}
      → All (λ c. leaves c ≡ false) calls
      → IsSubscribed t e
      → run h e calls ≡ some u
      → IsSubscribed t u
  unfolding run
  run-IsSubscribed [] e {u} l s r = let out : e ≡ u = ground arith in rw (sym out) s
  run-IsSubscribed (c ∷ rest) e {u} l s r = elim (Option-cases (call h e c)) [
    | inl f ↦ absurd (ground arith)
    | inr (w, f) ↦
        let first : IsSubscribed t e → IsSubscribed t w = simp f at (call-Stays e c l.0) in
        run-IsSubscribed rest w {u = u} l.1 (first s) (ground arith)
  ]
