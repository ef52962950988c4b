-- ===== src/Broker/Session.antt =====
-- The session of the broker: who has been connected is connected for good, and every later call of
-- zenoh is made on that session.
use zenoh_proxy.Prelude.{
  sym, arith, ◌⊎◌, ℕ, List, [], ◌∷◌, ◌≡◌, ◌≢◌, ne→==, refl, ◌∙◌, sym, inl, inr, Option-cases,
  Bool-cases, ◌==◌, ◌⊎◌,
}
use zenoh_proxy.Cbor.Deserializer
use zenoh_proxy.Prelude.Dict.{find}
use zenoh_proxy.Broker.{
  BrokerZenoh, Call, Sub, Pub, Op, connects, disconnects, subscribes, registers, publishes,
  unsubscribes, zn_open, zn_declare_subscriber, zn_undeclare_subscriber, zn_declare_resource,
  zn_declare_publisher, zn_undeclare_publisher, zn_write, issue, connect, disconnect,
  undeclare_subscribers, undeclare_publishers, un_subscribe, subscriber, subscriber_new, resource,
  publisher, publisher_new, publish, step, run,
}

-- The call is made on the session `s`; the calls that undeclare take a handle and no session. A
-- session is not opened again.
abbrev pub On : ℕ → Call → Type 0
On s zn_open = ⊥
On s (zn_declare_subscriber session key) = session ≡ s
On s (zn_undeclare_subscriber handle) = Unit
On s (zn_declare_resource session key) = session ≡ s
On s (zn_declare_publisher session reskey) = session ≡ s
On s (zn_undeclare_publisher handle) = Unit
On s (zn_write session reskey bs) = session ≡ s

-- The calls, from the earlier list on, are all made on the session.
pub data Since (s : ℕ) (before : List Call) : List Call → Type 0 where
  nothing_since : Since s before before
  one_more : (c : Call) (cs : List Call) → On s c → Since s before cs → Since s before (c ∷ cs)

-- From `b` to `q`: the session stays, and all calls are made on it.
abbrev pub Continues : BrokerZenoh → BrokerZenoh → Type 0
Continues b q = (q.zenoh_session ≡ b.zenoh_session) × Since b.zenoh_session b.calls q.calls

Since-trans :
    (s : ℕ) (before between after : List Call)
    → Since s before between
    → Since s between after
    → Since s before after
Since-trans s before between after h nothing_since = h
Since-trans s before between after h (one_more c cs on rest) =
    one_more c cs on (Since-trans s before between cs h rest)

Continues-trans : (b p q : BrokerZenoh) → Continues b p → Continues p q → Continues b q
Continues-trans b p q h k =
    (k.0 ∙ h.0, Since-trans b.zenoh_session b.calls p.calls q.calls h.1 (rw (sym h.0) k.1))

issue-Continues : (c : Call) (b : BrokerZenoh) → On b.zenoh_session c → Continues b (issue c b)
issue-Continues c b on = (refl, one_more c b.calls on nothing_since)

undeclare_subscribers-Continues :
    (m : List (ℕ × Sub)) (b : BrokerZenoh) → Continues b (undeclare_subscribers m b)
unfolding undeclare_subscribers
undeclare_subscribers-Continues [] b = (refl, nothing_since)
undeclare_subscribers-Continues ((id, sub) ∷ m) b =
    let c : Call = zn_undeclare_subscriber sub.zn_subscriber in
    Continues-trans b (issue c b) (undeclare_subscribers m (issue c b)) (issue-Continues c b tt)
      (undeclare_subscribers-Continues m (issue c b))

undeclare_publishers-Continues :
    (m : List (ℕ × Pub)) (b : BrokerZenoh) → Continues b (undeclare_publishers m b)
unfolding undeclare_publishers
undeclare_publishers-Continues [] b = (refl, nothing_since)
undeclare_publishers-Continues ((id, publ) ∷ m) b =
    let c : Call = zn_undeclare_publisher publ.zn_publisher in
    Continues-trans b (issue c b) (undeclare_publishers m (issue c b)) (issue-Continues c b tt)
      (undeclare_publishers-Continues m (issue c b))

disconnect-Continues : (b : BrokerZenoh) → Continues b (disconnect b).0
unfolding disconnect
disconnect-Continues b =
    let b₁ : BrokerZenoh = record (undeclare_subscribers b.subscribers b) { subscribers = [] } in
    Continues-trans b b₁ (undeclare_publishers b₁.publishers b₁)
      (undeclare_subscribers-Continues b.subscribers b)
      (undeclare_publishers-Continues b₁.publishers b₁)

un_subscribe-Continues : (id : ℕ) (b : BrokerZenoh) → Continues b (un_subscribe id b).0
unfolding un_subscribe
un_subscribe-Continues id b = elim (Option-cases (find id b.subscribers)) [
  | inl e ↦ rw (e, un_subscribe) (refl, nothing_since)
  | inr (old, e) ↦
      rw (e, un_subscribe) (issue-Continues (zn_undeclare_subscriber old.zn_subscriber) b tt)
]

module _ (answer : List Call → Call → ℕ) where
  connect-Continues :
      (client_id : List ℕ) (b : BrokerZenoh)
      → b.zenoh_session ≢ 0
      → Continues b (connect answer client_id b).0
  unfolding connect
  connect-Continues client_id b alive = rw (ne→== b.zenoh_session 0 alive) (refl, nothing_since)

  subscriber_new-Continues :
      (id : ℕ) (topic : List ℕ) (b : BrokerZenoh) → Continues b (subscriber_new answer id topic b).0
  unfolding subscriber_new
  subscriber_new-Continues id topic b =
      let c : Call = zn_declare_subscriber b.zenoh_session (Deserializer.c_string topic) in
      let made : Since b.zenoh_session b.calls (c ∷ b.calls) =
        one_more c b.calls refl nothing_since in
      elim (Bool-cases (answer b.calls c == 0)) [
        | inl refused ↦ rw refused (refl, made)
        | inr given ↦ rw given (refl, made)
      ]

  subscriber-Continues :
      (id : ℕ) (topic : List ℕ) (b : BrokerZenoh) → Continues b (subscriber answer id topic b).0
  unfolding subscriber
  subscriber-Continues id topic b = elim (Option-cases (find id b.subscribers)) [
    | inl e ↦ rw (e, subscriber) (subscriber_new-Continues id topic b)
    | inr (old, e) ↦ rw (e, subscriber) (refl, nothing_since)
  ]

  publisher-Continues :
      (id : ℕ) (key : List ℕ) (b : BrokerZenoh) → Continues b (publisher answer id key b).0
  unfolding publisher publisher_new resource
  publisher-Continues id key b = elim (Option-cases (find id b.publishers)) [
    | inl e ↦ rw (e, publisher) (refl, one_more _ _ refl (one_more _ _ refl nothing_since))
    | inr (old, e) ↦ rw (e, publisher) (refl, nothing_since)
  ]

  publish-Continues :
      (id : ℕ) (bs : List ℕ) (b : BrokerZenoh) → Continues b (publish answer id bs b).0
  unfolding publish
  publish-Continues id bs b = elim (Option-cases (find id b.publishers)) [
    | inl e ↦ rw (e, publish) (refl, nothing_since)
    | inr (old, e) ↦
        rw (e, publish) (issue-Continues (zn_write b.zenoh_session old.zn_reskey bs) b refl)
  ]

  step-Continues : (b : BrokerZenoh) (o : Op) → b.zenoh_session ≢ 0 → Continues b (step answer b o)
  unfolding step
  step-Continues b (connects client_id) alive = connect-Continues client_id b alive
  step-Continues b disconnects alive = disconnect-Continues b
  step-Continues b (subscribes id topic) alive = subscriber-Continues id topic b
  step-Continues b (registers id key) alive = publisher-Continues id key b
  step-Continues b (publishes id bs) alive = publish-Continues id bs b
  step-Continues b (unsubscribes id) alive = un_subscribe-Continues id b

  run-Continues :
      (b : BrokerZenoh) (os : List Op) → b.zenoh_session ≢ 0 → Continues b (run answer b os)
  unfolding run
  run-Continues b [] alive = (refl, nothing_since)
  run-Continues b (o ∷ os) alive =
      let next : BrokerZenoh = step answer b o in
      let one = step-Continues b o alive in
      Continues-trans b next (run answer next os) one
        (run-Continues next os (λ e. alive (sym one.0 ∙ e)))

  -- The two ways in which connect succeeds.
  abbrev pub Connected : BrokerZenoh → BrokerZenoh → Type 0
  Connected b c =
      (c ≡ b)
      ⊎ ((b.zenoh_session ≡ 0)
          × (c.zenoh_session ≡ answer b.calls zn_open)
          × (c.calls ≡ zn_open ∷ b.calls))

  connect-Connected :
      (client_id : List ℕ) (b : BrokerZenoh)
      → (connect answer client_id b).1 ≡ 0
      → ((connect answer client_id b).0.zenoh_session ≢ 0)
        × Connected b (connect answer client_id b).0
  unfolding connect
  connect-Connected client_id b ok = ground arith

  -- A connect that answers 0 leaves a session, the one before it or what zenoh has answered to the
  -- one call that opens it, and whatever is called afterwards, disconnect and connect included, the
  -- session stays and every call of zenoh that takes a session takes this one; none is opened again.
  pub run-connect-Continues :
      (client_id : List ℕ) (os : List Op) (b : BrokerZenoh)
      → (connect answer client_id b).1 ≡ 0
      → let c = (connect answer client_id b).0 in
        (c.zenoh_session ≢ 0) × Connected b c × Continues c (run answer c os)
  run-connect-Continues client_id os b ok =
      let (alive, way) = connect-Connected client_id b ok in (alive, way, run-Continues _ os alive)
