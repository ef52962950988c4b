-- ===== src/Broker/Balance.antt =====
-- Subscriptions are declared and undeclared in balance, as long as `unSubscribe` is not called; after
-- it, `disconnect` undeclares the same handle again.
use zenoh_proxy.Prelude.{
  eq→==, ℕ, ◌+◌, ◌≤◌, ◌≡◌, ◌≢◌, inl, inr, refl, none, some, List, [], ◌∷◌, arith, ◌==◌, Bool-cases,
  if◌then◌else◌, All,
}
use zenoh_proxy.Cbor.Deserializer
use zenoh_proxy.Prelude.Dict.{find, emplace}
use zenoh_proxy.Broker.{
  issue, BrokerZenoh, Call, Sub, Pub, Op, connects, disconnects, subscribes, registers, publishes,
  unsubscribes, zn_open, zn_declare_subscriber, zn_undeclare_subscriber, zn_declare_resource,
  zn_declare_publisher, zn_undeclare_publisher, zn_write, construct, connect, disconnect,
  undeclare_subscribers, undeclare_publishers, un_subscribe, subscriber, subscriber_new, resource,
  publisher, publisher_new, publish, step, run,
}
use zenoh_proxy.Broker.Table.{undeclare_publishers-tables}

-- Is this call the undeclaration of the handle `h`?
abbrev undeclares : ℕ → Call → ℕ
undeclares h (zn_undeclare_subscriber s) = if s == h then 1 else 0
undeclares h zn_open = 0
undeclares h (zn_declare_subscriber s k) = 0
undeclares h (zn_declare_resource s k) = 0
undeclares h (zn_declare_publisher s r) = 0
undeclares h (zn_undeclare_publisher p) = 0
undeclares h (zn_write s r bs) = 0

-- How often the handle has been undeclared.
unfoldable pub undeclared : ℕ → List Call → ℕ
undeclared h [] = 0
undeclared h (c ∷ cs) = undeclares h c + undeclared h cs

-- How many entries of the table hold the handle.
unfoldable pub held : ℕ → List (ℕ × Sub) → ℕ
held h [] = 0
held h ((id, sub) ∷ m) = (if sub.zn_subscriber == h then 1 else 0) + held h m

module _ (answer : List Call → Call → ℕ) where
  abbrev declares : ℕ → List Call → Call → ℕ
  declares h before (zn_declare_subscriber s k) =
      if answer before (zn_declare_subscriber s k) == h then 1 else 0
  declares h before zn_open = 0
  declares h before (zn_undeclare_subscriber s) = 0
  declares h before (zn_declare_resource s k) = 0
  declares h before (zn_declare_publisher s r) = 0
  declares h before (zn_undeclare_publisher p) = 0
  declares h before (zn_write s r bs) = 0

  -- How often zenoh has answered a declaration by the handle.
  pub declared : ℕ → List Call → ℕ
  declared h [] = 0
  declared h (c ∷ cs) = declares h cs c + declared h cs

  -- Each declaration of the handle is undeclared once or still in the table.
  abbrev pub Balanced : ℕ → BrokerZenoh → Type 0
  Balanced h b = declared h b.calls ≡ undeclared h b.calls + held h b.subscribers

  held-emplace :
      (h id : ℕ) (sub : Sub) (m : List (ℕ × Sub))
      → find id m ≡ none
      → held h (emplace id sub m) ≡ (if sub.zn_subscriber == h then 1 else 0) + held h m
  unfolding held emplace
  held-emplace h id sub m e = rw (e, emplace)

  undeclare_subscribers-counts :
      (h : ℕ) (m : List (ℕ × Sub)) (b : BrokerZenoh)
      → (undeclared h (undeclare_subscribers m b).calls ≡ undeclared h b.calls + held h m)
        × (declared h (undeclare_subscribers m b).calls ≡ declared h b.calls)
  unfolding undeclare_subscribers undeclared declared held
  undeclare_subscribers-counts h [] b = omega arith
  undeclare_subscribers-counts h ((id, sub) ∷ m) b = ground (
    arith,
    undeclare_subscribers-counts h m
        (record b { calls = zn_undeclare_subscriber sub.zn_subscriber ∷ b.calls }),
  )

  undeclare_publishers-counts :
      (h : ℕ) (m : List (ℕ × Pub)) (b : BrokerZenoh)
      → (undeclared h (undeclare_publishers m b).calls ≡ undeclared h b.calls)
        × (declared h (undeclare_publishers m b).calls ≡ declared h b.calls)
  unfolding undeclare_publishers undeclared declared
  undeclare_publishers-counts h [] b = omega arith
  undeclare_publishers-counts h ((id, publ) ∷ m) b = ground (
    arith,
    undeclare_publishers-counts h m
        (record b { calls = zn_undeclare_publisher publ.zn_publisher ∷ b.calls }),
  )

  pub disconnect-counts :
      (h : ℕ) (b : BrokerZenoh)
      → (undeclared h (disconnect b).0.calls ≡ undeclared h b.calls + held h b.subscribers)
        × (declared h (disconnect b).0.calls ≡ declared h b.calls)
        × (held h (disconnect b).0.subscribers ≡ 0)
  unfolding disconnect held
  disconnect-counts h b =
      let b₁ : BrokerZenoh = record (undeclare_subscribers b.subscribers b) { subscribers = [] } in
      let none_left = (undeclare_publishers-tables b₁.publishers b₁).0 in
      (
        omega (
          arith,
          undeclare_subscribers-counts h b.subscribers b,
          undeclare_publishers-counts h b₁.publishers b₁,
        ),
        omega (
          arith,
          undeclare_subscribers-counts h b.subscribers b,
          undeclare_publishers-counts h b₁.publishers b₁,
        ),
        rw none_left,
      )

  -- The operations but `unSubscribe`.
  abbrev pub Keeps : Op → Type 0
  Keeps (unsubscribes id) = ⊥
  Keeps (connects c) = Unit
  Keeps disconnects = Unit
  Keeps (subscribes id t) = Unit
  Keeps (registers id k) = Unit
  Keeps (publishes id bs) = Unit

  subscriber-Balanced :
      (h id : ℕ) (topic : List ℕ) (b : BrokerZenoh)
      → h ≢ 0
      → Balanced h b
      → Balanced h (subscriber answer id topic b).0
  unfolding subscriber subscriber_new undeclared declared
  subscriber-Balanced h id topic b real v =
      let sub : Sub = record {
        id = id;
        key = topic;
        zn_subscriber =
            answer b.calls (zn_declare_subscriber b.zenoh_session (Deserializer.c_string topic));
      } in
      ground (arith, held-emplace h id sub b.subscribers)

  step-Balanced :
      (h : ℕ) (b : BrokerZenoh) (o : Op)
      → h ≢ 0
      → Keeps o
      → Balanced h b
      → Balanced h (step answer b o)
  unfolding step connect publisher publisher_new resource publish undeclared declared
  step-Balanced h b (connects client_id) real k v = ground arith
  step-Balanced h b disconnects real k v = omega (arith, disconnect-counts h b)
  step-Balanced h b (subscribes id topic) real k v = subscriber-Balanced h id topic b real v
  step-Balanced h b (registers id key) real k v = ground arith
  step-Balanced h b (publishes id bs) real k v = ground arith
  step-Balanced h b (unsubscribes id) real k v = absurd k

  run-Balanced_from :
      (h : ℕ) (b : BrokerZenoh) (os : List Op)
      → h ≢ 0
      → All Keeps os
      → Balanced h b
      → Balanced h (run answer b os)
  unfolding run
  run-Balanced_from h b [] real k v = v
  run-Balanced_from h b (o ∷ os) real k v =
      run-Balanced_from h (step answer b o) os real k.1 (step-Balanced h b o real k.0 v)

  -- After any history without `unSubscribe`, whatever zenoh answers, a final `disconnect` has
  -- undeclared every subscription handle exactly as often as zenoh has given it out.
  pub run-disconnect-balance :
      (h : ℕ) (os : List Op)
      → h ≢ 0
      → All Keeps os
      → let b = (disconnect (run answer construct os)).0 in
        undeclared h b.calls ≡ declared h b.calls
  run-disconnect-balance h os real k =
      let start : Balanced h construct = unfold construct undeclared declared held in omega arith in
      omega (
        arith,
        run-Balanced_from h construct os real k start,
        disconnect-counts h (run answer construct os),
      )

  held-positive :
      (id : ℕ) (sub : Sub) (m : List (ℕ × Sub))
      → find id m ≡ some sub
      → 1 ≤ held sub.zn_subscriber m
  unfolding held find
  held-positive id sub [] e = cc
  held-positive id sub ((j, s) ∷ m) e = elim (Bool-cases (j == id)) [
    | inl same ↦
        let value : s ≡ sub = cc (rw (same, find) at e) in
        rw (value, eq→== sub.zn_subscriber sub.zn_subscriber refl) (omega arith)
    | inr other ↦ omega (arith, held-positive id sub m (rw (other, find) at e))
  ]

  -- For a subscription that is in the table, `unSubscribe` and a `disconnect` after it undeclare its
  -- handle at least twice more, while it is declared no more often.
  pub un_subscribe-disconnect-twice :
      (id : ℕ) (sub : Sub) (b : BrokerZenoh)
      → find id b.subscribers ≡ some sub
      → let c = (disconnect (un_subscribe id b).0).0 in
        (undeclared sub.zn_subscriber b.calls + 2 ≤ undeclared sub.zn_subscriber c.calls)
        × (declared sub.zn_subscriber c.calls ≡ declared sub.zn_subscriber b.calls)
  unfolding un_subscribe undeclared declared
  un_subscribe-disconnect-twice id sub b e =
      let once : BrokerZenoh = issue (zn_undeclare_subscriber sub.zn_subscriber) b in
      let counts = disconnect-counts sub.zn_subscriber once in
      let again = eq→== sub.zn_subscriber sub.zn_subscriber refl in
      rw (e, un_subscribe) (ground (arith, counts, again, held-positive id sub b.subscribers e))
