-- ===== src/Broker/Handles.antt =====
-- Publishers are declared and undeclared in balance, as subscriptions are: `disconnect` gives back
-- every handle that zenoh has given out.
use zenoh_proxy.Prelude.{
  ap, ℕ, ◌+◌, ◌≡◌, ◌≢◌, inl, inr, refl, none, List, [], ◌∷◌, arith, ◌==◌, Option-cases,
  if◌then◌else◌, All,
}
use zenoh_proxy.Prelude.Dict.{find, emplace}
use zenoh_proxy.Broker.{
  BrokerZenoh, Call, Sub, Pub, Op, connects, disconnects, subscribes, registers, publishes,
  unsubscribes, zn_undeclare_subscriber, zn_declare_publisher, zn_undeclare_publisher, construct,
  connect, disconnect, undeclare_subscribers, undeclare_publishers, un_subscribe, subscriber,
  subscriber_new, resource, publisher, publisher_new, publish, step, run,
}
use zenoh_proxy.Broker.Balance.{declared, undeclared, Keeps, run-disconnect-balance}

-- How often the handle of a publisher has been undeclared.
unfoldable pub undeclared_publ : ℕ → List Call → ℕ
undeclared_publ h [] = 0
undeclared_publ h (zn_undeclare_publisher p ∷ cs) = (if p == h then 1 else 0) + undeclared_publ h cs
undeclared_publ h (c ∷ cs) = undeclared_publ h cs

-- How many entries of the table hold the handle.
unfoldable pub held_publ : ℕ → List (ℕ × Pub) → ℕ
held_publ h [] = 0
held_publ h ((id, publ) ∷ m) = (if publ.zn_publisher == h then 1 else 0) + held_publ h m

module _ (answer : List Call → Call → ℕ) where
  -- How often zenoh has answered the declaration of a publisher by the handle.
  unfoldable pub declared_publ : ℕ → List Call → ℕ
  declared_publ h [] = 0
  declared_publ h (zn_declare_publisher s r ∷ cs) =
      (if answer cs (zn_declare_publisher s r) == h then 1 else 0) + declared_publ h cs
  declared_publ h (c ∷ cs) = declared_publ h cs

  abbrev BalancedPubl : ℕ → BrokerZenoh → Type 0
  BalancedPubl h b = declared_publ h b.calls ≡ undeclared_publ h b.calls + held_publ h b.publishers

  -- The calls that undeclare subscriptions do not count.
  undeclare_subscribers-publ :
      (h : ℕ) (m : List (ℕ × Sub)) (b : BrokerZenoh)
      → let c = undeclare_subscribers m b in
        (undeclared_publ h c.calls ≡ undeclared_publ h b.calls)
        × (declared_publ h c.calls ≡ declared_publ h b.calls)
        × (c.publishers ≡ b.publishers)
  unfolding undeclare_subscribers undeclared_publ declared_publ
  undeclare_subscribers-publ h [] b = (refl, refl, refl)
  undeclare_subscribers-publ h ((id, sub) ∷ m) b =
      undeclare_subscribers-publ h m
        (record b { calls = zn_undeclare_subscriber sub.zn_subscriber ∷ b.calls })

  undeclare_publishers-publ :
      (h : ℕ) (m : List (ℕ × Pub)) (b : BrokerZenoh)
      → let c = undeclare_publishers m b in
        (undeclared_publ h c.calls ≡ undeclared_publ h b.calls + held_publ h m)
        × (declared_publ h c.calls ≡ declared_publ h b.calls)
  unfolding undeclare_publishers undeclared_publ declared_publ held_publ
  undeclare_publishers-publ h [] b = omega arith
  undeclare_publishers-publ h ((id, publ) ∷ m) b = ground (
    arith,
    undeclare_publishers-publ h m
        (record b { calls = zn_undeclare_publisher publ.zn_publisher ∷ b.calls }),
  )

  disconnect-publ :
      (h : ℕ) (b : BrokerZenoh)
      → let c = (disconnect b).0 in
        (undeclared_publ h c.calls ≡ undeclared_publ h b.calls + held_publ h b.publishers)
        × (declared_publ h c.calls ≡ declared_publ h b.calls)
        × (held_publ h c.publishers ≡ 0)
  unfolding disconnect held_publ
  disconnect-publ h b =
      let b₁ : BrokerZenoh = record (undeclare_subscribers b.subscribers b) { subscribers = [] } in
      let subs = undeclare_subscribers-publ h b.subscribers b in
      let pubs = undeclare_publishers-publ h b₁.publishers b₁ in
      let same = ap (held_publ h) subs.2 in
      (omega (arith, subs, pubs, same), omega (arith, subs, pubs), refl)

  held_publ-emplace :
      (h id : ℕ) (publ : Pub) (m : List (ℕ × Pub))
      → find id m ≡ none
      → held_publ h (emplace id publ m) ≡ (if publ.zn_publisher == h then 1 else 0) + held_publ h m
  unfolding held_publ emplace
  held_publ-emplace h id publ m e = rw (e, emplace)

  publisher_new-BalancedPubl :
      (h id : ℕ) (key : List ℕ) (b : BrokerZenoh)
      → find id b.publishers ≡ none
      → BalancedPubl h b
      → BalancedPubl h (publisher_new answer id key b).0
  unfolding publisher_new resource undeclared_publ declared_publ
  publisher_new-BalancedPubl h id key b e v =
      omega (arith, v, held_publ-emplace h id _ b.publishers e)

  publisher-BalancedPubl :
      (h id : ℕ) (key : List ℕ) (b : BrokerZenoh)
      → BalancedPubl h b
      → BalancedPubl h (publisher answer id key b).0
  unfolding publisher
  publisher-BalancedPubl h id key b v = elim (Option-cases (find id b.publishers)) [
    | inl e ↦ rw (e, publisher) (publisher_new-BalancedPubl h id key b e v)
    | inr (old, e) ↦ rw (e, publisher) v
  ]

  step-BalancedPubl :
      (h : ℕ) (b : BrokerZenoh) (o : Op) → BalancedPubl h b → BalancedPubl h (step answer b o)
  unfolding step connect subscriber subscriber_new un_subscribe publish undeclared_publ
      declared_publ
  step-BalancedPubl h b (connects client_id) v = ground arith
  step-BalancedPubl h b disconnects v = omega (arith, v, disconnect-publ h b)
  step-BalancedPubl h b (subscribes id topic) v = ground arith
  step-BalancedPubl h b (registers id key) v = publisher-BalancedPubl h id key b v
  step-BalancedPubl h b (publishes id bs) v = ground arith
  step-BalancedPubl h b (unsubscribes id) v = ground arith

  run-BalancedPubl :
      (h : ℕ) (b : BrokerZenoh) (os : List Op) → BalancedPubl h b → BalancedPubl h (run answer b os)
  unfolding run
  run-BalancedPubl h b [] v = v
  run-BalancedPubl h b (o ∷ os) v =
      run-BalancedPubl h (step answer b o) os (step-BalancedPubl h b o v)

  -- After any history from the constructor without `unSubscribe`, whatever zenoh answers, a final
  -- `disconnect` has undeclared every handle but NULL, of a subscription and of a publisher, exactly as
  -- often as zenoh has given it out.
  pub run-disconnect-handles :
      (h : ℕ) (os : List Op)
      → h ≢ 0
      → All (Keeps answer) os
      → let b = (disconnect (run answer construct os)).0 in
        (undeclared h b.calls ≡ declared answer h b.calls)
        × (undeclared_publ h b.calls ≡ declared_publ h b.calls)
  run-disconnect-handles h os real k =
      let start : BalancedPubl h construct =
        unfold construct undeclared_publ declared_publ held_publ in omega arith in
      (
        run-disconnect-balance answer h os real k,
        omega (
          arith,
          run-BalancedPubl h construct os start,
          disconnect-publ h (run answer construct os),
        ),
      )
