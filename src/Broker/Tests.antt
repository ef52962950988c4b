-- ===== src/Broker/Tests.antt =====
-- Runs of the broker against a zenoh that answers every call by the number of calls so far.
use zenoh_proxy.Prelude.{
  ◌&&◌, not, ◌==◌, if◌then◌else◌, ◌+◌, ℕ, ◌≡◌, ◌≢◌, ◌≤◌, refl, some, List, [], ◌∷◌, suc, length,
  arith,
}
use zenoh_proxy.Cbor.Deserializer
use zenoh_proxy.Prelude.Dict.{find, emplace}
use zenoh_proxy.Broker.{
  undeclare_publishers, undeclare_subscribers, minus_one, connect, step, disconnects, BrokerZenoh,
  Call, Sub, Op, connects, subscribes, registers, publishes, zn_open, zn_declare_subscriber,
  zn_declare_resource, zn_declare_publisher, zn_write, construct, run, un_subscribe, subscriber,
  publish, publisher, disconnect,
}
use zenoh_proxy.Broker.Table.{
  topic_of, handle_of, is_none, subscriber-topic_of, first_of_two, IsValid, run-IsValid,
}
use zenoh_proxy.Broker.Balance.{declared, undeclared, un_subscribe-disconnect-twice}
use zenoh_proxy.Broker.Session.{Connected, Continues, run-connect-Continues}
use zenoh_proxy.Broker.Handles.{declared_publ, undeclared_publ, run-disconnect-handles}
use zenoh_proxy.Broker.Routing.{publish-publisher}

abbrev counting : List Call → Call → ℕ
counting cs c = suc (length cs)

abbrev history : List Op
history = connects [] ∷ subscribes 3 (7 ∷ []) ∷ registers 4 (8 ∷ []) ∷ publishes 4 (1 ∷ 2 ∷ []) ∷ []

abbrev ready : BrokerZenoh
ready = run counting construct history

abbrev sub_three : Sub
sub_three = record { id = 3; key = 7 ∷ []; zn_subscriber = 2 }

ready_calls :
    ready.calls
    ≡ zn_write 1 3 (1 ∷ 2 ∷ [])
      ∷ zn_declare_publisher 1 3
      ∷ zn_declare_resource 1 (8 ∷ [])
      ∷ zn_declare_subscriber 1 (7 ∷ [])
      ∷ zn_open
      ∷ []
unfolding run step publish find publisher subscriber connect construct emplace Deserializer.c_string
ready_calls = refl

has_three : find 3 ready.subscribers ≡ some sub_three
unfolding run step publish find publisher subscriber connect construct emplace Deserializer.c_string
has_three = refl

run-IsValid_example : IsValid ready
run-IsValid_example = run-IsValid counting history

run-disconnect-handles_example :
    let b = (disconnect ready).0 in
    (undeclared 4 b.calls ≡ declared counting 4 b.calls)
    × (undeclared_publ 4 b.calls ≡ declared_publ counting 4 b.calls)
run-disconnect-handles_example =
    run-disconnect-handles counting 4 history (omega arith) (tt, (tt, (tt, (tt, tt))))

-- The publisher of the history is one of those.
publisher_counted : declared_publ counting 4 (disconnect ready).0.calls ≡ 1
unfolding disconnect undeclare_subscribers undeclare_publishers run step publish find publisher
    subscriber connect construct emplace Deserializer.c_string declared_publ
publisher_counted = refl

un_subscribe-disconnect-twice_example :
    let c = (disconnect (un_subscribe 3 ready).0).0 in
    (undeclared 2 ready.calls + 2 ≤ undeclared 2 c.calls)
    × (declared counting 2 c.calls ≡ declared counting 2 ready.calls)
unfolding run step publish find publisher subscriber connect construct emplace Deserializer.c_string
un_subscribe-disconnect-twice_example =
    un_subscribe-disconnect-twice counting 3 sub_three ready has_three

publish-publisher_example :
    let r = publish counting 5 (9 ∷ []) (publisher counting 5 (6 ∷ []) ready).0 in
    (r.0.calls
      ≡ zn_write 1 6 (9 ∷ [])
        ∷ zn_declare_publisher 1 6
        ∷ zn_declare_resource 1 (6 ∷ [])
        ∷ ready.calls)
    × (r.1 ≡ 8)
unfolding run step publish find publisher subscriber connect construct emplace Deserializer.c_string
publish-publisher_example = publish-publisher counting 5 (6 ∷ []) (9 ∷ []) ready refl

subscriber-topic_of_example :
    let r = subscriber counting 5 (9 ∷ []) ready in
    let c = zn_declare_subscriber ready.zenoh_session (Deserializer.c_string (9 ∷ [])) in
    let new = is_none (find 5 ready.subscribers) in
    let refused = new && (counting ready.calls c == 0) in
    (r.1 ≡ (if refused then minus_one else 0))
    × (r.0.calls ≡ (if new then c ∷ ready.calls else ready.calls))
    × ((j : ℕ)
        → topic_of r.0 j ≡ (
            if refused
            then topic_of ready j
            else (if 5 == j then first_of_two (topic_of ready 5) (9 ∷ []) else topic_of ready j)))
    × (handle_of r.0 5 ≡ (
        if new && not (counting ready.calls c == 0)
        then some (counting ready.calls c)
        else handle_of ready 5))
subscriber-topic_of_example = subscriber-topic_of counting 5 (9 ∷ []) ready

-- A connection, and what a client does with it, a disconnect and a second connection included.
run-connect-Continues_example :
    let c = (connect counting [] construct).0 in
    (c.zenoh_session ≢ 0)
    × Connected counting construct c
    × Continues c (
        run counting c
          (subscribes 3 (7 ∷ []) ∷ disconnects ∷ connects [] ∷ registers 4 (8 ∷ []) ∷ []))
unfolding connect construct
run-connect-Continues_example =
    run-connect-Continues counting []
      (subscribes 3 (7 ∷ []) ∷ disconnects ∷ connects [] ∷ registers 4 (8 ∷ []) ∷ []) construct refl

-- Without a connection the other operations reach zenoh with a session that is NULL.
unconnected_calls :
    (run counting construct
      (subscribes 3 (7 ∷ []) ∷ registers 4 (8 ∷ []) ∷ publishes 4 [] ∷ [])).calls
    ≡ zn_write 0 2 []
      ∷ zn_declare_publisher 0 2
      ∷ zn_declare_resource 0 (8 ∷ [])
      ∷ zn_declare_subscriber 0 (7 ∷ [])
      ∷ []
unfolding run step publish find publisher subscriber construct emplace Deserializer.c_string
unconnected_calls = refl
