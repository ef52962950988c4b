-- ===== src/Broker/Routing.antt =====
-- What `publisher` sets up for `publish`, and what the calls do for an id that is known already.
use zenoh_proxy.Prelude.{eq→==, ℕ, ◌≡◌, refl, none, some, List, ◌∷◌}
use zenoh_proxy.Cbor.Deserializer
use zenoh_proxy.Prelude.Dict.{find, emplace, find-emplace}
use zenoh_proxy.Broker.{
  issue, BrokerZenoh, Call, Sub, Pub, zn_undeclare_subscriber, zn_declare_resource,
  zn_declare_publisher, zn_write, enoent, un_subscribe, subscriber, resource, publisher,
  publisher_new, publish,
}

module _ (answer : List Call → Call → ℕ) where
  publisher-fresh :
      (id : ℕ) (key : List ℕ) (b : BrokerZenoh)
      → find id b.publishers ≡ none
      → publisher answer id key b ≡ publisher_new answer id key b
  unfolding publisher
  publisher-fresh id key b e = rw (e, publisher)

  pub publish-known :
      (id : ℕ) (bs : List ℕ) (b : BrokerZenoh) (publ : Pub)
      → find id b.publishers ≡ some publ
      → let c : Call = zn_write b.zenoh_session publ.zn_reskey bs in
        publish answer id bs b ≡ (issue c b, answer b.calls c)
  unfolding publish
  publish-known id bs b publ e = rw (e, publish)

  -- After `publisher` for an id that is not in the table, `publish` for it writes, in the broker's
  -- session, to the resource that zenoh has answered for the declaration of the key, and returns what
  -- `zn_write` returns. The calls are the two declarations and the write, behind the earlier ones.
  pub publish-publisher :
      (id : ℕ) (key bs : List ℕ) (b : BrokerZenoh)
      → find id b.publishers ≡ none
      → let session = b.zenoh_session in
        let declares = zn_declare_resource session (Deserializer.c_string key) ∷ b.calls in
        let reskey = answer b.calls (zn_declare_resource session (Deserializer.c_string key)) in
        let ready = zn_declare_publisher session reskey ∷ declares in
        let r = publish answer id bs (publisher answer id key b).0 in
        (r.0.calls ≡ zn_write session reskey bs ∷ ready)
        × (r.1 ≡ answer ready (zn_write session reskey bs))
  unfolding publisher_new resource
  publish-publisher id key bs b e =
      let publ : Pub = record {
        id = id;
        key = key;
        zn_reskey = (resource answer key b).1;
        zn_publisher =
            answer (resource answer key b).0.calls
              (zn_declare_publisher b.zenoh_session (resource answer key b).1);
      } in
      let found : find id (emplace id publ b.publishers) ≡ some publ =
        rw (find-emplace id id _ b.publishers e, eq→== id id refl) in
      rw (publisher-fresh id key b e)
        (rw (publish-known id bs (publisher_new answer id key b).0 publ found) (refl, refl))

  -- An id that has no publisher: `publish` returns ENOENT, and there is no call to zenoh.
  publish-unknown :
      (id : ℕ) (bs : List ℕ) (b : BrokerZenoh)
      → find id b.publishers ≡ none
      → publish answer id bs b ≡ (b, enoent)
  unfolding publish
  publish-unknown id bs b e = rw (e, publish)

  -- A second `publisher` with the id changes nothing: the first key stays.
  publisher-again :
      (id : ℕ) (key : List ℕ) (b : BrokerZenoh) (old : Pub)
      → find id b.publishers ≡ some old
      → publisher answer id key b ≡ (b, 0)
  unfolding publisher
  publisher-again id key b old e = rw (e, publisher)

  -- A subscription that `unSubscribe` has undeclared: subscribing to the id again returns 0 and makes
  -- no call, so the id stays without a subscription at zenoh.
  pub subscriber-un_subscribe :
      (id : ℕ) (topic : List ℕ) (b : BrokerZenoh) (sub : Sub)
      → find id b.subscribers ≡ some sub
      → let c = (un_subscribe id b).0 in
        (c.calls ≡ zn_undeclare_subscriber sub.zn_subscriber ∷ b.calls)
        × (subscriber answer id topic c ≡ (c, 0))
  unfolding un_subscribe subscriber
  subscriber-un_subscribe id topic b sub e = rw (e, un_subscribe) (refl, rw (e, subscriber))
