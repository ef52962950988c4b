-- ===== src/Arduino/Recovery.antt =====
-- The microcontroller and the proxy together: zenoh-arduino/src/BrokerSerial.cpp and src/proxy.cpp,
-- each of whose messages reaches the other side.
use zenoh_proxy.Prelude.{
  subst, ℕ, ◌+◌, ◌-◌, ◌%◌, ◌^◌, ◌<◌, ◌≡◌, refl, ap, ◌∙◌, true, false, List, [], ◌∷◌, ◌++◌, map,
  lt→ltb, All, sym, subst,
}
use zenoh_proxy.Cbor.{TinyCbor}
use zenoh_proxy.Cbor.Laws.{Laws}
use zenoh_proxy.Cbor.Written.{Fits, connect_items, connect_to_bytes-Carries}
use zenoh_proxy.Cbor.Messages.{MsgConnect, connect_to_bytes}
use zenoh_proxy.Broker.{Call, Op, connects, run}
use zenoh_proxy.Proxy.{Proxy, capacity, connected_text, on_frames}
use zenoh_proxy.Proxy.Dispatch.{all_replies}
use zenoh_proxy.Proxy.Session.{on_frames-run}
use zenoh_proxy.Proxy.Line.{message, CanSend, messages-CarryAll}
use zenoh_proxy.Arduino.{Resource, Broker, broker_src_prefix, small}
use zenoh_proxy.Arduino.Node
use zenoh_proxy.Arduino.Node.{
  BrokerSerial, max_silence, msg_filter, announce_subscribers, announce_publishers, on_connect,
  keep_alive, connect_timer, filtered_publish, filtered_connect, on_frame,
}
use zenoh_proxy.Arduino.Handshake.{subscriptions, registrations, announcement, on_frame-connect}

-- Both ends of a line that loses nothing.
pub record System : Type 0 where
  pub node : BrokerSerial
  pub proxy : Proxy

pub data Turn : Type 0 where
  connect_tick : Turn
  keep_alive_tick : Turn
  upward : Turn
  downward : Turn

module _ (t : TinyCbor) (answer : List Call → Call → ℕ) (millis : ℕ → ℕ) (junk old : ℕ) where
  -- The ticks of the two timers, and the deliveries of all messages in one direction.
  unfoldable pub turn : Turn → System → System
  turn connect_tick s = record s { node = connect_timer t millis s.node }
  turn keep_alive_tick s = record s { node = keep_alive t millis s.node }
  turn upward s = record {
    node = record s.node { outgoing = [] };
    proxy = on_frames t answer junk s.node.outgoing s.proxy;
  }
  turn downward s = record {
    node = Node.on_frames t millis junk old s.proxy.to_serial s.node;
    proxy = record s.proxy { to_serial = [] };
  }

  unfoldable pub turns : List Turn → System → System
  turns [] s = s
  turns (u ∷ us) s = turns us (turn u s)

module _ (t : TinyCbor) (laws : Laws t) where
  module _ (answer : List Call → Call → ℕ) (millis : ℕ → ℕ) (junk old : ℕ) where
    -- Nothing is on its way.
    abbrev pub IsIdle : System → Type 0
    IsIdle s = (s.node.outgoing ≡ []) × (s.proxy.to_serial ≡ [])

    -- The messages fit into the buffers of both sides, and no string of theirs holds a zero byte.
    abbrev pub CanAnnounce : Broker → Type 0
    CanAnnounce b =
        All (CanSend t laws small) (connects broker_src_prefix ∷ announcement b)
        × Fits t laws capacity capacity (connect_items (record { client_id = connected_text }))

    -- The microcontroller is connected, and its broker's resources are known to the proxy's.
    abbrev pub Knows : System → System → Type 0
    Knows s s' =
        (s'.node.connected ≡ true)
        × (s'.proxy.broker
            ≡ run answer s.proxy.broker (connects broker_src_prefix ∷ announcement s.node.broker))
        × IsIdle s'

    announcement-silent : (b : Broker) → all_replies t laws (announcement b) ≡ []
    announcement-silent b = subscribing b.subscribers
      where
        registering : (rs : List Resource) → all_replies t laws (registrations rs) ≡ []
        registering [] = refl
        registering (r ∷ rs) = registering rs

        subscribing :
            (rs : List Resource)
            → all_replies t laws (subscriptions rs ++ registrations b.publishers) ≡ []
        subscribing [] = registering b.publishers
        subscribing (r ∷ rs) = subscribing rs

    -- The messages of some operations, on their way up.
    pub upward_lem :
        (os : List Op) (s : System)
        → s.node.outgoing ≡ map (message t small) os
        → s.proxy.to_serial ≡ []
        → All (CanSend t laws small) os
        → let s' = turn t answer millis junk old upward s in
          (s'.proxy.broker ≡ run answer s.proxy.broker os)
          × (s'.proxy.to_serial ≡ all_replies t laws os)
          × (s'.node ≡ record s.node { outgoing = [] })
    unfolding turn
    upward_lem os s e clear can =
        let (b, sent) =
          on_frames-run t laws answer junk os (map (message t small) os) s.proxy
            (messages-CarryAll t laws small os can) in
        (rw (e, b), rw (e, sent) (ap (λ out. out ++ all_replies t laws os) clear), refl)

    -- The proxy's confirmation, on its way down.
    downward_lem :
        (s : System)
        → s.node.outgoing ≡ []
        → s.proxy.to_serial ≡ all_replies t laws (connects broker_src_prefix ∷ [])
        → CanAnnounce s.node.broker
        → let s' = turn t answer millis junk old downward s in
          (s'.node.connected ≡ true)
          × (s'.node.broker ≡ s.node.broker)
          × (s'.node.outgoing ≡ map (message t small) (announcement s.node.broker))
          × (s'.proxy ≡ record s.proxy { to_serial = [] })
    unfolding turn Node.on_frames
    downward_lem s clear e can =
        let reply : MsgConnect = record { client_id = connected_text } in
        let frame : List ℕ = connect_to_bytes t capacity reply in
        let h = connect_to_bytes-Carries t laws capacity capacity reply can.1 in
        rw (e, on_frame-connect t laws millis junk old frame connected_text s.node h)
          (
            refl,
            refl,
            ap (λ out. out ++ map (message t small) (announcement s.node.broker)) clear,
            refl,
          )

    keep_alive_lem :
        (s : System)
        → s.node.connected ≡ false
        → s.node.outgoing ≡ []
        → turn t answer millis junk old keep_alive_tick s ≡ record s {
          node = record s.node {
            outgoing = map (message t small) (connects broker_src_prefix ∷ []);
          };
        }
    unfolding turn keep_alive
    keep_alive_lem s off clear = rw (off, clear)

    handshake :
        (s : System)
        → IsIdle s
        → CanAnnounce s.node.broker
        → s.node.connected ≡ false
        → Knows s
            (turns t answer millis junk old (keep_alive_tick ∷ upward ∷ downward ∷ upward ∷ []) s)
    unfolding turns run
    handshake s idle can off =
        let s₁ = turn t answer millis junk old keep_alive_tick s in
        let e₁ = keep_alive_lem s off idle.0 in
        let s₂ = turn t answer millis junk old upward s₁ in
        let s₃ = turn t answer millis junk old downward s₂ in
        let s₄ = turn t answer millis junk old upward s₃ in
        let (b₂, sent₂, n₂) =
          upward_lem (connects broker_src_prefix ∷ []) s₁ (ap (λ x. x.node.outgoing) e₁)
            (ap (λ x. x.proxy.to_serial) e₁ ∙ idle.1) (can.0.0, tt) in
        let br₂ : s₂.node.broker ≡ s.node.broker =
          ap (λ n. n.broker) n₂ ∙ ap (λ x. x.node.broker) e₁ in
        let (on, br₃, out₃, p₃) =
          downward_lem s₂ (ap (λ n. n.outgoing) n₂) sent₂ (subst CanAnnounce (sym br₂) can) in
        let (b₄, sent₄, n₄) =
          upward_lem (announcement s.node.broker) s₃
            (out₃ ∙ ap (λ b. map (message t small) (announcement b)) br₂) (ap (λ p. p.to_serial) p₃)
            can.0.1 in
        (
          ap (λ n. n.connected) n₄ ∙ on,
          b₄
              ∙ ap (λ p. run answer p.broker (announcement s.node.broker)) p₃
              ∙ ap (λ b. run answer b (announcement s.node.broker)) b₂
              ∙ ap
                  (λ p.
                    run answer (run answer p (connects broker_src_prefix ∷ []))
                      (announcement s.node.broker))
                  (ap (λ x. x.proxy.broker) e₁),
          (ap (λ n. n.outgoing) n₄, sent₄ ∙ announcement-silent s.node.broker),
        )

    connect_tick_lem :
        (s : System)
        → max_silence < (millis s.node.clock_reads + 2 ^ 64 - s.node.loopback_received) % 2 ^ 64
        → turn t answer millis junk old connect_tick s ≡ record s {
          node = record s.node { connected = false; clock_reads = s.node.clock_reads + 1 };
        }
    unfolding turn connect_timer
    connect_tick_lem s stale = rw (lt→ltb _ _ stale)

    -- With the laws of TinyCBOR, if the messages fit into the buffers: let more than 5 seconds have
    -- passed since the last loopback and nothing be on its way. Then, whether the microcontroller
    -- believes that it is connected or not, a tick of the connect timer, a tick of the keep-alive
    -- timer and three deliveries connect it; the proxy's broker has connected, declared all its
    -- subscribers and then all its publishers, and nothing is on its way.
    pub turns-recover :
        (s : System)
        → IsIdle s
        → CanAnnounce s.node.broker
        → max_silence < (millis s.node.clock_reads + 2 ^ 64 - s.node.loopback_received) % 2 ^ 64
        → Knows s (
            turns t answer millis junk old
              (connect_tick ∷ keep_alive_tick ∷ upward ∷ downward ∷ upward ∷ [])
              s)
    unfolding turns
    turns-recover s idle can stale =
        let off : System = record s {
          node = record s.node { connected = false; clock_reads = s.node.clock_reads + 1 };
        } in
        rw (connect_tick_lem s stale) (handshake off idle can refl)
