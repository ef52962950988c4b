-- ===== src/Sessions/Net.antt =====
-- src-pico/zenoh_session.cpp: `Session` over zenoh-pico, whose answers are the environment's: `answer`
-- gives the result of a call (a pointer as a number, 0 for NULL) from the calls before it.
use zenoh_proxy.Prelude.{
  ℕ, ◌+◌, Option, none, some, List, [], ◌∷◌, ◌++◌, ◌==◌, if◌then◌else◌, ◌≡◌, ◌≢◌, refl, arith,
  Option-cases, inl, inr,
}
use zenoh_proxy.Prelude.Prefix.{same}
use zenoh_proxy.Cbor.Deserializer
use zenoh_proxy.Hello
use zenoh_proxy.Hello.{Hello, Event}

pub data Call : Type 0 where
  zn_open : Call
  zn_declare_subscriber : ℕ → List ℕ → Call
  zn_undeclare_subscriber : ℕ → Call
  zn_write : ℕ → List ℕ → List ℕ → Call
  zn_declare_resource : ℕ → List ℕ → Call
  zn_query_collect : ℕ → List ℕ → Call

pub record Message : Type 0 where
  pub key : List ℕ
  pub value : List ℕ

-- `Session`, with the calls that it has made, the newest first, and what it emits.
pub record Session : Type 0 where
  pub zenoh_session : ℕ
  pub subscribers : List (List ℕ × ℕ)
  pub calls : List Call
  pub incoming : List Message

unfoldable pub construct : Session
construct = record { zenoh_session = 0; subscribers = []; calls = []; incoming = [] }

abbrev pub minus_one : ℕ
minus_one = 0xffff_ffff

unfoldable pub find_key : List ℕ → List (List ℕ × ℕ) → Option ℕ
find_key key [] = none
find_key key ((k, h) ∷ m) = let rest = find_key key m in if same k key then some h else rest

abbrev pub issue : Call → Session → Session
issue c s = record s { calls = c ∷ s.calls }

-- `dataHandler`
unfoldable pub data_handler : Message → Session → Session
data_handler m s = record s { incoming = s.incoming ++ m ∷ [] }

unfoldable pub undeclare_all : List (List ℕ × ℕ) → Session → Session
undeclare_all [] s = s
undeclare_all ((key, h) ∷ m) s = undeclare_all m (issue (zn_undeclare_subscriber h) s)

-- `close` keeps the session of zenoh open.
unfoldable pub close : Session → Session
close s = record (undeclare_all s.subscribers s) { subscribers = [] }

-- The loop of `query` on the replies.
unfoldable pub collect : List Message → List Message → List Message
collect result [] = result
collect result (m ∷ replies) = collect (result ++ m ∷ []) replies

-- `scout`, the code of which is that of src/BrokerZenoh.cpp; it does not use the object.
unfoldable pub scout : ℕ → ℕ → (List ℕ → List ℕ) → List Hello → List Event × ℕ
scout = Hello.scout

module _ (answer : List Call → Call → ℕ) where
  -- `open`, with its result.
  unfoldable pub open_session : Session → Session × ℕ
  open_session s =
      let opened : Session = record (issue zn_open s) { zenoh_session = answer s.calls zn_open } in
      let after : Session = if s.zenoh_session == 0 then opened else s in
      (after, if after.zenoh_session == 0 then minus_one else 0)

  -- A resource goes to zenoh up to its first zero byte; nothing is stored if zenoh refuses.
  unfoldable pub subscribe_new : List ℕ → Session → Session × ℕ
  subscribe_new resource s =
      let c : Call = zn_declare_subscriber s.zenoh_session (Deserializer.c_string resource) in
      let sub : ℕ = answer s.calls c in
      if sub == 0
      then (issue c s, minus_one)
      else (record (issue c s) { subscribers = (resource, sub) ∷ s.subscribers }, 0)

  unfoldable pub subscribe : List ℕ → Session → Session × ℕ
  subscribe resource s = elim (find_key resource s.subscribers) [
    | none ↦ subscribe_new resource s
    | some h ↦ (s, 0)
  ]

  unfoldable pub publish : List ℕ → List ℕ → Session → Session × ℕ
  publish topic bs s =
      let c : Call = zn_write s.zenoh_session (Deserializer.c_string topic) bs in
      (issue c s, answer s.calls c)

  unfoldable pub resource : List ℕ → Session → Session × ℕ
  resource topic s =
      let c : Call = zn_declare_resource s.zenoh_session (Deserializer.c_string topic) in
      (issue c s, answer s.calls c)

  -- `query`; the replies are zenoh's.
  unfoldable pub query : List Message → List ℕ → Session → Session × List Message
  query replies uri s =
      (issue (zn_query_collect s.zenoh_session (Deserializer.c_string uri)) s, collect [] replies)

pub data Op : Type 0 where
  opens : Op
  closes : Op
  subscribes : List ℕ → Op
  publishes : List ℕ → List ℕ → Op
  declares : List ℕ → Op
  queries : List ℕ → List Message → Op
  delivers : Message → Op

module _ (answer : List Call → Call → ℕ) where
  unfoldable pub step : Session → Op → Session
  step s opens = (open_session answer s).0
  step s closes = close s
  step s (subscribes key) = (subscribe answer key s).0
  step s (publishes topic bs) = (publish answer topic bs s).0
  step s (declares topic) = (resource answer topic s).0
  step s (queries uri replies) = (query answer replies uri s).0
  step s (delivers m) = data_handler m s

  unfoldable pub run : Session → List Op → Session
  run s [] = s
  run s (o ∷ os) = run (step s o) os

  -- How often zenoh has given the handle out, how often it was undeclared, and how often it is held.
  unfoldable pub declared : ℕ → List Call → ℕ
  declared h [] = 0
  declared h (zn_declare_subscriber z key ∷ cs) =
      (if answer cs (zn_declare_subscriber z key) == h then 1 else 0) + declared h cs
  declared h (c ∷ cs) = declared h cs

  unfoldable pub undeclared : ℕ → List Call → ℕ
  undeclared h [] = 0
  undeclared h (zn_undeclare_subscriber g ∷ cs) = (if g == h then 1 else 0) + undeclared h cs
  undeclared h (c ∷ cs) = undeclared h cs

  unfoldable pub held : ℕ → List (List ℕ × ℕ) → ℕ
  held h [] = 0
  held h ((key, g) ∷ m) = (if g == h then 1 else 0) + held h m

  abbrev pub Balanced : ℕ → Session → Type 0
  Balanced h s = declared h s.calls ≡ undeclared h s.calls + held h s.subscribers

  undeclare_all-counts :
      (h : ℕ) (m : List (List ℕ × ℕ)) (s : Session)
      → (declared h (undeclare_all m s).calls ≡ declared h s.calls)
        × (undeclared h (undeclare_all m s).calls ≡ undeclared h s.calls + held h m)
  unfolding undeclare_all declared undeclared held
  undeclare_all-counts h [] s = (refl, omega arith)
  undeclare_all-counts h ((key, g) ∷ m) s =
      let (d, u) = undeclare_all-counts h m (issue (zn_undeclare_subscriber g) s) in
      (d, omega (arith, u))

  close-Balanced : (h : ℕ) (s : Session) → Balanced h s → Balanced h (close s)
  unfolding close held
  close-Balanced h s b =
      let (d, u) = undeclare_all-counts h s.subscribers s in omega (arith, b, d, u)

  subscribe_new-Balanced :
      (h : ℕ) (key : List ℕ) (s : Session)
      → h ≢ 0
      → Balanced h s
      → Balanced h (subscribe_new answer key s).0
  unfolding subscribe_new declared undeclared held
  subscribe_new-Balanced h key s real b = ground (arith, real, b)

  subscribe-Balanced :
      (h : ℕ) (key : List ℕ) (s : Session)
      → h ≢ 0
      → Balanced h s
      → Balanced h (subscribe answer key s).0
  unfolding subscribe
  subscribe-Balanced h key s real b = elim (Option-cases (find_key key s.subscribers)) [
    | inl e ↦ rw (e, subscribe) (subscribe_new-Balanced h key s real b)
    | inr (g, e) ↦ rw (e, subscribe) b
  ]

  step-Balanced : (h : ℕ) (o : Op) (s : Session) → h ≢ 0 → Balanced h s → Balanced h (step s o)
  unfolding step open_session publish resource query data_handler declared undeclared
  step-Balanced h opens s real b = ground (arith, b)
  step-Balanced h closes s real b = close-Balanced h s b
  step-Balanced h (subscribes key) s real b = subscribe-Balanced h key s real b
  step-Balanced h (publishes topic bs) s real b = b
  step-Balanced h (declares topic) s real b = b
  step-Balanced h (queries uri replies) s real b = b
  step-Balanced h (delivers m) s real b = b

  run-Balanced : (h : ℕ) (os : List Op) (s : Session) → h ≢ 0 → Balanced h s → Balanced h (run s os)
  unfolding run
  run-Balanced h [] s real b = b
  run-Balanced h (o ∷ os) s real b = run-Balanced h os (step s o) real (step-Balanced h o s real b)

  -- After any history of operations from the constructor, whatever zenoh answers, a final close has
  -- undeclared every handle of a subscription as often as zenoh has given it out.
  pub run-close-balance :
      (h : ℕ) (os : List Op)
      → h ≢ 0
      → let s = close (run construct os) in declared h s.calls ≡ undeclared h s.calls
  unfolding close held construct declared undeclared
  run-close-balance h os real =
      let s : Session = run construct os in
      let b : Balanced h s = run-Balanced h os construct real refl in
      let (d, u) = undeclare_all-counts h s.subscribers s in omega (arith, b, d, u)
