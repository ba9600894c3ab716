-- ===== src/Pubsub/Delivery.antt =====
-- What a subscriber gets of the events of its topic.
use mermai_blockchain.Base.{
  ◌≡◌, ◌≢◌, refl, sym, ◌∙◌, true, false, some, List, [], ◌∷◌, ◌++◌, arith, append_assoc, append-nil,
  if◌then◌else◌, Bool-cases, Option-cases, inl, inr,
}
use mermai_blockchain.Base.Key.{Bytes, bytes_key, ◌==◌, ==_refl, ==_sound}
use mermai_blockchain.Base.Map.{Map, find, find-insert, find-erase}
use mermai_blockchain.Pubsub.{
  RpcSubscription, PubsubEngine, subscribe, unsubscribe, notify, notify_all, publish, poll_events,
  clear,
}

-- The calls that change the hub, from whatever threads.
pub data Call : Type 0 where
  subscribes : Bytes → Bytes → Call
  publishes : Bytes → Bytes → Call
  unsubscribes polls : Bytes → Call
  clears : Call

unfoldable pub apply : PubsubEngine → Call → PubsubEngine
unfolding subscribe publish unsubscribe poll_events clear
apply e (subscribes topic filter) = (subscribe topic filter e).0
apply e (publishes topic event) = publish topic event e
apply e (unsubscribes id) = (unsubscribe id e).0
apply e (polls id) = (poll_events id e).0
apply e clears = clear e

unfoldable pub run : PubsubEngine → List Call → PubsubEngine
unfolding apply
run e [] = e
run e (c ∷ cs) = run (apply e c) cs

-- The call is not made for this subscription: it names another, or is given the id of another. A
-- call of `clear` is made for all.
abbrev pub IsOfOthers : Bytes → PubsubEngine → Call → Type 0
IsOfOthers id e (subscribes topic filter) = id ≢ (subscribe topic filter e).1
IsOfOthers id e (publishes topic event) = Unit
IsOfOthers id e (unsubscribes other) = id ≢ other
IsOfOthers id e (polls other) = id ≢ other
IsOfOthers id e clears = ⊥

-- So for each of the calls, when it is made.
unfoldable pub AreOfOthers : Bytes → PubsubEngine → List Call → Type 0
unfolding apply
AreOfOthers id e [] = Unit
AreOfOthers id e (c ∷ cs) = IsOfOthers id e c × AreOfOthers id (apply e c) cs

-- The events of a topic, in the order in which they are published.
unfoldable pub events_of : Bytes → List Call → List Bytes
events_of topic [] = []
events_of topic (publishes other event ∷ cs) =
    let rest = events_of topic cs in if topic == other then event ∷ rest else rest
events_of topic (_ ∷ cs) = events_of topic cs

find-notify_all :
    (topic event id : Bytes) (s : RpcSubscription) (m : Map Bytes RpcSubscription)
    → find id m ≡ some s
    → find id (notify_all topic event m) ≡ some (notify topic event s)
unfolding find notify_all
find-notify_all topic event id s [] h = cc
find-notify_all topic event id s (kv ∷ m) h = elim (Bool-cases (id == kv.0)) [
  | inl same ↦ ground (arith, same, h)
  | inr other ↦ ground (arith, other, h, find-notify_all topic event id s m)
]

differs : (id other : Bytes) → id ≢ other → id == other ≡ false
differs id other n = elim (Bool-cases (id == other)) [
  | inl same ↦ absurd (n (==_sound id other same))
  | inr e ↦ e
]

-- The subscription as it stands after a call of others.
abbrev after : RpcSubscription → Call → RpcSubscription
after s (publishes topic event) = notify topic event s
after s _ = s

apply_keeps :
    (e : PubsubEngine) (c : Call) (id : Bytes) (s : RpcSubscription)
    → find id e.subscriptions ≡ some s
    → IsOfOthers id e c
    → find id (apply e c).subscriptions ≡ some (after s c)
unfolding apply subscribe
apply_keeps e (subscribes topic filter) id s h o =
    let new = (subscribe topic filter e).1 in
    let fresh : RpcSubscription = record {
      id = new;
      topic = topic;
      filter = filter;
      pending_events = [];
    } in
    find-insert id new fresh e.subscriptions ∙ rw (differs id new o) h
apply_keeps e clears id s h o = absurd o
apply_keeps e (publishes topic event) id s h o = find-notify_all topic event id s e.subscriptions h
apply_keeps e (unsubscribes other) id s h o =
    find-erase id other e.subscriptions ∙ rw (differs id other o) h
apply_keeps e (polls other) id s h o = elim (Option-cases (find other e.subscriptions)) [
  | inl missing ↦ rw (missing, apply) h
  | inr (t, found) ↦
      rw
        (
          found,
          apply,
          find-insert id other (record t { pending_events = [] }) e.subscriptions,
          differs id other o,
        )
        h
]

pending-run :
    (cs : List Call) (e : PubsubEngine) (id : Bytes) (s : RpcSubscription)
    → find id e.subscriptions ≡ some s
    → AreOfOthers id e cs
    → (last : RpcSubscription) × (find id (run e cs).subscriptions ≡ some last)
      × (last.topic ≡ s.topic)
      × (last.pending_events ≡ s.pending_events ++ events_of s.topic cs)
unfolding run events_of notify AreOfOthers
pending-run [] e id s h o = (s, h, refl, sym (append-nil s.pending_events))
pending-run (publishes topic event ∷ cs) e id s h o =
    let c = publishes topic event in
    let (last, found, same, pending) =
      pending-run cs (apply e c) id (notify topic event s) (apply_keeps e c id s h o.0) o.1 in
    elim (Bool-cases (s.topic == topic)) [
      | inl meant ↦ (
        last,
        found,
        same ∙ rw (notify, meant) refl,
        pending
            ∙ rw (notify, meant)
                (append_assoc s.pending_events (event ∷ []) (events_of s.topic cs)),
      )
      | inr other ↦ (last, found, same ∙ rw (notify, other) refl, pending ∙ rw (notify, other) refl)
    ]
pending-run (subscribes topic filter ∷ cs) e id s h o =
    pending-run cs (apply e (subscribes topic filter)) id s
      (apply_keeps e (subscribes topic filter) id s h o.0) o.1
pending-run (clears ∷ cs) e id s h o = absurd o.0
pending-run (unsubscribes other ∷ cs) e id s h o =
    pending-run cs (apply e (unsubscribes other)) id s
      (apply_keeps e (unsubscribes other) id s h o.0) o.1
pending-run (polls other ∷ cs) e id s h o =
    pending-run cs (apply e (polls other)) id s (apply_keeps e (polls other) id s h o.0) o.1

-- After any calls for other subscriptions, in any order, new subscriptions under other ids among
-- them, and as long as no one calls `clear`, a poll of a subscription returns what was pending for it
-- and then every event that was published to its topic, each once and in order; a second poll
-- returns nothing.
pub poll_events-delivers :
    (cs : List Call) (e : PubsubEngine) (id : Bytes) (s : RpcSubscription)
    → find id e.subscriptions ≡ some s
    → AreOfOthers id e cs
    → ((poll_events id (run e cs)).1 ≡ s.pending_events ++ events_of s.topic cs)
      × ((poll_events id (poll_events id (run e cs)).0).1 ≡ [])
unfolding poll_events
poll_events-delivers cs e id s h o =
    let (last, found, same, pending) = pending-run cs e id s h o in
    let emptied =
      find-insert id id (record last { pending_events = [] }) (run e cs).subscriptions in
    let self : id == id ≡ true = ==_refl id in
    (rw (found, poll_events) pending, rw (found, poll_events, emptied, self) refl)
