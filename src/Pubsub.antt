-- ===== src/Pubsub.antt =====
-- The event hub: include/mermai/mermai_pubsub.hpp and src/rpc/mermai_pubsub.cpp. A method holds the
-- mutex from its first line to its last, so calls from several threads are a sequence of steps.
pub mod Delivery
mod Tests
use mermai_blockchain.Base.{
  ℕ, zero, suc, ◌+◌, ◌-◌, ◌/◌, ◌%◌, Bool, true, false, Option, none, some, List, [], ◌∷◌, ◌++◌, ltb,
  length, is_empty, if◌then◌else◌,
}
use mermai_blockchain.Base.Words.{add64}
use mermai_blockchain.Base.Key.{Bytes, bytes_key, nat_key, ◌==◌}
use mermai_blockchain.Base.Map.{Map, find, contains, insert, erase}

pub record RpcSubscription : Type 0 where
  pub id : Bytes
  pub topic : Bytes
  pub filter : Bytes
  pub pending_events : List Bytes

pub record PubsubEngine : Type 0 where
  pub subscriptions : Map Bytes RpcSubscription
  pub next_sub_id : ℕ

unfoldable pub new_engine : PubsubEngine
new_engine = record { subscriptions = []; next_sub_id = 1 }

-- `std::hex`, on fuel for 16 digits: the digits of a number before those that are made.
unfoldable pub hex_digits : ℕ → ℕ → Bytes → Bytes
hex_digits zero n text = text
hex_digits (suc fuel) n text =
    let digit = if ltb (n % 16) 10 then b'0' + n % 16 else b'a' + n % 16 - 10 in
    let rest = hex_digits fuel (n / 16) (digit ∷ text) in if ltb n 16 then digit ∷ text else rest

unfoldable pub sub_id_text : ℕ → Bytes
unfolding hex_digits
sub_id_text n = b'0' ∷ b'x' ∷ hex_digits 16 n []

unfoldable pub subscribe : Bytes → Bytes → PubsubEngine → PubsubEngine × Bytes
unfolding sub_id_text
subscribe topic filter e =
    let id = sub_id_text e.next_sub_id in
    (
      record {
        subscriptions =
            insert id (record { id = id; topic = topic; filter = filter; pending_events = [] })
              e.subscriptions;
        next_sub_id = add64 e.next_sub_id 1;
      },
      id,
    )

unfoldable pub unsubscribe : Bytes → PubsubEngine → PubsubEngine × Bool
unsubscribe sub_id e =
    (record e { subscriptions = erase sub_id e.subscriptions }, contains sub_id e.subscriptions)

-- `pending_events.push_back(event_json)`, if the topic is that of the subscription.
unfoldable pub notify : Bytes → Bytes → RpcSubscription → RpcSubscription
notify topic event_json s =
    if s.topic == topic
    then record s { pending_events = s.pending_events ++ (event_json ∷ []) }
    else s

-- The loop of `publish`.
unfoldable pub notify_all : Bytes → Bytes → Map Bytes RpcSubscription → Map Bytes RpcSubscription
unfolding notify
notify_all topic event_json [] = []
notify_all topic event_json (kv ∷ subscriptions) =
    (kv.0, notify topic event_json kv.1) ∷ notify_all topic event_json subscriptions

unfoldable pub publish : Bytes → Bytes → PubsubEngine → PubsubEngine
unfolding notify_all
publish topic event_json e = record e {
  subscriptions = notify_all topic event_json e.subscriptions;
}

unfoldable pub poll_events : Bytes → PubsubEngine → PubsubEngine × List Bytes
poll_events sub_id e = elim (find sub_id e.subscriptions) [
  | none ↦ (e, [])
  | some s ↦ (
    record e { subscriptions = insert sub_id (record s { pending_events = [] }) e.subscriptions },
    s.pending_events,
  )
]

-- The loop of `get_subscriber_count`.
unfoldable pub count_topic : Bytes → Map Bytes RpcSubscription → ℕ
count_topic topic [] = 0
count_topic topic (kv ∷ subscriptions) =
    let rest = count_topic topic subscriptions in if kv.1.topic == topic then suc rest else rest

unfoldable pub get_subscriber_count : Bytes → PubsubEngine → ℕ
unfolding count_topic
get_subscriber_count topic e =
    if is_empty topic then length e.subscriptions else count_topic topic e.subscriptions

unfoldable pub clear : PubsubEngine → PubsubEngine
clear e = record e { subscriptions = [] }
