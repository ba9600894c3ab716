-- ===== src/Pubsub/Tests.antt =====
-- Two subscriptions, with other calls between an event and its delivery.
use mermai_blockchain.Base.{◌≡◌, ◌≢◌, refl, List, [], ◌∷◌, ◌++◌, some, arith}
use mermai_blockchain.Base.Key.{Bytes, bytes_key, bytes_beq, bytes_less}
use mermai_blockchain.Base.Map.{find, insert}
use mermai_blockchain.Pubsub.{
  RpcSubscription, PubsubEngine, new_engine, subscribe, unsubscribe, publish, sub_id_text,
  poll_events, get_subscriber_count,
}
use mermai_blockchain.Pubsub.Delivery.{
  Call, subscribes, publishes, unsubscribes, polls, AreOfOthers, run, events_of,
  poll_events-delivers,
}

abbrev blocks_topic : Bytes
blocks_topic = b'b' ∷ []

abbrev votes_topic : Bytes
votes_topic = b'v' ∷ []

abbrev two_subscriptions : PubsubEngine
unfolding subscribe new_engine
two_subscriptions = (subscribe votes_topic [] (subscribe blocks_topic [] new_engine).0).0

abbrev first_id : Bytes
first_id = b'0' ∷ b'x' ∷ b'1' ∷ []

abbrev second_id : Bytes
second_id = b'0' ∷ b'x' ∷ b'2' ∷ []

abbrev waiting : RpcSubscription
waiting = record { id = first_id; topic = blocks_topic; filter = []; pending_events = [] }

abbrev calls : List Call
calls =
    publishes blocks_topic (1 ∷ [])
    ∷ polls second_id
    ∷ publishes votes_topic (2 ∷ [])
    ∷ unsubscribes second_id
    ∷ subscribes blocks_topic []
    ∷ publishes blocks_topic (3 ∷ [])
    ∷ []

sub_id_text_hex : sub_id_text 26 ≡ b'0' ∷ b'x' ∷ b'1' ∷ b'a' ∷ []
unfolding sub_id_text
sub_id_text_hex = refl

delivered_events : events_of blocks_topic calls ≡ (1 ∷ []) ∷ (3 ∷ []) ∷ []
unfolding events_of bytes_beq
delivered_events = refl

count_two : get_subscriber_count [] two_subscriptions ≡ 2
unfolding get_subscriber_count two_subscriptions insert bytes_beq bytes_less
count_two = refl

count_votes : get_subscriber_count votes_topic two_subscriptions ≡ 1
unfolding get_subscriber_count two_subscriptions insert bytes_beq bytes_less
count_votes = refl

waiting_is_found : find first_id two_subscriptions.subscriptions ≡ some waiting
unfolding find two_subscriptions insert bytes_beq bytes_less
waiting_is_found = refl

ids_differ : first_id ≢ second_id
ids_differ e = ground arith

third_differs : first_id ≢ sub_id_text 3
unfolding sub_id_text
third_differs e = ground arith

calls-AreOfOthers : AreOfOthers first_id two_subscriptions calls
unfolding AreOfOthers publish unsubscribe poll_events subscribe two_subscriptions find insert
    bytes_beq bytes_less
calls-AreOfOthers = (tt, (ids_differ, (tt, (ids_differ, (third_differs, (tt, tt))))))

poll_events-delivers_example :
    ((poll_events first_id (run two_subscriptions calls)).1 ≡ [] ++ events_of blocks_topic calls)
    × ((poll_events first_id (poll_events first_id (run two_subscriptions calls)).0).1 ≡ [])
poll_events-delivers_example =
    poll_events-delivers calls two_subscriptions first_id waiting waiting_is_found calls-AreOfOthers
