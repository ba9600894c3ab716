-- ===== src/Network/Peers/Limits.antt =====
-- The limits that hold after any calls.
use mermai_blockchain.Base.{
  ℕ, ap, ◌&&◌, ◌+◌, ◌≤◌, ◌≡◌, refl, true, List, [], ◌∷◌, arith, ltb, leb, length, length-append,
  if◌then◌else◌, Bool-cases, inl, inr,
}
use mermai_blockchain.Base.Integers.{ℤ, pos, ◌+ℤ◌, at_most_minus}
use mermai_blockchain.Base.Key.{Bytes, bytes_key, nat_key, ◌==◌, ==_sound}
use mermai_blockchain.Base.Map.{Map, find, find_or, insert, find_or-insert}
use mermai_blockchain.Base.Set.{member, add, member-add}
use mermai_blockchain.Network.{Peer}
use mermai_blockchain.Network.Peers.{
  PeerTable, new_peer_table, add_peer, without_peer, remove_peer, ban_peer, is_peer_banned,
  get_peer_reputation, update_peer_reputation, allow_block_from_peer, allow_subnet_connection,
  get_subnet, max_peers, rate_limit_per_window, max_peers_per_subnet,
}

-- The calls that change the table.
pub data Call : Type 0 where
  adds : Peer → Call
  removes : Bytes → Call
  bans : Bytes → Call
  rates : Bytes → ℤ → Call
  takes_block connects : Bytes → Call

unfoldable pub apply : PeerTable → Call → PeerTable
unfolding add_peer remove_peer ban_peer update_peer_reputation allow_block_from_peer
    allow_subnet_connection
apply t (adds peer) = add_peer peer t
apply t (removes id) = remove_peer id t
apply t (bans address) = ban_peer address t
apply t (rates ip delta) = update_peer_reputation ip delta t
apply t (takes_block ip) = (allow_block_from_peer ip t).0
apply t (connects ip) = (allow_subnet_connection ip t).0

unfoldable pub run : PeerTable → List Call → PeerTable
unfolding apply
run t [] = t
run t (c ∷ cs) = run (apply t c) cs

-- How many blocks a call allows an address, and how many connections a subnet.
unfoldable pub granted_block : Bytes → PeerTable → Call → ℕ
granted_block ip t (takes_block other) =
    if ip == other && (allow_block_from_peer other t).1 then 1 else 0
granted_block ip t _ = 0

unfoldable pub granted_connection : Bytes → PeerTable → Call → ℕ
granted_connection subnet t (connects ip) =
    if subnet == get_subnet ip && (allow_subnet_connection ip t).1 then 1 else 0
granted_connection subnet t _ = 0

-- The sum over calls, each of which meets the table as the calls before it leave it.
unfoldable pub granted : (PeerTable → Call → ℕ) → PeerTable → List Call → ℕ
unfolding apply
granted by t [] = 0
granted by t (c ∷ cs) = by t c + granted by (apply t c) cs

pub record IsLimited (t : PeerTable) : Type 0 where
  pub few_peers : length t.peers ≤ max_peers
  pub few_blocks : (ip : Bytes) → find_or 0 ip t.block_rate_counts ≤ rate_limit_per_window
  pub few_neighbours :
      (subnet : Bytes) → find_or 0 subnet t.subnet_connection_counts ≤ max_peers_per_subnet
  pub outcasts :
      (ip : Bytes)
      → at_most_minus 100 (get_peer_reputation ip t) ≡ true
      → is_peer_banned ip t ≡ true

length-without_peer :
    (id : Bytes) (peers : List Peer) → length (without_peer id peers) ≤ length peers
unfolding without_peer
length-without_peer id [] = omega arith
length-without_peer id (p ∷ peers) = ground (arith, length-without_peer id peers)

rates_outcasts :
    (ip other : Bytes) (score : ℤ) (scores : Map Bytes ℤ) (banned : List Bytes)
    → (at_most_minus 100 (find_or (pos 0) other scores) ≡ true → member other banned ≡ true)
    → at_most_minus 100 (find_or (pos 0) other (insert ip score scores)) ≡ true
    → member other (if at_most_minus 100 score then add ip banned else banned) ≡ true
rates_outcasts ip other score scores banned old h =
    let read = find_or-insert (pos 0) other ip score scores in
    let grown = member-add other ip banned in
    elim (Bool-cases (other == ip)) [
      | inl same ↦
          let low : at_most_minus 100 score ≡ true = rw (read, same) at h in
          rw (low, grown, same) refl
      | inr differs ↦
          let kept : member other banned ≡ true = old (rw (read, differs) at h) in
          elim (Bool-cases (at_most_minus 100 score)) [
            | inl low ↦ rw (low, grown, differs) kept
            | inr high ↦ rw high kept
          ]
    ]

apply-IsLimited : (t : PeerTable) (c : Call) → IsLimited t → IsLimited (apply t c)
unfolding apply is_peer_banned get_peer_reputation update_peer_reputation
apply-IsLimited t (adds peer) w = elim (Bool-cases (ltb (length t.peers) max_peers)) [
  | inr full ↦ rw (full, apply) w
  | inl room ↦
      rw (room, apply)
        (record {
          few_peers = ground (arith, length-append t.peers (peer ∷ []));
          few_blocks = w.few_blocks;
          few_neighbours = w.few_neighbours;
          outcasts = w.outcasts;
        })
]
apply-IsLimited t (removes id) w = record {
  few_peers = omega (arith, length-without_peer id t.peers, w.few_peers);
  few_blocks = w.few_blocks;
  few_neighbours = w.few_neighbours;
  outcasts = w.outcasts;
}
apply-IsLimited t (bans address) w = record {
  few_peers = w.few_peers;
  few_blocks = w.few_blocks;
  few_neighbours = w.few_neighbours;
  outcasts = λ ip h. ground (arith, member-add ip address t.banned_ips, w.outcasts ip h);
}
apply-IsLimited t (rates ip delta) w = record {
  few_peers = w.few_peers;
  few_blocks = w.few_blocks;
  few_neighbours = w.few_neighbours;
  outcasts = λ other h.
      rates_outcasts ip other (get_peer_reputation ip t +ℤ delta) t.peer_reputation_map t.banned_ips
        (w.outcasts other) h;
}
apply-IsLimited t (takes_block ip) w =
    elim (Bool-cases (leb rate_limit_per_window (find_or 0 ip t.block_rate_counts))) [
      | inl full ↦ rw (full, apply) w
      | inr room ↦
          rw (room, apply)
            (record {
              few_peers = w.few_peers;
              few_blocks = λ other. ground (
                arith,
                find_or-insert 0 other ip (find_or 0 ip t.block_rate_counts + 1)
                    t.block_rate_counts,
                w.few_blocks other,
                room,
              );
              few_neighbours = w.few_neighbours;
              outcasts = w.outcasts;
            })
    ]
apply-IsLimited t (connects ip) w =
    let subnet = get_subnet ip in
    let count = find_or 0 subnet t.subnet_connection_counts in
    elim (Bool-cases (leb max_peers_per_subnet count)) [
      | inl full ↦ rw (full, apply) w
      | inr room ↦
          rw (room, apply)
            (record {
              few_peers = w.few_peers;
              few_blocks = w.few_blocks;
              few_neighbours = λ other. ground (
                arith,
                find_or-insert 0 other subnet (count + 1) t.subnet_connection_counts,
                w.few_neighbours other,
                room,
              );
              outcasts = w.outcasts;
            })
    ]

run-IsLimited : (t : PeerTable) (cs : List Call) → IsLimited t → IsLimited (run t cs)
unfolding run
run-IsLimited t [] w = w
run-IsLimited t (c ∷ cs) w = run-IsLimited (apply t c) cs (apply-IsLimited t c w)

run-banned :
    (t : PeerTable) (cs : List Call) (ip : Bytes)
    → is_peer_banned ip t ≡ true
    → is_peer_banned ip (run t cs) ≡ true
unfolding run apply is_peer_banned
run-banned t [] ip h = h
run-banned t (adds peer ∷ cs) ip h = run-banned (apply t (adds peer)) cs ip (ground (arith, h))
run-banned t (removes id ∷ cs) ip h = run-banned (apply t (removes id)) cs ip h
run-banned t (bans address ∷ cs) ip h =
    run-banned (apply t (bans address)) cs ip
      (ground (arith, member-add ip address t.banned_ips, h))
run-banned t (rates other delta ∷ cs) ip h =
    run-banned (apply t (rates other delta)) cs ip
      (ground (arith, member-add ip other t.banned_ips, h))
run-banned t (takes_block other ∷ cs) ip h =
    run-banned (apply t (takes_block other)) cs ip (ground (arith, h))
run-banned t (connects other ∷ cs) ip h =
    run-banned (apply t (connects other)) cs ip (ground (arith, h))

block_rate_counts-apply :
    (ip : Bytes) (t : PeerTable) (c : Call)
    → find_or 0 ip (apply t c).block_rate_counts
      ≡ find_or 0 ip t.block_rate_counts + granted_block ip t c
unfolding apply granted_block
block_rate_counts-apply ip t (takes_block other) =
    let next = find_or 0 other t.block_rate_counts + 1 in
    let same = ==_sound ip other in
    let law = find_or-insert 0 ip other next t.block_rate_counts in
    elim (Bool-cases (ip == other)) [
      | inl e ↦ ground (arith, law, e, ap (λ k. find_or 0 k t.block_rate_counts) (same e))
      | inr e ↦ ground (arith, law, e)
    ]
block_rate_counts-apply ip t (adds peer) = ground arith
block_rate_counts-apply ip t (removes id) = ground arith
block_rate_counts-apply ip t (bans address) = ground arith
block_rate_counts-apply ip t (rates other delta) = ground arith
block_rate_counts-apply ip t (connects other) = ground arith

subnet_connection_counts-apply :
    (subnet : Bytes) (t : PeerTable) (c : Call)
    → find_or 0 subnet (apply t c).subnet_connection_counts
      ≡ find_or 0 subnet t.subnet_connection_counts + granted_connection subnet t c
unfolding apply granted_connection
subnet_connection_counts-apply subnet t (connects ip) =
    let other = get_subnet ip in
    let next = find_or 0 other t.subnet_connection_counts + 1 in
    let same = ==_sound subnet other in
    let law = find_or-insert 0 subnet other next t.subnet_connection_counts in
    elim (Bool-cases (subnet == other)) [
      | inl e ↦ ground (arith, law, e, ap (λ k. find_or 0 k t.subnet_connection_counts) (same e))
      | inr e ↦ ground (arith, law, e)
    ]
subnet_connection_counts-apply subnet t (adds peer) = ground arith
subnet_connection_counts-apply subnet t (removes id) = ground arith
subnet_connection_counts-apply subnet t (bans address) = ground arith
subnet_connection_counts-apply subnet t (rates other delta) = ground arith
subnet_connection_counts-apply subnet t (takes_block other) = ground arith

-- A counter that grows by what each call grants has, after calls, grown by what they granted.
granted-run :
    (counter : PeerTable → ℕ) (by : PeerTable → Call → ℕ)
    → ((t : PeerTable) (c : Call) → counter (apply t c) ≡ counter t + by t c)
    → (t : PeerTable) (cs : List Call) → counter (run t cs) ≡ counter t + granted by t cs
unfolding run granted
granted-run counter by step t [] = omega arith
granted-run counter by step t (c ∷ cs) =
    omega (arith, step t c, granted-run counter by step (apply t c) cs)

-- After any calls on an empty table there are at most 100 peers; over all these calls no address was
-- allowed more than 15 blocks and no subnet more than 3 connections; an address whose reputation is at
-- most -100 is banned; and whatever is banned stays banned, whatever calls follow.
pub run-new_peer_table-IsLimited :
    (cs later : List Call) (ip subnet : Bytes)
    → IsLimited (run new_peer_table cs)
      × (granted (granted_block ip) new_peer_table cs ≤ rate_limit_per_window)
      × (granted (granted_connection subnet) new_peer_table cs ≤ max_peers_per_subnet)
      × (is_peer_banned ip (run new_peer_table cs)
            && is_peer_banned ip (run (run new_peer_table cs) later)
          ≡ is_peer_banned ip (run new_peer_table cs))
unfolding new_peer_table get_peer_reputation find_or find
run-new_peer_table-IsLimited cs later ip subnet =
    let before = run new_peer_table cs in
    let limited = run-IsLimited new_peer_table cs (record {
      few_peers = omega arith;
      few_blocks = λ other. omega arith;
      few_neighbours = λ other. omega arith;
      outcasts = λ other h. cc;
    }) in
    let blocks =
      granted-run (λ t. find_or 0 ip t.block_rate_counts) (granted_block ip)
        (block_rate_counts-apply ip) new_peer_table cs in
    let connections =
      granted-run (λ t. find_or 0 subnet t.subnet_connection_counts) (granted_connection subnet)
        (subnet_connection_counts-apply subnet) new_peer_table cs in
    (
      limited,
      omega (arith, blocks, limited.few_blocks ip),
      omega (arith, connections, limited.few_neighbours subnet),
      elim (Bool-cases (is_peer_banned ip before)) [
        | inl banned ↦ rw (banned, run-banned before later ip banned) refl
        | inr free ↦ rw free refl
      ],
    )
