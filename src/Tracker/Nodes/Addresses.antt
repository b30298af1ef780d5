-- ===== src/Tracker/Nodes/Addresses.antt =====
-- The index of the nodes by their addresses.
use ocelot.Prelude.{ℕ, ◌≡◌, ◌≢◌, none, some, List, [], nat_eq, list_eq, arith}
use ocelot.Prelude.Map.{
  lookup, insert, lookup-insert, lookup-delete, lookup-insert_self, lookup-delete_self,
}
use ocelot.Tracker.Nodes.{
  NodeIdentity, NodeRegistry, unmanaged, managed, heartbeat, heartbeat_of, register, unregister,
  get_by_ip, classify_peer,
}

-- A registered node is found under its address, and no more once it is unregistered; nodes of other
-- addresses are found as before.
pub register-get_by_ip :
    (n : NodeIdentity) (ip : List ℕ) (r : NodeRegistry)
    → n.last_ip ≢ []
    → lookup n.node_id r.nodes ≡ none
    → (get_by_ip n.last_ip (register n r) ≡ some n)
      × (classify_peer n.last_ip (unregister n.node_id (register n r)) ≡ unmanaged)
      × (ip ≢ n.last_ip
          → classify_peer ip (unregister n.node_id (register n r)) ≡ classify_peer ip r)
unfolding get_by_ip register unregister classify_peer
register-get_by_ip n ip r has_ip fresh =
    let ips = insert n.last_ip n.node_id r.by_ip in
    let ids = list_eq {A = ℕ} in
    ground (
      arith,
      ids.equal_iff n.last_ip [],
      ids.equal_iff n.last_ip ip,
      lookup-insert_self n.last_ip n.node_id r.by_ip,
      lookup-insert_self n.node_id n r.nodes,
      lookup-delete_self n.last_ip ips,
      lookup-delete n.last_ip ip ips,
      lookup-insert n.last_ip ip n.node_id r.by_ip,
    )

-- A heartbeat from another address does not enter it in the index: the node is not found there, and
-- when it is unregistered its old address goes on counting as that of a managed node.
pub heartbeat_not_indexed :
    (n : NodeIdentity) (ip : List ℕ) (asn now : ℕ) (r : NodeRegistry)
    → n.last_ip ≢ []
    → ip ≢ n.last_ip
    → lookup ip r.by_ip ≡ none
    → let u = heartbeat_of n.node_id ip asn now (register n r) in
      (classify_peer ip u ≡ unmanaged)
      × (classify_peer n.last_ip (unregister n.node_id u) ≡ managed)
unfolding heartbeat_of heartbeat register unregister classify_peer
heartbeat_not_indexed n ip asn now r has_ip moved unknown =
    let ips = insert n.last_ip n.node_id r.by_ip in
    let ids = list_eq {A = ℕ} in
    let nodes = insert n.node_id n r.nodes in
    ground (
      arith,
      ids.equal_iff n.last_ip [],
      ids.equal_iff n.last_ip ip,
      ids.equal_iff ip n.last_ip,
      lookup-insert_self n.node_id n r.nodes,
      lookup-insert_self n.node_id (heartbeat ip asn now n) nodes,
      lookup-insert_self n.last_ip n.node_id r.by_ip,
      lookup-insert n.last_ip ip n.node_id r.by_ip,
      lookup-delete ip n.last_ip ips,
    )
