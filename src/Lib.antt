-- ===== src/Lib.antt =====
-- Ocelot is a BitTorrent tracker written in Go, with an economic layer and a virtual server beside it.
-- This library models the parts that keep state and decide, and states what they guarantee.
--
-- The tracker (tracker/) answers the announces of peers: it checks them, finds the peer in the lists of
-- its torrent, accounts for what the peer has moved, counts seeders and leechers, and writes to a
-- database through a circuit breaker; a reaper evicts the peers that fall silent. It also follows
-- the verification of artifacts and their copies on managed nodes: a controller asks nodes for the
-- copies that are missing, and retires those that are too many. The economic layer (commons/)
-- prices the traffic, settles each announce in a ledger and ranks the seeders that a leecher is
-- told of. The virtual server (virtualserver/) places service instances and volumes on nodes; its
-- store keeps their states in SQL tables, its scheduler chooses the nodes, and a reconciler drives
-- instances and volumes through their states. On a compute node an agent (compute/agent/) starts and
-- stops the workloads that its control plane asks for.
--
-- Prelude: what the modules share. Numbers are natural; Prelude/Int has the integers and Go's int64
--   with its wrap-around, Prelude/Map Go's maps and SQL's tables as association lists, Prelude/Reach
--   reachability along a table of transitions, Prelude/Bytes the integers of network packets,
--   Prelude/Results fallible code, Prelude/Lists and Prelude/Tests the rest.
-- Tracker/Swarm: tracker/types.go, the records of peers, torrents and users.
-- Tracker/Address: CompactIPPort, CompactIPv6Port, ValidateIPNotPrivate and PeerKeyPrime.
-- Tracker/Announce: `Announce` of tracker/announce.go. Request has its input, its local flags and what
--   it sends to the database, Locate the search for the peer, Account the accounting and the
--   address, Outcome all that follows the first critical section, Handler the guards, the whole and
--   the response. Sizes, Counters and Totals are about the lists and counters, Charges about the
--   user's totals, Limits about bounds.
-- Tracker/Reaper: tracker/reaper.go. Tracker/Whitelist: `Whitelist` and, in Trie, `WhitelistTrie`.
-- Tracker/CircuitBreaker: tracker/circuit_breaker.go, as critical sections in any order (Counts), and
--   with one call after another (Recovery).
-- Tracker/Udp: tracker/udp.go. Packets is about the words of an announce, Messages about what a client
--   means by it, Scrapes about the answer to a scrape, Connections about who is served.
-- Tracker/Admission: tracker/admission_policy.go, and in Access the sets of passkeys that it implements.
-- Tracker/Nodes: tracker/node_registry.go. Reach is about the states of a node, Addresses about the
--   index. Tracker/Replication: tracker/replication_policy.go.
-- Tracker/Controller: tracker/swarm_controller.go, with `reconcileArtifact` and, in Ensure,
--   `EnsureArtifact`; Signals is about the directives that are sent.
-- Tracker/VerifyState: tracker/verify_state.go. Tracker/Replica: tracker/replica_class.go.
-- Commons/Credit, Commons/Account, Commons/Price: commons/credit.go, account.go, priority.go,
--   workload.go, price.go and resource.go.
-- Commons/Ledger: commons/ledger.go, with CheckAllocation and SetUserPriority of commons/commons.go;
--   Balances and Budgets are what holds of it. Commons/Scheduler: commons/scheduler.go, with Ranking
--   for the order and Policy for the decision.
-- VirtualServer/Domain: the state machines of virtualserver/domain, and in Path and Manifest its path.go
--   and service.go.
-- VirtualServer/Scheduler: virtualserver/scheduler/scheduler.go; Constraints has the nodes that pass,
--   Choice the one that is selected.
-- VirtualServer/Store: allocation_store.go, volume_store.go, instance_store.go, operation_store.go,
--   node_store.go and idempotency_store.go of virtualserver/store, each with the constraints of
--   migrations.go that matter.
-- VirtualServer/Reconciler: virtualserver/reconciler/reconciler.go, over the tables of the store. Mounts
--   has the mounts of an instance, Passes the handlers of instances, Counts the desired counts and
--   the expiry of nodes, VolumePasses the volumes, Whole the order of all. Teardown, Stopping,
--   Restarts, Placing, Missing and Quotas are about them.
-- Compute/Agent: compute/agent/reconcile.go, health.go, and the running set of executor.go. Convergence
--   is about what runs, Buffer about the health events.
-- Tests: the properties at concrete inputs.
--
-- State is passed explicitly: an operation takes the tables, or the object, and gives them back, with
-- its error where it has one. A store that reads before it takes its lock has an argument
-- `between`, what other goroutines do in the meantime, any function of the table. Moments are
-- natural numbers, given to each call. Loops are recursion on the list they walk, and none needs
-- fuel. Every arithmetic of a fixed width that can wrap is written with its wrap-around (u32, u64,
-- i64), where a comment does not say why it cannot.
--
-- What is floating-point in the code is a parameter: the scores of nodes with their order (Scores, and
-- `higher` in the controller), the smoothed demand of an artifact (Popularity), which networks have
-- a large share of the demand, and the speeds of an announce. So is the SHA-256 of an idempotency key.
--
-- Not modelled: the choice of the peers in a response, the response holding their number instead; the
-- anomaly detectors, whose answers an announce is given; network and files; the texts of errors and
-- explanations; failures of the database, which roll a transaction back; alerts. The API
-- of the virtual server, the HTTP servers of the tracker, the control plane of compute/ and
-- markov/ are not modelled.
pub mod Commons
pub mod Compute
pub mod Prelude
pub mod Tracker
pub mod Tests
pub mod VirtualServer
