-- ===== src/Lib.antt =====
-- The core of SUPRIME, a peer-to-peer swarm runtime: the state that its nodes replicate and the
-- tables by which they know one another.
--
-- The program's parts. A node (suprime/node.py) owns a membership table (suprime/peers.py), a
-- replicated key-value store (suprime/store.py) and a view of the leader (suprime/consensus.py).
-- Gossip carries the digests of the table and of the store; the CRDTs of suprime/crdt.py travel the
-- same way. Each part keeps its state in one object, and its methods are modelled here as functions
-- from the state to the state and the answer.
--
-- Base        what the parts share: equality and order of keys as instance arguments (Key),
--             dictionaries as association lists in insertion order (Dict, with the
--             last-writer-wins loop in Dict/Merge and counters in Dict/Count), sets (Sets), raised
--             errors as values (Result), integers (Int), prefixes of texts (Texts).
-- Version     `Version` of suprime/store.py and its order; Version/Newest the newer of two
--             entries; Version/Streams entries that arrive in any order.
-- Store       `DistributedStore`. Store/Entries has `Entry` and the scans of the dictionary,
--             Store/Wire the digest. A call of a subscriber or a commit hook is an item of the
--             field `calls`, in the order in which the program makes them.
-- Crdt        suprime/crdt.py, a module for each class.
-- Peers       `PeerTable` with the failure detector.
-- Consensus   `elect_leader` and `LeaderView`.
-- Plumtree    the broadcast tree of suprime/plumtree.py.
-- HyParView   the bounded views of suprime/hyparview.py.
-- Persistence the snapshot and the log of suprime/persistence.py.
-- Gossip      the digests and the fanout of suprime/gossip.py.
-- AntiEntropy the repair by bucket fingerprints of suprime/antientropy.py.
-- Tasks       the task board of suprime/tasks.py: Tasks/Claims reads tasks and claims from the store,
--             Tasks/Evaluate is the coordination step.
-- Node        `SwarmNode` of suprime/node.py, over the parts above: Node/Receive routes a message,
--             Node/Probe is the failure detector's step, Node/Round the periodic round, Node/App
--             what the application calls. The table and the store that its parts share are kept
--             in one place and lent to the task board for its step.
-- Kv          `KVStore` of suprime/kvstore.py: values, expiry and indexes; Kv/Quorum the quorum calls,
--             each as its start, the answers that arrive, and its finish.
-- Replicate   `CRDTReplicator` of suprime/replicate.py, over a record of a CRDT's operations.
-- Metrics     the registry of suprime/metrics.py.
-- Chaos       the fault injector of suprime/chaos.py.
-- Byzantine   the trust-weighted votes of suprime/byzantine.py.
-- Tests       the theorems at concrete inputs.
--
-- How state and operations correspond. A method `m(self, x)` is a function `m x s`. Names are kept;
-- `get` of the store and of the table is `read` and `lookup` here, since `get` reads a dictionary, and
-- Python's `alive()` is `alive_peers` beside the state `alive`. Keys, values and addresses are type
-- parameters with an equality, and an order where the program compares them. What a part is given
-- from outside it, such as a transport, a hash, a random choice or a registered function, is a
-- parameter of the definitions that use it. A raised exception is `raise` with its class. A dictionary keeps its keys distinct in the program; here that is the
-- hypothesis `Distinct`.
--
-- Numbers. Counters are unbounded naturals, as the program's are; their sums below zero are
-- integers. A clock's reading is an argument of the operation that reads it, in whole
-- microseconds, so that the program's `+ 1e-6` is `+ 1`; rounding of floating-point times is not
-- modelled. Loops run over a list and recurse on it. The one `while` loop, in
-- HyParView's periodic step, runs on fuel: the length of the passive view, of which each turn takes
-- one peer. Trust is a natural number of a fixed unit.
--
-- Not modelled: sockets, timers, random choices, cryptography, rendering and the command
-- line; and, of the remaining parts, those of suprime/ that the list above does not name. Values of
-- a wrong type in a message are not modelled, missing fields are.
pub mod Base
pub mod Version
pub mod Crdt
pub mod Store
pub mod Consensus
pub mod Plumtree
pub mod HyParView
pub mod Byzantine
pub mod Persistence
pub mod Gossip
pub mod Tasks
pub mod Metrics
pub mod Replicate
pub mod Kv
pub mod Node
pub mod AntiEntropy
pub mod Chaos
pub mod Peers
pub mod Tests
