-- ===== src/Lib.antt =====
-- Models of the key-value store: a replicated store in the manner of Dynamo, with consistent
-- hashing, vector clocks, quorums, gossip and hinted handoff (src/dynamokv).
--
-- The parts and their files:
--
-- - VectorClock: src/dynamokv/vector_clock.py. Clocks, versions, `reconcile`. Order is about
--   `compare`, Merge about `merge` and `incremented`, Antichain and Converge about `reconcile`.
-- - Ring: src/dynamokv/ring.py. `HashRing`: Points and Membership are about `add_node` and
--   `__init__`, Lookup and Stability about `get_node`, Preference about `get_preference_list`.
-- - Storage: src/dynamokv/storage. The interface with its laws, then Memory, Sqlite, and
--   Encrypted (src/dynamokv/crypto.py), Trace (sequences of calls), Production
--   (src/dynamokv/main.py, `build_storage_from_config`).
-- - HintStore: src/dynamokv/hint_store.py, a client of any backend that fulfils the laws.
-- - Gossip: src/dynamokv/gossip.py. Liveness is about one node's table, Exchange about two.
-- - Node: src/dynamokv/node.py and the internal handlers of src/dynamokv/api/routes.py. Replica
--   has what one node does to its own state, Network the requests between nodes and `_quorum_op`,
--   Client the steps of a coordinator, Coordinator its `get`, `put` and `delete`. Local, Gather,
--   Growth, Writes and Reads have the lemmas on these, Quorum the intersection of quorums,
--   Siblings, Durable, Freshness and Succession the theorems on `get`, on `put`, on `get` after
--   `put`, and on `put` after `put`. Background has `gossip_round` with `_flush_hints_for` and
--   the views for the dashboard, Worker src/dynamokv/gossip_worker.py, Rounds and Replay what
--   they do to stored writes and to hints.
-- - Auth: src/dynamokv/auth.py. Grants is about `get_auth_context`, Namespaces about the keys.
-- - Journal: src/dynamokv/recent_ops.py, src/dynamokv/logging_middleware.py and
--   src/dynamokv/audit.py; Recent is about the log and the history.
-- - Metrics: src/dynamokv/metrics.py; Counts is about the requests, Gauges about the peers.
-- - Api: the public routes of src/dynamokv/api/routes.py with the shapes of
--   src/dynamokv/models.py. Access is about requests without a grant, Answers about those that
--   succeed, Dashboard about `cluster_state`.
-- - App: what src/dynamokv/main.py and src/dynamokv/run.py make of src/dynamokv/config.py. Text
--   has the methods of str, Entry the applications of production and the ports that `main` opens;
--   Members is about the nodes that are built, Join about CLUSTER_NODES, Doors about the ports.
-- - Bench: scripts/bench_stats.py. Tools and Run (scripts/dynamodb_bench_conditions.py), Aws
--   (scripts/dynamodb_bench_aws.py) and Driver (scripts/dynamodb_bench.py) have the benchmark
--   against DynamoDB; Percentile, Condition, Waiting, Override and Provision are about these, and
--   Steady has their common lemmas.
-- - Certs: scripts/gen_certs.py; Layout is about the files of a run.
-- - Attack: scripts/adversarial_scenarios.py. Shell has the actions of a scenario on the world,
--   Transport categories 1 and 2, Liveness category 3, Writes categories 4 to 6, AtRest
--   categories 7 and 8, Bypass category 9, Audit category 10, Suite the list of all.
--   Writes/Programs runs the programs of categories 4 to 6 on the cluster of Node and the routes
--   of Api; Replay, Forgery and Deletion are about them, Bypass/Statuses about category 9 against
--   these routes, Keeps has rules for what actions leave alone.
-- - Testbed: scripts/adversarial_testbed.py; Tally is about the rates of a run.
-- - Prelude and Dict: lists, Python's int, exceptions as values, and Python's dict.
-- - Tests: runs of the models and instances of the theorems.
--
-- How the code is modelled. A method that changes its object is a function from the state to the
-- state; one that may raise returns a `Result`. A dict is an association list in the order of
-- insertion, a set the list of its members. Counters are integers without bounds, as in Python;
-- times are whole ticks of the local clock. The code that is not in the repository is a
-- parameter: BLAKE2b is any function from text to numbers, the Prometheus registry a record with
-- laws, json, base64 and AES-GCM are functions with the law that what was written reads back, and
-- the random source is a sequence of nonces.
--
-- A cluster is a dict from node ids to replicas. A request has a fate: it is answered, it does
-- not arrive, or it is carried out and its answer is lost; a URL names its host. The fates, the
-- order in which the operations of a fan-out complete and the time are arguments of `get`, `put`
-- and `delete`, so that the theorems hold for all of them. An operation on one replica is one
-- step: the model does not show two handlers of one process that interleave inside a read and
-- write of the same key. `put` returns the writes that were still running when it reached its
-- quorum; they, and the reads, writes, hints and gossip of all nodes, are steps of the relation
-- `Between` in Node/Freshness, and deletions are not.
--
-- All loops are structural recursion. The walk of `get_preference_list` and the loops over
-- virtual nodes recurse on the number of rounds that the source's `range` gives; the decimal
-- digits of an index `i` recurse on `i + 1` rounds, and a number has no more digits than that.
--
-- Loops on the clock recurse on fuel. The measuring loop of Bench has `target_n` + 1 rounds, the
-- wait for a table 30 (60 seconds, with a sleep of two in each round), the relay of category 3
-- has 24 (12 seconds, with a sleep of half a second in each): Bench/Condition, Bench/Waiting and
-- Attack/Liveness/Rounds are about these numbers. A float of the source is a whole number of
-- ticks there, and an exact fraction where it is divided.
--
-- The parts interact as in the code: the hint store and the node use any backend that fulfils
-- `StorageLaws`, the node uses the ring, the clocks, the hint store and the gossip state, the
-- public routes use the node behind `get_auth_context`, and App builds a node from settings. A
-- script is a function from the world, of which it only sees what its record of tools shows
-- (`Outside`, `Tools`, `Surroundings`, `Host`), to a result or an exception and the world after
-- it; `sys.exit` is a value. The programs that scenarios run inside containers are constructors
-- of `Snippet`.
--
-- Not modelled: servers, TLS contexts, the framework's validation of requests, the reading of the
-- environment and of files, the set-up of loggers and of HTTP clients, what is printed, the text
-- of the benchmark's reports, the programs in containers other than those of categories 4 to 6,
-- and the frontend. They are input and output around the parts above.
pub mod Prelude
pub mod Dict
pub mod VectorClock
pub mod Ring
pub mod Storage
pub mod HintStore
pub mod Gossip
pub mod Node
pub mod Auth
pub mod Journal
pub mod Api
pub mod App
pub mod Bench
pub mod Metrics
pub mod Certs
pub mod Attack
pub mod Testbed
pub mod Tests
