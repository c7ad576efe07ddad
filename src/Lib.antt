-- ===== src/Lib.antt =====
-- A verification library for Vrata, a programmable reverse proxy whose control plane replicates the
-- configuration and whose Kubernetes controller feeds it.
--
-- A method that changes shared state is a function from a record to the new record and the result;
-- what Go draws at random, the clock, the hashes and sort.Slice are arguments. Fixed-width integers
-- are bit patterns below 2 ^ w, with the wrap-around written out (Common.Words). A loop is a recursion
-- on what it runs over, or on the rounds that it has left: sort.Search on the length of its range, the
-- loop of itoa on the number that it prints, which is more than its digits.
--
-- Proxy is the data plane, server/internal/proxy. The router compiles routes and groups into a table
-- and finds the route of a request (Proxy.Routing, router.go and table.go, with the matching rules of
-- server/internal/model/group.go). The request handler chooses among weighted destinations by a random draw (Proxy.Selection, SelectDestination of endpoint.go) or by the pinning
-- ring (Proxy.Pinning, pinning.go), asks the circuit breaker of the destination (Proxy.Circuit,
-- circuit.go), has a balancer pick one of its endpoints (Proxy.Balancing, balancer.go), and sends the
-- request through the retrying transport (Proxy.Retry, retry.go). The outlier detector (Proxy.Outlier,
-- outlier.go) counts the responses of each endpoint, and takes failing endpoints out of use for a
-- time; the health checker does so by its probes (Proxy.Health, health.go). Model holds the reference
-- to a destination (server/internal/model/destination.go) that they share.
--
-- Store is the persistence of the control plane: Store.Types has the resources, events and errors of
-- server/internal/store/store.go and server/internal/model, Store.Memory the in-memory
-- implementation of the interface, server/internal/store/memory/memory.go. The configured entities
-- are opaque but for their IDs (`Entities`). Store.Bolt is the persistent implementation
-- (server/internal/store/bolt/bolt.go): Store.Bolt.Sealed its encrypted buckets, with the encryption
-- of Store.Encrypt (server/internal/encrypt/encrypt.go), Store.Bolt.Mode the check of the
-- encryption marker, Store.Bolt.Commands its ApplyCommand and Store.Bolt.Dumping its Dump and Restore. It rests on bbolt and encoding/json as Store.Platform states
-- them, and its specification is the in-memory store (Store.Bolt.Refining). Raft turns the writes of the
-- replicated store into log entries and applies them on each node
-- (server/internal/store/raftstore/raftstore.go and server/internal/raft/fsm.go).
--
-- Resolve substitutes the secrets in a snapshot that is served (server/internal/resolve/resolve.go).
--
-- Controller is the Kubernetes controller, clients/controller/internal: Controller.RefGrant decides
-- which references across namespaces a route may make (refgrant/checker.go), Controller.Dedup detects
-- routes that catch the same requests (dedup/detector.go), and Controller.Batcher gathers the applied
-- changes into snapshots of the control plane (batcher/batcher.go).
--
-- Not modelled are the input and output: sockets, TLS, HTTP, the libraries of bbolt and Raft,
-- Kubernetes, Redis, CEL, the command lines, logging and metrics. The interleaving of two calls inside one method is not
-- modelled either: each method is one step, as the mutexes make it where there are any.
pub mod Common
pub mod Model
pub mod Proxy
pub mod Store
pub mod Raft
pub mod Resolve
pub mod Controller
