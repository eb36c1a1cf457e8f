-- ===== src/Lib.antt =====
-- goREgo: a caching proxy and a cluster of executors for the Bazel remote execution API.
--
-- A node runs gRPC services (pkg/server) over a store of blobs and action results (pkg/proxy, over
-- pkg/storage) and over a scheduler of operations (pkg/scheduler). `Execute` answers from the action
-- cache, hands the request to a less loaded peer (pkg/cluster), or enqueues a task; the workers
-- (pkg/execution) take the tasks, and report to the scheduler, which notifies the streams that
-- subscribed to the operation. The janitor (pkg/janitor) keeps the local cache within its limit.
--
-- What models what:
--   Base         lists, strings as lists of bytes, maps as association lists, errors as values;
--   Storage      pkg/storage/local.go. `FileSystem` maps paths to files; the answers of the operating
--                system are `PutFaults` and `ReadFaults`; `put_at`, `has_at`, `get_at` are the bodies of
--                `Put`, `Has` and `Get` at the path that `blob_path` gives; `Storage.Actions` has the
--                action results, `Storage.Held` what calls for any blob leave at a path, `Storage.Links` has `PutFile` over inodes, which hard links share, and
--                `Storage.Histories` sequences of calls, with the map that they are calls of.
--                pkg/storage/remote.go: the write stream of `Put` (`Storage.Remote`), and `Has` and `Get`
--                (`Storage.Downloads`);
--   Proxy        pkg/proxy/proxy.go: `proxy_put`, `proxy_has`, `proxy_get` are `Put`, `Has` and `Get`,
--                `put_both` is `putImpl` with its pipe between the two stores, `upload_attempts` the
--                retry loop of `putFileImpl`; `Proxy.Between` has sequences of calls. The remote store is a record of functions, `Remote`;
--                `Proxy.Actions` has the action results, and pkg/storage/null.go;
--   Scheduler    pkg/scheduler/scheduler.go: `Scheduler.State` has the struct, the operations that
--                pointers lead to, and the channels of the subscribers; `Names`, `Updates`, `Queue` and
--                `Subscriptions` have one function per method; `Events` makes each call a step;
--   Worker       pkg/execution/worker.go: the calls of the scheduler in `executeTask` (`Worker.Tasks`);
--                `stageDirectory`, `stageFile`, `buildTree` and `buildDirectoryProto` over file trees, with
--                a record of functions for the blob store (`Worker.Trees`). pkg/execution/persistent.go:
--                the frames of `writeProto` and `readProto` (`Worker.Framing`), and the manager of
--                persistent workers (`Worker.Persistent`), each section under a mutex as a function, with
--                what the system and the processes answer as a function of the log of what was done;
--                `execute` and the outcome of `runCommand`, with the steps as parameters (`Worker.Actions`);
--                `createOutputDirectories` and `uploadOutputs`, over what the disk answers for a path
--                (`Worker.Outputs`); `buildInputMounts` and `materializeInputsForUnsandboxed`
--                (`Worker.Inputs`); `runWorker` (`Worker.Loop`);
--   Sandbox      pkg/sandbox/sandbox.go: the command line of linux-sandbox (`wrap_command`), over the
--                configuration's record in pkg/config/config.go;
--   Server       pkg/server/execution.go: `Execute` and `WaitExecution` up to the stream of updates
--                (`Server.Execution`), the stream, with the calls of other goroutines between its steps
--                (`Server.Streams`), and requests at a peer, with the metadata that says
--                who forwarded them (`Server.Relays`);
--                pkg/server/actioncache.go (`Server.ActionCache`): its two handlers;
--                and pkg/server/bytestream.go (`Server.ByteStream`): `read` is `Read`, `write` is `Write`;
--                pkg/server/server.go (`Server.Blobs`): `FindMissingBlobs` and `BatchUpdateBlobs`, also over the
--                local store (`Server.Blobs.OnDisk`);
--   Cluster      pkg/cluster/cluster.go: `SelectBestPeer`, with floating-point division as a parameter;
--                the callbacks of memberlist as functions on the map of peers (`Cluster.Membership`), over
--                Go's `SplitHostPort` and `JoinHostPort` (`Cluster.Addresses`); `filterKnownPeers`;
--                `discoverDNS` with its retries (`Cluster.Lookups`);
--   Janitor      pkg/janitor/janitor.go: `Cleanup`; the walk, the sort and the answers to removals are
--                arguments; `Notify` and `Run` as turns of a loop with timers (`Janitor.Debounce`).
-- Methods that hold a mutex are single steps, and histories of calls are lists of events in the order
-- in which the lock was taken. The clock, the identifiers drawn, and the names of temporary files are
-- arguments. Loops go over lists and over the number of attempts; the loop of `Read` runs on fuel, one
-- more than the bytes there are, since each turn but the last sends a byte; `stage_directory` runs on
-- fuel above the depth of the tree, since a directory is staged by one turn more than its children.
--
-- Not modelled: the wire (gRPC, protobuf messages, compression), the memberlist protocol and the loop
-- that broadcasts a node's load, the handlers of pkg/server/operations.go, which only call the
-- scheduler, configuration, telemetry and the start of the process (cmd/gorego).
pub mod Base
pub mod Storage
pub mod Proxy
pub mod Scheduler
pub mod Worker
pub mod Cluster
pub mod Server
pub mod Janitor
pub mod Sandbox
