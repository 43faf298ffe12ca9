-- ===== src/Lib.antt =====
-- The runpod-jobrunner repository starts a job on a rented RunPod pod, follows it to its end, and
-- must neither pay for two pods nor leave one behind. These modules model its controller side, and
-- prove what its parts promise.
--
-- Lifecycle models src/runpod_jobrunner/lifecycle.py, the state machine of a run. A call of
-- `LifecycleController` is a function from the durable state and the provider's world to a `Step`:
-- the result, and the commits and provider effects in order. `State` holds the JSON projection as
-- typed records, `Step` the results and operations, and `Provision`, `Start`, `Closeout`, `Absence`,
-- `Delete`, `Failures` and `Controller` the handlers, by their names in the source; a long method is
-- cut into one function per branch. `History` says what a run can go through: any calls, in any
-- order, at any times, with any provider, each cut off by a crash after any number of its actions.
-- `Invariant` is what every history keeps; `Safety`, `Durability` and `Deadline` are the theorems.
-- `Pods` joins the lifecycle to the provider fake: a system is a run on disk and the resources that
-- the fake holds, and a history of it may lose the outcome of any effect; its `Closing` follows a
-- deletion to its end.
--
-- Provider models the interface of src/runpod_jobrunner/provider.py, a record of functions over a
-- world, with what each may return or raise; Provider/Memory is its fake, `MemoryRunPod`. Amounts of
-- money and rates are exact, in billionths.
--
-- RunPod models src/runpod_jobrunner/runpod_provider.py. `Parse`, `Http` and `Create` are
-- `RunPodHTTP`, over a function that opens a request; `Secrets`, `Spec`, `Observation`, `Operations`
-- and `Admit` are `RunPodProvider`, over the interface of its client and the policy files of an
-- operation. It is the lifecycle's provider, `runpod_provider`. Json is what Python's parser returns.
-- An exception that the client does not catch, of the transport or of the parser, goes through the
-- provider as `escaped` and ends the lifecycle's call, which commits nothing for it.
--
-- RunStore models src/runpod_jobrunner/run_store.py: the journal as bytes, the snapshot, the commit
-- and the places where a crash may cut it off, and the creation of a run. The UTF-8 decoder and the
-- JSON encoder and parser of Python's library are a parameter, `Codec`; what is relied on is
-- `CodecLaws`, and for the beginnings of an event's text `CutLaws` of `Fragments`, which says where a
-- JSON text without NaN and infinities can be cut off and what the decoder and the parser raise
-- there. Whether such a cut is a torn tail is for the program's own test.
--
-- Budget models src/runpod_jobrunner/budget.py, the ledger of one grant; Names its identifier
-- pattern. Transfer models manifests, remote paths and `LocalTransfer` of
-- src/runpod_jobrunner/transfer.py; PosixPath is the part of Python's `PurePosixPath` that it uses.
-- The hash function is a parameter. Identity models the protocol offers of
-- src/runpod_jobrunner/identity.py and their comparison in src/runpod_jobrunner/application.py;
-- LaunchAuthorization models src/runpod_jobrunner/launch_authorization.py.
--
-- Application models `SupervisorEngine.drive` of src/runpod_jobrunner/application.py, which calls the
-- lifecycle and the executor until a run is closed. Its loop has `max_steps` passes, as in the
-- source, so it is recursion on that number. The decimal text of a number in Provider/Memory recurs
-- on fuel one above the number, which is enough, as each step goes on with a tenth. There is no other
-- fuel.
--
-- StatusHttp models src/runpod_jobrunner/status_http.py: `Project` is the projection of a stored
-- status, `Serve` the handler of a request. Python's conversions of numbers, its clock and its
-- encoder are parameters.
--
-- Files, locks, fsync and atomic renames are taken to do what they promise, and time is what a call
-- is given. Not modelled: `JobRunner` and `LocalRunnerExecutor` of application.py, the remote runner
-- and executor (src/runpod_jobrunner/runner.py, remote_executor.py), bundles, schemas,
-- acknowledgements, the sockets of the status server, systemd and the command line; discovery and
-- fetching, and the rclone transfers. A crash inside the write of a policy file of runpod_provider.py
-- is not modelled either.
mod Prelude
pub mod Provider
pub mod Lifecycle
mod Names
pub mod Budget
pub mod RunStore
pub mod PosixPath
pub mod Transfer
pub mod Application
pub mod Identity
pub mod LaunchAuthorization
mod Json
pub mod RunPod
pub mod StatusHttp
