-- ===== src/Lib.antt =====
-- The SANlight mesh MQTT gateway: a verification library beside sanlight_mesh/.
--
-- The gateway takes commands from MQTT, queues them, and runs each as a Bluetooth Mesh exchange with
-- the lamps. What is modelled, file by file:
--
--   Base             numbers, Booleans, lists, and exceptions as values (`Result`, `>>=`)
--   Value            JSON values as `json.loads` returns them; an object has each key once
--   Protocol         sanlight_mesh/protocol.py and sanlight_mesh/constants.py. Bytes is Python's
--                    `bytes` with `int.from_bytes` and `int.to_bytes`; Opcode the vendor prefixes;
--                    Brightness the set-max, blackout and get-max PDUs; Live the lamp time and
--                    brightness; Clock the set-uptime message and times as texts; Daylight the decoder of stored curves and of the two daylight
--                    statuses. Their child modules hold the proofs.
--   GatewayProtocol  sanlight_mesh/gateway_protocol.py: Names the regular expressions and
--                    `normalize_node`; Decode the function `decode_command` in the order of its
--                    statements, each exception included
--   CommandQueue     sanlight_mesh/gateway_queue.py: every method of `GatewayCommandQueue`
--   Executor         sanlight_mesh/gateway_executor.py: the commands; Parse reads what the processes
--                    printed, Errors classifies failures, Read and Clock are the commands for several
--                    lamps, Execute is `execute`
--   Stateful         code with a state and exceptions, and the rules for its pre- and postconditions
--   MaxBrightnessPolicy
--                    sanlight_mesh/max_brightness_policy.py
--   Watchdog         sanlight_mesh/mesh_watchdog.py: the settings and the assessment of a probe; Incident
--                    is `eligible_incident` and `recovery_history`; Run is `run_watchdog` as a log of
--                    calls, with Run.Probe for the probe and the recovery
--   GatewayStore     sanlight_mesh/gateway_store.py: deduplication, commands in flight, mesh health; Dict
--                    is Python's `dict`; Node the cached state of a lamp
--   Runtime          sanlight_mesh/bluez_runtime.py: the brightness transactions of `BluezRuntime`; Send
--                    and Receive are its methods, System the events of the main loop
--   Service          sanlight_mesh/gateway_service.py: Message is `on_message`; Worker what `_worker_loop`
--                    does with a command, with Worker.Reported for the readings; Report `make_result` and
--                    publishing; Run state and exceptions
--   SequenceRecovery sanlight_mesh/sequence_recovery.py: `advance_node_sequence`, and the stop and start of
--                    the Mesh service around it
--   WriteRate        sanlight_mesh/traffic_safety.py
--   ClockWrite       sanlight_mesh/gateway_executor.py: the verification in `_clock_write`
--   Tests            concrete runs
--
-- `decode_command` produces a `GatewayCommand`; the MQTT callback puts it into the `CommandQueue`;
-- the worker takes it out, replaces a set-max by the newest one for its target, stores it as in flight,
-- and executes it. An execution runs the program of Runtime as a process.
--
-- Numbers. Python's integers are ℤ over the native numbers where they may be negative, and ℕ
-- otherwise. A time is a number of microseconds since year 1 in UTC. A byte is a number below 256,
-- by hypothesis where it matters. Every loop is structural recursion on a list, but for the three of
-- the watchdog that wait: these have fuel for one round more than there are pauses before their deadline,
-- which is enough (Watchdog.Run.Waits). Two loops of the source build a list at its end and the model builds it from the front.
--
-- Parameters. `utf8` is the UTF-8 decoder of the interpreter, which may refuse; `fromisoformat` is
-- `datetime.fromisoformat` and `isoformat` is `datetime.isoformat` in whole seconds and UTC;
-- `fromhex` and `hex` are the methods of `bytes`; `message` is the text of an error; `loads` is
-- `json.loads`, which returns a value, raises an error that is caught, or raises one that is not;
-- `meanwhile` is what other threads do to the queue at a point where its lock is not held. The
-- `Environment` of the service, of the executor and of the watchdog answers each call of a clock, a
-- file, the broker and a process from the log of what has been done, so the theorems hold for every sequence of failures.
--
-- Not modelled: files, locks, D-Bus, processes, threads and the MQTT client themselves
-- (sanlight_mesh/state.py, locking.py, mqtt_transport.py, cli.py and the rest of bluez_runtime.py), and
-- the text of log and error messages: an error keeps its class and the check that raised it. Nor are
-- sanlight_mesh/blackout_state.py, identity_recovery.py, gateway_config.py, cdb.py but for
-- `validate_destination`, which read files. The executor and the watchdog leave out the fixed part of
-- the arguments of a process, and the watchdog the text in which it finds the transmit counter.
--
-- Other threads act on the queue, in `coalesce_set_max`, between the draining and the restoring only,
-- and the look-ups of `on_message` (result, in flight, pending) are one step with respect to the worker:
-- other interleavings of the two threads are not modelled.
pub mod Base
pub mod Value
pub mod Stateful
pub mod Protocol
pub mod GatewayProtocol
pub mod CommandQueue
pub mod MaxBrightnessPolicy
pub mod Watchdog
pub mod GatewayStore
pub mod Runtime
pub mod Service
pub mod SequenceRecovery
pub mod WriteRate
pub mod ClockWrite
pub mod Executor
pub mod Tests
