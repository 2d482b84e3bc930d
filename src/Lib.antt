-- ===== src/Lib.antt =====
-- onboardd: network onboarding of an appliance over NetworkManager, in Go.
--
-- The engine turns snapshots of NetworkManager into state transitions, the controller turns these
-- into entering and leaving temporary provisioning, and the supervisor restarts the controller.
-- A manual recovery request reaches the controller through a coalescing request set. Changing the
-- network goes through protected transitions, which try a candidate profile behind a
-- NetworkManager checkpoint and record it as the durable choice only once it is accepted. The
-- captive manager sets up and removes what temporary provisioning needs. The adapter decides which
-- profiles a transition enables, rewrites and deletes. The setup flow offers all this to the browser:
-- its service keeps the one slot for a change of the network, and its backend runs the change as a
-- protected transition and then leaves captive mode. The web interface lets a browser reach the
-- service once its session, token and origin are checked. The configuration resolves and checks what all
-- of them are given. The health signal follows the controller, and the notifier reports it.
--
-- Which file models which part:
--   Connectivity: internal/connectivity/policy.go (Requirement, Observation, Evaluate).
--   Appliance/Types: internal/appliance/types.go.
--   Appliance/Evaluate: `evaluate`, `hasAutoconnectProfile`, `sameState` of
--     internal/appliance/engine.go.
--   Appliance/Engine: `Engine.run`. Its variables are the record `Loop`, a round of its select is
--     `round`, its closures are `emit`, `stop_grace` and `inspect`/`settle`/`report` (`reconcile`).
--   Appliance/Observer: `NetworkManagerObserver.Snapshot`, `profileMode`, `normalizedDeviceState`.
--   Appliance/Controller: `Controller.Run`, `applyRecovery`, `actionFor`, `apply` of
--     internal/appliance/controller.go. The calls that it makes are logged in `events`.
--   Appliance/Supervisor: `Supervisor.Run`.
--   NetworkManager/Types: internal/networkmanager/types.go, and `accessPointSecurity` of wifi.go.
--   NetworkManager/Settings: internal/networkmanager/settings.go, the builders and their checks.
--   NetworkManager/Autoconnect: `autoconnectUpdates` and `selectMode` of
--     internal/networkmanager/transitions.go.
--   NetworkManager/Reader: `profile` of internal/networkmanager/objects.go, and the variant readers
--     of properties.go.
--   NetworkManager/Store: the listing, the deletions and the checkpoint checks of
--     internal/networkmanager/client.go, and `addAndActivate` of transitions.go.
--   NetworkManager/Rebuild: `rebuildOwnedSettings` of internal/networkmanager/settings.go and
--     `updateAutoconnect` of transitions.go.
--   NetworkManager/Finalize: `FinalizeTransition`, `deleteSupersededProfiles` and
--     `supersededProfiles` of the same file.
--   Recovery/Requests: `Requests` of internal/recovery/control.go.
--   Recovery/Addr, Client, Exec, Plan, Transition, Attempts: internal/recovery/transitions.go.
--     `Client` is the interface to NetworkManager, `Run` logs each call with its answer,
--     `Transition` is `runTransition` and what it calls, `Attempts` its three callers.
--   Recovery/Protocol: the checkpoint protocol as a state machine over logged calls; it is the
--     specification that `runTransition` is held against, and models no code.
--   Captive/Manager: internal/captive/manager.go.
--   Captive/Session: `Provisioner` and `ProvisioningSession` of internal/captive/provisioning.go.
--   SetupFlow/Types: internal/setupflow/types.go.
--   SetupFlow/Slot: the state of `Service` of internal/setupflow/service.go and the methods that
--     change it; SetupFlow/Slot/Reach has the steps and the runs. A goroutine of an operation ends
--     with the step `finish`.
--   SetupFlow/Reads: the lists and the start methods of `Service`.
--   SetupFlow/Backend: `NewNetworkBackend`, the lists and the checks of
--     internal/setupflow/network.go; SetupFlow/Backend/Change has its methods, over the attempts of
--     Recovery/Attempts and the manager of Captive/Manager.
--   WebUi/Guard, Exchange, Api: internal/webui/api.go. `Guard` has the checks, `Exchange` what the
--     handlers share, `Api` the handlers and `ServeHTTP`.
--   WebUi/Handoff: `handoffFromConfig` of internal/webui/options.go and `browserHandoff` of api.go.
--   AppConfig/Types, Validate, Resolve: internal/appconfig/config.go.
--   Observability/Health: internal/observability/health.go.
--   Observability/Notifier: internal/observability/notifier.go.
--   Prelude and GoError: tests, lists, sets, stable sorting, int64 values, and Go's errors.
--
-- How the code is read: a goroutine's loop is a state and a step for each case of its select; what
-- the environment answers (a snapshot, the result of a D-Bus call, whether a send beats the
-- cancelled context) comes with the input of the step, so a run is a list of inputs and every
-- order of events is covered. Code outside the repository (NetworkManager, `net/netip`,
-- `encoding/hex`, random bytes) is a parameter. Numbers are natural numbers; the uint64 sequence
-- number wraps at 2 ^ 64.
--
-- Fuel: `Supervisor.run` has `max_restarts + 1` rounds, which are proved to be enough. The poll of
-- `waitForConnection` ends with its context, so the number of its ticks is a parameter, and the
-- theorems hold for every number.
--
-- Not modelled: the D-Bus calls, the reading of devices and the signal plumbing of
-- internal/networkmanager, the control socket, the servers and the packet filter of
-- internal/captive, the lifecycle log, internal/discovery and internal/cli are I/O; the
-- assets and options of internal/webui and the templates of internal/appconfig are left for later.
pub mod AppConfig
pub mod Appliance
pub mod Captive
pub mod Connectivity
pub mod GoError
pub mod NetworkManager
pub mod Observability
pub mod Prelude
pub mod Recovery
pub mod SetupFlow
pub mod WebUi
