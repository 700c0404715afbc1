-- ===== src/Lib.antt =====
-- A model of pia-wg-config-generator, which makes WireGuard configs for Private Internet Access
-- and keeps a gluetun container supplied with a live one.
--
-- The program's parts, and the files that model them:
--
-- * Outage models the outagePolicy of alert.go: when an alert is due. Outage/Notices runs it over
--   histories of failures and healthy samples.
-- * Lifetime models pia/lifetime.go: the record of how long registrations lived, its file, and the
--   refresh cadence (LifetimeStore.Load, Save, RecordNewRegistration, RecordObservedLoss;
--   MeasuredLifetime, ExpectedExpiry, SafeRefreshInterval). Clock has time.Time and time.Duration,
--   Clock/Float the two places where the code goes through float64.
-- * Tunnel models pia/health.go: CheckTunnelViaControlServer over the replies of gluetun's control
--   server. WgConfig/Endpoint models ParseEndpointFromConfig.
-- * Refresh models refresh.go, the daemon that ties these together: Refresh/Schedule the proactive
--   timer and status.json, Refresh/Outcome what a sample or a failure changes, Refresh/Regenerate
--   the regeneration with its retries, Refresh/Loop the health tick, the adoption at startup and
--   the select loop. refreshRuntime is split into Settings, which stay, and Runtime, which changes.
--   Frame, Recovery, Regenerate/Kept, Retries and Storm count registrations; Regenerate/Success,
--   Regenerate/Works and Recovery/Works are about a recovery that works. Views takes a predicate of
--   what the daemon shows and does through every method, Views/Runs through whole runs; Secrets has
--   what redact hides, Monitored what the health check makes of status.json, Reported what a tick writes
--   there, Recovery when a health tick recovers (with Seen, what a sample changes), Planned when the next
--   refresh is due, HandOver what is handed to the port-forwarding daemon.
-- * Healthcheck models healthcheck.go: evaluateHealth over the files of the state directory.
-- * Regions models the server list of pia/pia.go: NewPIAClient, resolveRegionID, the maps of servers;
--   Regions/Fetch is getServerList.
-- * WgConfig/Generate models pia/wg.go: GenerateWithMetadata, with the config template written out;
--   Generate/Readback reads its endpoint back by WgConfig/Endpoint.
-- * Token models pia/token_cacher.go and GetToken of pia/pia.go, Token/Curl models
--   pia/token_fetcher.go: the curls that are tried, and the parse of what they print.
-- * Api/Requests models the HTTPS requests of PIAClient in pia/pia.go (executePIARequest, AddKey,
--   getTokenFromMetadataServer, downloadPIACertificate), Api/Requests/Generation which of them a
--   generation sends.
-- * Redact models pia/redact.go; Redact/Known is about the known secrets.
-- * AtomicWrite models atomicWriteFile of main.go and atomicWriteState of pia/lifetime.go, with the
--   files at each moment; elsewhere a write is the error that it returns.
-- * Cli models what main.go does with its flags: parseIPv6Mode, resolveCredentials, runGenerate, and
--   the commands of runHook and runConfigHook; Cli/Listing runRegions. Cli/Flags has the flags of the
--   daemons with their defaults, Cli/Start what runRefresh, runPF and runDaemon make of them before
--   their loops; Refresh, PortForward/Daemon and Daemon go on from there.
-- * Alerts models the alertDispatcher of alert.go: Alerts/Worker its queue, senders and worker as a
--   step relation, Alerts/HookEnv the environment of a hook, Alerts/Buffer the buffer of its output.
-- * Daemon models runDaemon of main.go: a round of its loop over the world of that round
--   (Daemon/World), with a renewal as one step between two rounds. Daemon/Served, Round and Exit have
--   its theorems.
-- * Docker models dockerEndpoint and the restart of a container (main.go).
-- * PortForward models pia/pf.go and waitForGateway, PortForward/Daemon the lease of main.go and the
--   poll loop of pf_daemon.go. Daemon/Turns has the poll loop and the renewal goroutine step by step,
--   with a renewal between any two effects of a poll and polls between its snapshot and its bind.
--   PortForward/HandOver puts that daemon beside the refresh daemon at one state directory, with the
--   effects of the one and the polls of the other in any order, a poll as one step.
-- * Status has the record of status.json (main.go, daemonStatus), Status/Json its MarshalJSON, Api
--   the results of PIA's API.
-- * Base has lists, texts and integers; Tests has the theorems at concrete inputs.
--
-- The world. Each call to the outside (clock, PIA, files, Docker, control server, random numbers)
-- is answered by an Env, a function of the number of the call, so a theorem for every Env is one
-- for every behaviour of the outside. What was done to the outside stands in a log.
--
-- Numbers. A Duration is an int64 of nanoseconds with its wrap-around written out, Time.Sub
-- saturates, counters of type int wrap at 64 bits. A Time is an integer of nanoseconds since Go's
-- zero time. Texts are lists of bytes and are ASCII. The loops of the program recur on the
-- attempts, rounds or elements left. Only waitForGateway has fuel: one dial more than its timeout
-- has nanoseconds, since it sleeps for a nanosecond at least between two dials.
--
-- Not modelled: the HTTP, TLS and DNS clients, JSON encoding as text (a file is what its
-- decoder makes of it), the engine of package regexp, shells and Docker themselves, verbose logging,
-- the parsing of arguments by urfave/cli. The daemons take the redacted text of an error as an
-- argument, which Refresh/Secrets fills.
pub mod Base
pub mod Clock
pub mod Outage
pub mod Lifetime
pub mod Tunnel
pub mod Api
pub mod Status
pub mod WgConfig
pub mod Refresh
pub mod Healthcheck
pub mod Regions
pub mod PortForward
pub mod Docker
pub mod Token
pub mod Alerts
pub mod Daemon
pub mod Redact
pub mod AtomicWrite
pub mod Cli
pub mod Tests
