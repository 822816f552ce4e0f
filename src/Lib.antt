-- ===== src/Lib.antt =====
-- The zone controller of innerstack, its tasks' agent and its gateway: their decision logic, modelled
-- and verified.
--
-- A zone leader places the replicas of an app on hosts (the scheduler), gives each replica an address
-- of its host's private network (IPAM) and host ports, records the progress of a deployment in a tree
-- of stages, and watches the hosts and replicas (the alerts). The API it serves checks an app's
-- configuration, and accepts each token once; its changes are recorded in an audit log. Inside a
-- container an agent runs an app's tasks, and a gateway serves the routes that the zone pushes to it.
-- Every part is a function from its state and what it reads elsewhere to its new state; locks are not
-- represented. A method holds its lock from its first read of the state to its last write, or, as the
-- writer of the audit log does, runs in the only goroutine that changes the state; the agent's calls of
-- `Run` and the ends of its processes are taken one after the other.
--
-- Scheduler.antt models internal/zonelet/scheduler (`ScheduleHost`, `ScheduleHostValid`). sort.Slice is
-- a parameter, of which only its documented contract is used, and so are the products of an integer
-- by the two floating-point caps.
-- Network/Ipam.antt, with its modules Hosts and Zone, models internal/zonelet/network/ipam.go:
-- `ZoneSetup`, `Restore`, `RefreshHostNetwork`, `AllocHostSubNetwork`, `flush` and the reads. The data
-- store's answers and the clock are arguments. Network/HostPort.antt models host_port.go; the random
-- numbers are an argument. The loops over a range of numbers are `first_from` of Network/Scan.antt,
-- whose count is the length of the range.
-- Inet.antt models pkg/inetutil/inetutil.go, with what it uses of Go's `net` written out for IPv4; the
-- reading of IPv6 texts is a parameter.
-- Alerts.antt models the state machine of one alert of internal/zonelet/alerts.go, Alerts/Passes.antt
-- the passes over hosts and replicas. What is written to the data store and sent to the webhook is
-- collected in lists. `alertNotify` sends nothing without a webhook, or with 16 deliveries in flight;
-- how many are in flight at each of its calls, which their own ends decide, is an argument.
-- ReplayCache.antt models pkg/inauth/replay_cache.go, the clock being an argument.
-- AccessToken.antt models `Verify` of pkg/inauth/access_token.go, which composes the checks of a token
-- with that cache. Keys, signatures and the decoding of base64 are parameters.
-- Config.antt models the checks of app configurations and task triggers of pkg/inapi/valid.go.
-- Stages.antt models the deployment stages of pkg/inapi/app.go with the two functions of
-- internal/zonelet/service_instance.go that advance them, and the normalisation of resource limits.
-- ZoneLoop.antt, with its modules Ports, Addresses, Place and Pass, models `schedulerRefresh` of
-- internal/zonelet/task_scheduler.go, one pass of the leader over hosts and apps, composed of the
-- scheduler, the IPAM, the host ports and the stages above, with `Flush`, `Refresh` and `store` of
-- internal/zonelet/types.go. What a pass reads of the data store is a record of arguments; the answers
-- to its writes, the clock and the random numbers are functions of a counter of such questions.
-- Audit.antt models the writer of internal/audit/audit.go for one zone, and Audit/Verify.antt `Verify`
-- of internal/audit/store.go. The hash of a record is a parameter, `digest`. The digits of an id above
-- the twelfth are taken with the number itself as fuel, which is more than it has digits.
-- Tasks.antt, with its modules Run and Report, models internal/inagent/task/task.go, the tasks of an
-- app inside its container: `Run`, the goroutine that waits for a process, and `OnStartupAggregate`. The
-- clock, the cron schedules and the starting of processes are arguments.
-- Gateway.antt models, of cmd/ingate/main.go, how a push is merged with the routes that the operator
-- configured and indexed (`domainFresh`, `appendLocalRoutes`), the choice of a proxy (`pickProxy`) and the
-- clamping of configuration values. The reading of URLs and directories is an argument.
-- Instance.antt, with its modules Resources, Version, Fill, Refs, Checks, Changes and Handlers, models the
-- calls of internal/zonelet/service_instance.go that deploy, change and delete an app's instance
-- (`AppInstanceDeploy`, `AppInstanceDelete`) with every check and helper, and the versions of specs of
-- service_appspec.go. A handler runs in a monad with the data store's entries and their versions, in
-- which a write is refused by the version it expects; the rights of the caller, the clock, failing
-- reads, the answers to writes, the syntax and order of semantic versions, the readers of CPU and byte
-- numbers, which use floating point, and the generation of values are a record of arguments. Names.antt
-- models the labels and versions of pkg/inapi/valid.go, Packages.antt the check of packages of
-- service_package.go.
-- Decimal.antt models the decimal texts that fmt prints; its fuel, the number itself plus one, is
-- at least the number of its digits. Prelude.antt and its modules hold the shared numbers, lists and
-- maps: a map is an association list whose order is that of a `range` loop. Sort.antt states the
-- contract of sort.Slice.
--
-- Not modelled: the other gRPC services and the data store behind them, the reads of instances with
-- their metrics, the hosts' daemon and its containers,
-- the agent inside a container but for its tasks, the gateway's handling of requests, the command
-- line tools, the web pages, metrics and logs.
pub mod Prelude
pub mod Decimal
pub mod Sort
pub mod Inet
pub mod Network
pub mod Scheduler
pub mod Alerts
pub mod ReplayCache
pub mod Config
pub mod Stages
pub mod ZoneLoop
pub mod Audit
pub mod Tasks
pub mod AccessToken
pub mod Gateway
pub mod Instance
