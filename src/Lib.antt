-- ===== src/Lib.antt =====
-- jprq-bek: a Kubernetes operator that runs one agent pod for each JprqTunnel, and the agent, which opens
-- the tunnel at a jprq server. This library models the operator's decisions, the agent up to its
-- connections, and how each is started.
--
-- The parts, and how they meet. A watch event becomes requests for tunnels (Controller/Watches). A
-- request reads the tunnel, reads its agent pod, its token Secret and its backend Service, decides what
-- to do with the pod, and writes the tunnel's status (Controller/Reconcile). The agent ends with an exit
-- code, which kubelet reports in the pod's status and which the operator turns into a verdict
-- (Controller/Classify). The address in the status comes from a domain that the operator fetches once
-- (JprqConfig). The agent reads its command line and the environment that its pod gives it
-- (Agent/Command), loads its token and the remote configuration (Agent/Config), and opens the tunnel
-- (Agent/Client). The operator's process is put together from its flags (Manager).
--
-- Which file models what:
--   Api               api/v1alpha1/jprqtunnel_types.go: the fields of a JprqTunnel; constants are data types;
--                     Api/Admission is for the validation markers of a spec
--   Kube              the fields of Pods, Secrets, Services and EndpointSlices that are read or written,
--                     and the parameters that stand for libraries, the API server and the network
--   Agent/ExitCodes   cli/jprq/exitcodes.go
--   Agent/ServerError cli/jprqc.go, exitCodeForServerError
--   Agent/Host        the parameters that stand for the machine of the agent, and its files
--   Agent/Config      cli/config.go: Load and Write
--   Agent/Number      strconv.Atoi
--   Agent/Command     cli/main.go: main, parseFlags, argOrEnv, handleAuth, handleServe
--   Agent/Client      cli/jprqc.go: Start, serveHealth, handleEvent
--   Manager           cmd/main.go: the options, and the steps of main
--   JprqConfig        internal/jprqconfig/resolver.go: NewResolver, Domain, URLFor
--   Controller/Classify   internal/controller/classify.go: classifyExit, agentStatus, classifyPod
--   Controller/Pods       internal/controller/pod.go: specHash, tokenDigest, desiredPod
--   Controller/Json       encoding/json, for the struct that specHash marshals
--   Controller/Run        the state of a reconciliation, and its steps; Ends and Calls reason about them
--   Controller/Token      internal/controller/jprqtunnel_controller.go, checkToken; Gate is its outcome
--   Controller/Backend    the same file: checkBackend, resolveServicePort, hasReadyEndpoint
--   Controller/Actions    the same file: setNotReady, agentConfig, applyVerdict, and going active
--   Controller/Settle     the same file: reconcile, once everything is read
--   Controller/Reconcile  the same file: agentPod, the reading half of reconcile, patchStatus, Reconcile
--   Controller/Conditions the same file: the conditions that the status carries
--   Controller/Steady     the same file: two requests, one behind the other
--   Controller/Cluster    the same file: requests of many tunnels, as steps of a cluster
--   Controller/Watches    the same file: SetupWithManager, serviceRefKey, tunnelsFor..., requestsByIndex
-- Base holds the tests, case lemmas and texts that they share. The modules named Tests hold the theorems at
-- sample objects.
--
-- How the code is modelled. A handler of the operator is a function from a state to an outcome and a
-- state: the tunnel's status, which the code changes through a pointer and so keeps on an error; the domain
-- resolver; and the log of the calls that leave the process, in their order. An outcome is a value, an
-- error with its text, or a nil dereference. The agent's main is a function from the arguments and the
-- files to a process that has ended, with its code and message, or goes on with the client to start; Start
-- is a function of what the event server does, to the exit code, the health flag and the connections that
-- were handed on. The start of the manager is its list of steps, each with its error. One Go function is
-- often several definitions, one for each answer that it branches on. The integers of the operator are
-- only compared and printed, so they are ℤ without wrap-around; strconv.Atoi is for ints of 64 bits, with
-- what it gives out of range. Texts are sequences of characters, and tokens and the encoded struct are
-- bytes; a text is taken to be valid UTF-8. The health endpoint answers only while the process lives. Go's maps are association lists. There is no fuel but the
-- number that itoa prints, which has at most as many digits as its fuel.
--
-- Parameters. Kube.External: SHA-256, the verb %q, NamespacedName.String, SetControllerReference,
-- SetStatusCondition and DeepEqual. Kube.Answers: the answers of the API server and of the network, which
-- stay the same during one request; each of them is arbitrary. Controller/Conditions holds what is
-- documented of SetStatusCondition, for the theorems that need it. Api/Admission: whether the API server
-- finds that a pattern matches a text. Watches: the answer to a List by field index, and the label under
-- which an EndpointSlice names its Service. Agent.Host: the environment, paths, files, the encoding of the
-- stored token, and the remote configuration. Agent.Client.Session: what the event server does; the two
-- bytes into which binary.LittleEndian.PutUint16 puts a port are an argument of handle_event.
-- Manager.Startup: the errors of controller-runtime.
--
-- Not modelled: the parsing of the manager's flags, the logs and what is printed beside the messages
-- with which the agent ends, the clock, signals, generated deep copies, the files that the command serve
-- offers, the interleaving of the agent's goroutines, and the copies of azimjohn/jprq that frame events,
-- copy connections and debug them (cli/jprq/events.go, cli/jprq/bind.go, cli/debugger), and tests. Two
-- requests for one tunnel do not overlap, as controller-runtime promises.
pub mod Base
pub mod Api
pub mod Kube
pub mod JprqConfig
pub mod Agent
pub mod Controller
pub mod Manager
