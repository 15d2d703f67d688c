-- ===== src/Lib.antt =====
-- A verification library for HELBOOT, a network-boot and unattended-installation server.
--
-- The program and its models, path by path (the Go sources are under backend/):
-- - backend/internal/network: the DHCP address pool (leasepool.go, Network/LeasePool), the DHCP
--   server of Mode B (dhcpserver.go, Network/DhcpServer), ProxyDHCP of Mode A (proxydhcp.go,
--   Network/ProxyDhcp) and the PXE options (pxe.go, Network/Pxe). Messages are the records of
--   Network/Message: their wire format is the library's, and building a reply from a request is
--   the argument `new_reply`. The table of observed clients is Network/Observer (observer.go), and
--   the path that a TFTP request reaches is Network/Tftp (tftp.go).
-- - backend/internal/netutil: NormalizeMAC (Network/Mac).
-- - backend/internal/model: the records of Model. backend/internal/store: one module of Store for
--   each table (users.go is Store/Users, and so on). Store/Db holds the record of all tables; each
--   statement is a function from the database to a Result. The constraints of
--   backend/internal/db/migrations, with foreign keys on, are part of the statements. Rows stand
--   with the newest first, which is ORDER BY id DESC.
-- - backend/internal/db: the migrations at start-up (db.go, Migrations).
-- - backend/internal/provider: the settings schema (schema.go, Provider/Schema, and
--   Provider/Schema/Loading for what a provider is loaded with) on the values of a JSON or YAML
--   document (Provider/Value), the manifests (provider.go, Provider/Manifest) and
--   the registry that is loaded from directories (registry.go, Provider/Registry).
-- - backend/internal/iso: names of image files and volume identifiers (Iso, Iso/Image), the choice
--   of a provider for an image (Iso/Matching), and import and scan of the library (Iso/Library).
-- - backend/internal/backup: import of an archive and the restore at the next start (Backup).
-- - backend/internal/answer: the rendering of a template, and what it is rendered with (answer.go,
--   Answer); Api/AnswerPreview is the preview of an answer file (handlers_profiles_answer.go).
-- - backend/internal/boot: what a host boots with (install.go, Boot/Context and Boot/Script), and
--   the handlers of boot scripts, discovery and reports (boot.go and install.go, Boot/Serve), and
--   of answer files and cloud-init seeds (install.go, Boot/AnswerFile); Boot/Chain follows one
--   installation through them.
-- - backend/internal/api: the table of routes, with those of the boot endpoints (server.go,
--   Api/Routes), the gate of each (middleware.go, Api/Access), responses (respond.go,
--   Api/Respond), and the handlers of hosts, installations, profiles, users, sign-in, the
--   network and the first-run wizard (Api/Hosts is handlers_hosts.go, and so on). A handler is a
--   function from the database and the request to a response and the new database; its error
--   returns leave the database that the Go code leaves there.
-- - backend/internal/logging: the ring of recent entries (ring.go, Logging).
--   backend/internal/service: the supervisor's waits (manager.go, Service).
-- - backend/cmd/helboot: the restore of DHCP leases at start-up (services.go, Cmd/LeaseRestore,
--   whose OneHolder follows a pool from start to start) and which network services start from
--   the stored settings (Cmd/Services).
-- - The parts of Go's library that results depend on are written out: path/filepath (Filepath),
--   sort.Slice (Sorting) and strconv.Atoi (Strconv).
--
-- The parts interact through the database: the API queues an installation, the boot endpoints
-- serve and finish it, and the pool writes its leases through to a table that the next start
-- reads. The API stores the network settings and stages a backup; both take effect at the next
-- start, which Cmd/Services and Backup/Restore follow through.
--
-- Time is a number of nanoseconds; the store cuts an instant to whole seconds (Time). The pool's
-- scan takes a number of rounds, and its counter wraps at 2 ^ 32 as in the source: a round for
-- each address of the range and one more are enough where the range ends before 255.255.255.255.
-- Other loops are structural. Integers of a document are those of an int64, and a lease time wraps
-- at 2 ^ 64 nanoseconds as time.Duration does. A panic is a result of its own: rendering the
-- configuration `null` and comparing two lists or objects panic, and recoverPanics of
-- backend/internal/api/middleware.go answers 500.
--
-- Parameters: the library's reply constructor, password hashing, fresh tokens, JSON, YAML and
-- templates, the reading of addresses (net.ParseIP), file patterns (path.Match), SHA-256, the
-- opening of ISO images, the check of a database file, scripts of SQL, and the instants of the
-- clock. Theorems on sequences of handlers let each handler run to its end before the next
-- begins; Api/Installations/Race is about two that run at once. Failures of the disk are not
-- modelled beyond the results that a directory, a file or an archive entry is given with. Where
-- Go visits a map in no fixed order, the keys differ and the writes commute, so the model takes a
-- list.
--
-- Not modelled: the frontend, the files that are served (ISOs and what is inside them, boot
-- assets), the export of a backup, the configuration, the scripts of the migrations, and the
-- handlers of ISOs, providers, boot media and the system. The rate limiter of logins counts in
-- float64, which has no exact model here: its answer is an argument of the login.
pub mod Prelude
pub mod Time
pub mod Migrations
pub mod Model
pub mod Filepath
pub mod Sorting
pub mod Strconv
pub mod Store
pub mod Network
pub mod Provider
pub mod Answer
pub mod Boot
pub mod Cmd
pub mod Api
pub mod Logging
pub mod Backup
pub mod Iso
pub mod Service
