-- ===== src/Lib.antt =====
-- The server of the batch shutdown assistant (server/): agents on the managed computers register
-- with heartbeats and hold a socket, an administrator logs in and creates tasks, and the server
-- sends each task's commands over the sockets and collects the reports.
--
-- Files. Models: the enumerations and tables of server/models/models.py. Devices: the queries and
-- writes of the device table, and Devices/Dedupe the cleaning of it in server/database.py.
-- Database: the migration at the start, in the same file of the server. RateLimit:
-- server/api/ratelimit.py; RateLimit/Spec is what the limiter promises, one standing to each key,
-- and RateLimit/Refinement that the dict implements it. Audit: server/api/audit.py. Manager:
-- server/api/websocket_manager.py. Agent: server/api/agent_routes.py. Tasks:
-- server/api/task_routes.py. Sockets: server/api/ws_routes.py. Auth: server/api/auth.py and
-- server/api/auth_routes.py. Inventory: server/api/device_routes.py, with the list of devices in
-- Inventory/Listing. Monitor: the two loops and the first administrator of server/main.py.
-- Static: the sending of the web pages in the same file. Paths: the calls of os.path that it and
-- server/api/upgrade_routes.py make. Imports: server/api/import_routes.py, with the CSV file in
-- Imports/Csv. Addresses: IPv4 addresses as Python's ipaddress, which that file and the order of
-- the device list call, reads and prints them. Audit/Listing: server/api/audit_routes.py.
-- Tasks/Views: the task list and the view of a task of server/api/task_routes.py. Uploads: the
-- uploads of server/api/upgrade_routes.py and the clean-up of their directory; Uploads/Download
-- the downloads and the version that is read from the agent's program. Deploy:
-- server/api/deploy_routes.py, with the installation package as the files that are put into the
-- archive. System: the whole server, as a relation between its states. World is the state that
-- the handlers share, the database and the socket manager; Prelude has the shared helpers, with
-- texts, lists, dicts, errors, sorting and pages, and the removal of rows in its child modules.
-- In each component the file itself (and Handlers, Lifecycle, Accounts, Csv, Listing, Views, Spec
-- or Download below it) has the definitions, the other files below it the proofs (Sockets/Viewers
-- has the browser's socket with its lemma), and Tests the runs on concrete data. Definitions keep
-- the names of the functions; a function that is long is cut at its early returns, and the parts
-- are named for what they do.
--
-- How the parts interact. A handler is a function from the state it reads to its answer and the
-- next state. create_task writes the database, sends with the socket manager, and writes the
-- outcomes; the reports of the agents come through receive, which writes the result, the device's
-- hardware columns and the task, and broadcasts to the task's subscribers. A heartbeat is one
-- step, since the registration lock runs one at a time; an operation of the administrator on the
-- devices is one step too; opening a socket, each message and its end are steps of their own.
-- create_task commits four times, and a report up to three times; create_task of Tasks and
-- receive of Sockets are their runs without another handler between the commits. System puts the
-- handlers together: its state is a world with the handlers that are between two commits, and a
-- step is one handler, or its part up to its next commit: begin_task (the task is pending),
-- run_added (it runs, and the commands are sent), settle_flight (the outcomes are committed) and
-- finish_task (it fails if nothing was sent) for create_task, hear (the result), inform (the
-- hardware) and tell (the status of the task, and the news) for a report; any other steps may
-- come between them; Reach is any sequence of steps. A handler's other writes after a commit are
-- entries of the audit log and are in its step; the sends of one create_task, and those of one
-- broadcast, are one step. A stop of the server and its next start (restart: the tables are
-- migrated and cleaned, the sockets and the handlers under way are gone, and their tasks are kept
-- as interrupted, which is no part of the program) is a step that may come between any two
-- others, and so are the imports and the generated tokens. Logins, uploads, downloads, packages
-- and the turns of the maintenance loop, which write neither tasks nor devices, are not among the
-- steps. A step that takes ids from uuid4() assumes that no row has them yet, and that those of
-- one request are distinct.
--
-- A device is marked offline by the end of its socket, by a deletion and by the heartbeat check.
-- Time is a number of microseconds, and a handler has one time for all its calls of the clock.
-- The result of uuid4() is an argument; that ids are new or distinct is a hypothesis where a
-- theorem needs it. What the framework sends of a device's row is device_response, which the
-- operations on devices in Inventory leave to it. A table is a list of rows in the order of
-- insertion; a query that may raise on two rows raises in the model (multiple_results, answered
-- with 500), and so does a text that ASCII cannot write (unencodable). JSON values are kept as
-- the texts or records that the handlers use. Loops are structural recursion; only the digits of
-- a number are found on fuel, n + 1 for the number n, which is enough since each round divides by
-- ten.
--
-- Parameters. bcrypt and the JWT library are the fields of Crypto, the Unicode tables those of
-- Alphabet; `delivers` says of each socket whether a send succeeds, `loads` is json.loads of a
-- hardware report, `dumps` is json.dumps, `message` is the text of the address library's error,
-- `ilike` the database's test of a text against a pattern, `strip` and `lower` are those of str,
-- `read_params` reads the stored parameters of a task, `removes` says whether the system lets a
-- file be removed, `probe` and `addresses` are what the socket library gives for the server's own
-- address, `lan_ip` the one that is taken; `realpath` is os.path.realpath, a path as the list of
-- its names, and `is_file` is os.path.isfile. CSV rows are those that csv.DictReader gives; a
-- sort and an ORDER BY keep rows of one key in the order of the table, and a directory is a list
-- of files with their bytes and times. Not modelled: logging, the constant time of a comparison,
-- requests that the web framework refuses, failures of the database, interleavings inside a
-- login, the bytes of the archive, the mounted assets, the database's pragmas; the parts of
-- server/ not named above, and the agent program, the web pages and the installer.
pub mod Prelude
pub mod Models
pub mod Devices
pub mod Database
pub mod Addresses
pub mod RateLimit
pub mod Manager
pub mod World
pub mod Audit
pub mod Agent
pub mod Tasks
pub mod Sockets
pub mod Auth
pub mod Inventory
pub mod Monitor
pub mod Imports
pub mod System
pub mod Paths
pub mod Static
pub mod Uploads
pub mod Deploy
