-- ===== src/Lib.antt =====
-- A monitor for the machines of a home network: an agent on each machine sends reports of what it
-- measures, and a server keeps them, scans the network and raises alerts. The modules follow the
-- Rust crates of the repository.
--
-- Base: Boolean tests, lists, signed integers, texts, `f64` as multiples of 2^-22 with its special
--   values, and std's parsers of integers and IP addresses.
--
-- Protocol: crates/hope-protocol/src, what agent and server share.
--   Types: the records and enums of lib.rs that a report, a child batch or a host is made of.
--   Version: `version_newer`. `newer_from` is its loop, on as many rounds as the longer version has
--     parts.
--   Storage: `Disk::is_guest_storage` of lib.rs.
--   Validation: validation.rs, each limit as a Boolean test of what is accepted, and the functions
--     `inventory`, `metrics` and `child_batch` with their messages in the order of the source. The
--     test whether a text is a UUID is a parameter.
--
-- Agent: crates/hope-agent/src.
--   Queue: the bounded queue that delivery.rs and child_delivery.rs both write out, generic in the
--     kind of report. An underflow of the cached size is `none`; the eviction loop has one round
--     for each report and one more. serde_json is three functions of the record `Item`.
--   Delivery and ChildDelivery: the limits of the two queues, and `send`, where the answer of the
--     server is a value: its status, its header and the chunks of its body.
--   Sequence: sequence.rs. The counter's file is one of four states, and a write may fail before or
--     after it has replaced the file. The agent's lives are a step relation over counter and file.
--   Children: `ChildSchedule` of reporting.rs, when and in which batches the containers and guests of
--     a source are reported. The sizes and the parsers of JSON and new identities are parameters.
--   Telemetry: telemetry.rs. `isolate` checks each group of fields by itself with the shared
--     validation, `bound_report` sheds collections until the report fits.
--
-- Server: crates/hope-server/src.
--   Limiter: `Limiter` of limits.rs. The hash map is an association list, whose order is the order
--     of iteration. Each operation holds the lock from its start to its end, so that it is one
--     function of the table.
--   Proxies: `TrustedProxies` of limits.rs: `client`, which gives a request its key, and `parse`. A
--     header and a key are lists of characters, ipnet's networks a parameter. The two flags that
--     keep a warning from being logged twice are part of the result.
--   Outbox: notification_delivery.rs. The table notification_outbox is the list of its rows by id;
--     `due` and `eligible` are the query of `deliver`, `settle` its loop over the outcomes. All
--     readings of the clock in that loop are one time.
--   Notify: notify.rs, the problems of a host and (Evaluation) `evaluate`, whose hash maps are visited
--     in an order that is a parameter. What the uptime checks find is an argument there, and Minute
--     puts the two together. Arrival has `new_device`. The products, quotients and roundings of
--     floats are parameters.
--   Uptime: uptime.rs, the device check and the counter that lets a problem open at the second
--     failure; Checks has `problems` and `configure`, where whether a port answers and the order in
--     which checks end are parameters.
--   Errors: error.rs, an error as its status and its text, and the code of its answer.
--   Database: the tables that agents.rs works on, as lists of rows and functions of the key. A row
--     of a host is its decoded body.
--   Addresses: addresses.rs, and the addresses of an inventory.
--   Updates: the requests for an update of an agent in agents.rs, from `pending_update` to
--     `set_auto_update_exclusion`.
--   Rollout: `schedule_auto_update` of agents.rs, each early return a branch.
--   Ingestion: `report` of agents.rs. `admit` (Handler) is what comes before the write lock,
--     `ingest` (Transaction) what is done under it, `conclude` what follows the commit. What other
--     handlers do in between is a function of the record `Elsewhere`, which also has the networks
--     of a host, the guess of its kind and the reconciliation of source devices.
--   Tokens, Enrollment: `issue_token_for_reset` and `enroll` of agents.rs. The table of tokens is a
--     function of the hash of a token; what the database refuses for one of its unique columns is
--     an internal error, and a transaction that is not committed changes nothing. Enrollment/Once
--     has what happens to the tokens later as a list of events.
--   Revocation: `revoke_by_id` and `complete_uninstall_by_id` of agents.rs.
--   Children: `child_report` of source_ingestion.rs, with the tables of the migrations 0007 to 0014.
--     `take_batch` (Handler) is its transaction, `store_device` a turn of its loop over the devices,
--     `settle_row` (Devices) of that over the rows that a whole inventory could name; Legacy has the
--     older rows of a shared device, Relationships where devices run. What the functions of
--     identity.rs do to these tables is a parameter; each of them may fail. Kept has as a hypothesis
--     that they set the hosts of rows and delete rows. Received has the transaction for one batch after the
--     other. `write_device` does not know of the UNIQUE constraint of the rows of devices.
--   Commands: `shell_quote`, `shell_word` and the install commands of agents.rs.
--
-- An agent's sample goes through `isolate` and `bound_report`, takes its number from `Sequence`,
-- and waits in the queue until `send` reports that it was accepted or is invalid. The server
-- applies the same validation before `report` stores it, keeps the newest report of an agent by its
-- number, and asks one agent at a time to update. `take_batch` takes the batches of
-- `ChildSchedule` by their numbers (Children/Scheduled has the two together).
--
-- Not modelled: the loop of the agent that drives its parts, the collectors, the other handlers and
-- the background tasks of the server (history, discovery, identity), failures
-- of the database, and the web interface.
-- Rounding of floats below 2^-22 is not modelled either: the theorems use their order, and sums of
-- whole seconds.
--
-- Examples: the theorems at concrete inputs, and tests.
pub mod Base
pub mod Protocol
pub mod Agent
pub mod Server
pub mod Examples
