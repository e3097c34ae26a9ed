-- ===== src/Lib.antt =====
-- A model of the Python programs of the NAS platform, and theorems about them.
--
-- The platform is a set of Ansible roles around a few programs that run on the NAS. The alert relay
-- (services/dozzle/alert_relay.py) takes authenticated posts from Dozzle and Beszel, decides under
-- a file lock which of them become Pushover messages, and keeps its decisions in a state document.
-- The deploy poller (scripts/production_auto_deploy.py) and the image prune (scripts/image_prune.py)
-- share the relay's message shape, and the prune waits for the poller's lock.
--
-- Where what is modelled:
-- - Common: Python's str as the list of its code points (Text), dict as an association list in the
--   order of insertion (Dict), sorted (Sort), what json.dumps writes (Json). Selected is about lists
--   and what passes a test, Value what json.loads gives.
-- - Message: html_escape, fit_message, compose_message. Message/Length has their bounds.
-- - Relay/Clock: parse_timestamp, datetime_nanoseconds, utc_day. A datetime is its fields, in UTC.
-- - Relay/Settings: Config. Relay/Event: an event as validate_envelope returns it.
-- - Relay/Budget: empty_budget, rolled_budget, BudgetFloor (raise_floor, record), charge_budget. Its
--   children have the laws of a charge and of the floor.
-- - Relay/Delivered: DeliveredEvents (key, seen, record).
-- - Relay/Health: health_transition. Converge is about the recorded health, Publish about what is
--   published.
-- - Relay/State: state_bytes and bounded_state. Bounds, Keep and Shed are about the loop.
-- - Relay/Render: human_time, notification_wording, notification_details, render_notification,
--   render_ceiling_notice, emergency_fields.
-- - Relay/Process: process_event and decision_notification, as one step on the state of a relay: what
--   the next read finds, the floor, the deliveries, the messages that Pushover confirmed. The code holds
--   the state lock from the first read to the last write, so a request is one step. The clock, the
--   lock, the upstream and the replacement of the store are inputs (Weather). Settle is about the
--   end of a request, Day about any sequence of them.
-- - Relay/Parse: parse_state_document, parse_legacy_state_document, parse_budget_document and
--   validate_state_identity. Kept is about the loop over an array, Sound about the whole document.
-- - Relay/Envelope: validate_envelope and validate_beszel_envelope. Identity is about the host and the
--   identity, Valid about the event.
-- - Relay/Beszel: classify_beszel, beszel_is_golem and beszel_link, on the alerts that
--   validate_beszel_envelope gives. Render is render_beszel, Process is process_beszel.
-- - Relay/Server: do_POST and handle_beszel; an answer is its HTTP status, and 0 where the handler
--   raises. Guard is about which requests
--   get through, Day about any sequence of them.
-- - Relay/Examples: tests, and each theorem at a concrete input.
-- - Deploy/Ci: gating_ci_runs, candidate_revisions and ci_verdict of the poller, on the page of runs
--   that fetch_ci_runs gives. Runs and Judging say what a verdict means, Candidates what is listed.
--   What urlsplit finds in an address is a parameter; an address on which it raises is left out.
-- - Deploy/Select: select_revision. The attempted record, the last success, the retry and git's
--   ancestry are what a poll reads (Poll); an EligibilityError of git is `none`. Walk is about the
--   revision that is released.
-- - Deploy/Attempts: the attempted record, read and written as the text of its file. Stamp is about the
--   stamps, Format about reading what was written, Record about record_attempt and forget_attempt.
-- - Deploy/Notices: the forgiveness of transient failures, blind polls and refusals of CI, on the files
--   of the state root as they are read (Files). What cannot be read is as if it were not there.
-- - Deploy/Poll: poll, with _eligible_revision, _poll_selection, _deploy_once and _attempt, as one step
--   on these files. What the network, git, the clock and a deployment answer is Surroundings. Writing a
--   file succeeds, but for the counter of forgiven failures.
-- - Deploy/Examples: tests, and each theorem at a concrete input.
-- - Restore: services/immich/classify_restore.py. Tree has the two scans of the originals, on a tree
--   of what the calls of the operating system find; Backup the names, the validation and the choice of
--   a dump; Classify the data directory, the failure marker and classify. A datetime of a name is the
--   number of its digits, which orders alike; names are ASCII.
-- - Gate: services/downloaders/clamav_gate.py. The answers of clamd, the clock, the settings and which
--   lines stdout takes are the surroundings of one run. Wait is about await_clamd, Verdict about main.
-- - Prune: scripts/image_prune.py. Settings is load_config and prune_commands, Arguments
--   _parse_arguments, Lock the wait of deployment_lock, Report what is read from Docker's reports, Run
--   the passes, the rotation of the logs, the messages and prune. Settings/Valid is about which commands
--   a configuration makes, Run/Safe about which are run, Run/Told about what is recorded and sent.
--   What Python's floats give is a parameter (Floats).
-- - Cpu: filter_plugins/container_cpu.py. Within is about the CPU set, Confined about a check of the
--   running containers without messages. What _expected_nanocpus makes of a spec is a parameter.
-- - Artifacts: filter_plugins/vault_artifact_identity.py. Identified is about two equal identifiers.
--   SHA-256 is a parameter.
--
-- Fuel: the loop of bounded_state gets one round more than there are entries and counters; each round
-- that goes on drops one of them, so it is enough. html_escape, fit_message and compose_message get
-- one round for each character, line and detail. str(n) gets n + 1 rounds for n. await_clamd
-- gets one round more than the timeout has seconds; the clock goes on by the sleep of five seconds in
-- each. The wait for the deployment lock gets two rounds more than it has seconds, each of which
-- sleeps fifteen seconds or to the deadline.
--
-- Bounds and choices: Python's integers are unbounded and never negative here, so they are native
-- natural numbers. A priority is Pushover's number plus 2. A ValueError of parse_timestamp is `none`;
-- entries and events hold timestamps that were validated. A StateError is an answer of the step; a
-- replacement that fails may have put the new document in place or not. Where Pushover takes a message
-- and its answer is lost, the code counts nothing, and the message is not among those of the model.
-- Whether the page of the ClamAV gate can be encoded and arrives is left out.
--
-- Not modelled: the validation of the relay's settings, the reading of JSON; what the deploy poller runs
-- and writes of a release, and its other modes; how the prune writes its files and sends its messages;
-- sockets, threads, signals, file descriptors and permissions, the log lines on stderr, the other
-- programs, Ansible playbooks and roles.
pub mod Common
pub mod Message
pub mod Relay
pub mod Deploy
pub mod Restore
pub mod Gate
pub mod Prune
pub mod Cpu
pub mod Artifacts
