-- ===== src/Lib.antt =====
-- Verification of AegisVPN: the control channel between the bot's control plane and the nodes.
--
-- The bot keeps users, subscriptions, devices and servers in a database. For each node it publishes
-- numbered snapshots of the desired state: who may connect until when, the connection limits, and
-- the node's part of the cascade routes. A node's agent polls for a manifest, downloads the pages of
-- the snapshot, applies them, acknowledges the generation, and reports telemetry.
--
-- The parts, and the files that model them (paths from the repository's root):
--   Wire                bot/src/control/schemas.py, agent/app/control_models.py: items, manifests and
--                       pages with the limits of their fields
--   Control/Db          bot/src/models/: the tables as lists of rows, in the order of insertion
--   Control/Cascade     bot/src/services/cascade_service.py: build_cascade_items, record_cascade_ack
--                       advertisable_routes in Cascade/Advertising, proofs in Advertising/Readiness
--   Control/Desired     bot/src/control/state.py: build_desired_items; proofs in Desired/Entitlement
--   Control/State       bot/src/control/state.py: publish_snapshot, latest_snapshot and
--                       prune_acknowledged_snapshots; proofs in State/Paging, State/Generations,
--                       State/Pages and State/Pruning
--   Control/Router      bot/src/control/router.py: sync_node, get_snapshot_page,
--                       acknowledge_snapshot, receive_telemetry; proofs in Router/Acks, Router/Isolation,
--                       Router/Polls and Router/Telemetry
--   Control/Auth        bot/src/control/auth.py: authenticate_node; proofs in Auth/Credentials
--   Control/NodeService bot/src/services/node_control_service.py: publish_for_servers, telemetry_for;
--                       proofs in NodeService/Publishing
--   Control/Consistency the invariant of the control tables, over single operations (Publishing,
--                       Endpoints) and over histories of them (Histories)
--   Agent/Client        agent/app/control_client.py: _request_with_failover, sync, ack and
--                       send_telemetry; proofs in Client/Failover, Client/Uuids, Client/Soundness
--   Agent/ConnLimit     agent/app/connlimit.py: the overrides and enforce_conn_limit_once; proofs in
--                       ConnLimit/Newest and ConnLimit/Enforcement
--   Agent/Xray          agent/app/xray.py: the Xray configuration that the agent reads and edits, and
--                       build_client_record
--   Agent/Cascade       agent/app/cascade.py: apply_cascade_routes; proofs in Cascade/Reapplied and
--                       Cascade/FailClosed
--   Agent/Node          the node's files; load_pending_revocations and retry_pending_revocations of
--                       agent/app/reconcile.py, kick and refresh_from_config of agent/app/hysteria.py
--   Agent/Reconcile     agent/app/reconcile.py: the loop over the inbounds, and in Reconcile/Snapshot
--                       reconcile_snapshot; proofs in Reconcile/Limits, Reconcile/Clients,
--                       Reconcile/Steps, Reconcile/Converged and Reconcile/Failed
--   Agent/Loop          agent/app/control_loop.py: one round of control_loop, and the pauses of
--                       supervise_control_loop; proofs in Loop/Sequences and Loop/Pauses
--   Delivery            both ends together: what is served is what is downloaded
--   Services/Plans      bot/src/services/plan_service.py: the base plan; proofs in Plans/Base
--   Services/Access     bot/src/services/server_access_service.py, and sync_subscription_to_servers of
--                       bot/src/services/subscription_service.py; proofs in Access/Links,
--                       Access/Publishing, Access/Reconciled, Access/Users and Access/Grants
--   Services/Payments   bot/src/services/payment_service.py, and generate_sub_token of
--                       bot/src/services/subscription_service.py; proofs in Payments/Single,
--                       Payments/Activated and Payments/Confirmed. Payments/Callback is
--                       platega_callback_handler of bot/src/main.py and verify_callback_headers of
--                       bot/src/services/platega_client.py; its histories are in Payments/Final
--   Services/Trial      bot/src/services/user_service.py: activate_trial; proofs in Trial/Single
--   Control/Sample, Control/Tests, Agent/Tests, Agent/Reconcile/Tests, Delivery/Tests, Services/Tests,
--   Services/Access/Tests, Services/Payments/Samples, Services/Payments/Tests,
--   Services/Trial/Tests: a small world and concrete runs
--   Base                Boolean tests, lists, texts as code points, dicts, decimal printing
--
-- State and calls. Each endpoint is one transaction, a function from the tables to a result and the
-- new tables; an HTTP error is its status code and commits nothing. The clock is an argument, one
-- reading for each call, in microseconds since 1970. The long poll of sync_node is a list of rounds:
-- for each, its time and what other sessions did to the tables meanwhile, so the list's length is
-- the number of rounds before the deadline. The client is threaded through its calls, since a
-- failed call may have changed the preferred endpoint. A write of a file of the agent returns,
-- raises before the file is replaced, or raises after it, when the directory cannot be synced. A
-- message of the agent's loop is answered, arrives without its answer coming back, or is lost. All loops are structural: over the endpoints,
-- over the pages that are left, and over the offsets of the pages, whose fuel is the number of
-- items, which is enough since every page holds at least one. Numbers are unbounded, as Python's
-- are; the columns of the database are taken not to overflow.
--
-- Parameters. JSON and SHA-256 are the record Codec, the digest of a cascade route is RouteHash, the
-- hash of a token is an argument of authenticate_node, and the HTTP library is Network, a function
-- from a request and an endpoint to how that attempt ends. What Xray, Hysteria and the disk answer to
-- the agent is the record World, what the nodes' push interfaces answer to the bot is in Env, and
-- the new ids, UUIDs and random tokens are in Draws. That a digest has 64 digits, and that a
-- page is read back as it was written, are named hypotheses where they are used.
--
-- Not modelled: the database lock and the lock of each user's payments (one call runs at a time), the
-- rounding of a float in `int(timestamp * 1000)` (taken as exact), str.lower outside ASCII,
-- pydantic's coercions, TLS, the certificate endpoint, the logs and the messages to users, and the
-- rest of the program: most of the agent's drivers, most of the bot's services for users, the formats
-- of its subscription links, its scheduler and user interfaces, the support bot, the site and the
-- deployment scripts.
pub mod Agent
pub mod Base
pub mod Control
pub mod Delivery
pub mod Services
pub mod Wire
