-- ===== src/Lib.antt =====
-- A model of the program's core: the gateway service (verify/) with its orders under a mandate, the
-- internal agent (agent/) that executes them, and the administration service (admin/).
--
-- The parts and how they interact. A client proves control of a domain and gets a session (Tier 1),
-- or comes with a certificate and a token (Tier 2). With a grant it places orders (Tier 3): an
-- order within the budget of the window is reserved in the audit trail, handed to the agent over
-- HTTP and settled by the answer; an order over the budget waits for a human, who approves or
-- rejects it. The agent routes an action by its rules, or by an LLM among allowed channels, posts
-- it to a stub channel and remembers the result by the action id. The administration service edits
-- the catalog files and the manifest that are served to everyone, and manages the partner clients: in
-- Keycloak, with a copy of their secrets in OpenBao and their grants in the gateway.
--
-- Files and sources:
--   Verify/Store         verify/main.py: the rows of Tier 3 and the attributes of Store
--   Verify/Action        what a handler of verify/main.py is: it changes a World and returns or raises
--   Verify/Capped        verify/main.py: the cap per client of record_tier3_event, set_tier3_resolution
--   Verify/Audit         verify/main.py: record_tier3_event, tier3_used_cents, settle_tier3_event
--   Verify/Approvals     verify/main.py: the approval queue and the resolutions of Store
--   Verify/Requests      verify/main.py: requests, check_rate_limit, require_internal_admin
--   Verify/Network       verify/agent_handoff.py, verify/introspection.py
--   Verify/Orders        verify/main.py: create_tier3_order, _handoff_envelope, _settle_handoff
--   Verify/Concurrent    verify/main.py: orders that are handled at the same time, under tier3_lock
--   Verify/Decisions     verify/main.py: grants, approvals, rejections, audit view, status poll
--   Verify/Sessions      verify/main.py: Tier 1 and the check of Tier 2
--   Verify/Keycloak      verify/keycloak_auth.py
--   Verify/Domain        verify/security.py: validate_domain
--   Verify/Fetch         verify/security.py: resolve_public_ip, fetch_raw, parse_http_response and
--                        fetch_challenge_file
--   Agent/Rules          agent/rules.py
--   Agent/Llm            agent/llm.py
--   Agent/Channels       agent/channels.py
--   Agent/World          the state of agent/main.py and the outside of the agent
--   Agent/Execution      agent/main.py: execute_action, _decide_and_execute, _store_result
--   Agent/Endpoints      agent/main.py: the tokens and the two endpoints
--   Agent/Bodies         agent/main.py: Mandate, ActionEnvelope, OrderPayload, the answer's body
--   Agent/Locks          agent/main.py: _action_lock and requests that run at the same time
--   Stubs                stubs/main.py
--   Handoff              the JSON between verify/ and agent/: _handoff_envelope, _parse_ok_body
--   Admin/Http           the requests of admin/ and their replies, common to its clients
--   Admin/Keycloak       admin/keycloak_client.py; its children Create and Manage
--   Admin/OpenBao        admin/openbao_client.py
--   Admin/Tier1, Tier3   admin/tier1_client.py, admin/tier3_client.py
--   Admin/AgentStatus    admin/agent_client.py
--   Admin/Schema         admin/schema_types.py
--   Admin/Disk, Catalog  admin/catalog_store.py: the atomic write; the operations
--   Admin/CatalogPages   admin/main.py: the pages of the catalog
--   Admin/Manifest       admin/main.py: the editor of the manifest
--   Admin/ClientPages    admin/main.py: the pages of the partner clients
--   Admin/Login          admin/auth.py
--   Admin/Logs           admin/log_tail.py
--   Admin/Approvals      admin/main.py: the approvals page
--   Admin/GatewayPages   admin/main.py: the Tier 1 form, the audit and the agent's page
--   Python               texts and the values of json.loads
--   Prelude              the names, tests, lists and dicts that all parts share
-- Children of a file hold its theorems; the modules named Tests hold runs and concrete instances.
--
-- How the code is modelled. A handler is a function from a World to a result and a World: the store,
-- what the outside has in store (clock readings, random tokens, replies of Keycloak, of the agent and
-- of challenged hosts, each a stream that is read call by call) and the envelopes that were sent.
-- HTTPException is an error value; what was written before a raise stays written. Times are natural
-- numbers in the unit of the configured windows, and differences of times are written as sums, so
-- that nothing stops at zero. Amounts are natural numbers, as the bounds of the request bodies make
-- them; differences that can be negative are integers. A configured number is not negative. Texts
-- for people (reasons, details) are constructors with what the code puts into them. Dicts are lists
-- in insertion order. All loops recurse on their lists; there is no fuel, except for the digits of a
-- number, which are no more than its value plus one, and for the reading of an answer, where each
-- round brings a byte at least. In admin/ an exception is a value with its name,
-- the disk is a dict of files, a write may fail or be killed at each of its steps, and a page is what its
-- template is given.
--
-- Requests are handled one after the other, except in Agent/Locks and in Verify/Concurrent, where
-- requests interleave. There the rows of refusals, which are recorded outside of tier3_lock, are no
-- steps: Verify/Concurrent/Race is about what they do to the sections under the lock. What urllib,
-- FastAPI, pydantic, the JWT library and ipaddress do is a stream or a parameter. Not modelled: the
-- sockets themselves, the test console and the templates of admin/, and the configuration of the other
-- services.
mod Prelude
pub mod Python
pub mod Verify
pub mod Agent
pub mod Stubs
pub mod Handoff
pub mod Admin
