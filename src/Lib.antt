-- ===== src/Lib.antt =====
-- OPNsense Hub is a web service (FastAPI, SQLAlchemy) by which companies watch and reach their OPNsense
-- firewalls over a WireGuard overlay, with a plugin on each firewall and a connector on a user's machine.
-- This library models the decisions of the service: who is let in, what is counted and refused, which
-- addresses and peers are handed out, what the background jobs delete, mark and mail.
--
-- The parts, and the code they model (paths from the root of the repository):
--   Base         shared notation: tests, lists, equality behind an interface, exceptions as values, texts
--                as lists of code points, actions that change a state and may raise, decimals, integers
--   Models       dashboard/app/models.py: the columns that the modelled code reads or writes, and the
--                database as one record of tables
--   Access       dashboard/app/rbac.py, dashboard/app/deps.py: roles in companies
--   ProxyAuth    dashboard/app/services/proxy_auth.py: grants, proxy sessions, connector sessions
--   Sessions     dashboard/app/services/auth_service.py and device_tokens.py, dashboard/app/deps.py
--   Identities   the account of an external sign-in in dashboard/app/services/auth_service.py, and
--                dashboard/app/services/local_ad_auth.py
--   Totp         dashboard/app/security/__init__.py: the codes of an authenticator
--   Mfa          dashboard/app/services/mfa_service.py and complete_mfa_login of
--                dashboard/app/routers/auth.py
--   Audit        dashboard/app/audit.py
--   RateLimit    dashboard/app/security/rate_limit.py: the backend in memory
--   Csrf         dashboard/app/security/csrf.py, and the step of dashboard/app/main.py that asks it
--   RequestContext dashboard/app/security/request_context.py: the address of a client,
--                and the checks of the host of a request
--   WireGuard    dashboard/app/wireguard.py: configuration, keys, addresses, peers
--   Hardening    dashboard/app/hardening.py: the checks of the settings at start
--   LogRetention dashboard/app/services/log_retention.py: the sweep of old rows
--   Health       dashboard/app/health.py: the status of a firewall
--   Backups      dashboard/app/backups.py: when a backup is requested
--   Firmware     dashboard/app/services/firmware_scheduler.py: the daily marking
--   Notifications dashboard/app/services/notification_service.py: which mails are sent
--   TcpRelay     dashboard/app/services/tcp_relay.py: the manager of short-lived relays, as steps
--   Payload      decoded JSON, as the handlers of firewalls read it
--   Enrollment   dashboard/app/routers/enrollment.py: a firewall joins with a one-time code
--   Uploads      dashboard/app/services/device_backup_crypto.py and the upload in
--                dashboard/app/routers/devices.py: configurations of firewalls
--   Tests        the theorems at concrete inputs
-- The child modules of a part hold its proofs and are named for what they prove. Mfa stands on Sessions,
-- Audit and RateLimit, Enrollment and Uploads on these and others, ProxyAuth on Access, and all on the
-- tables of Models.
--
-- How the code is read: a handler or service function that changes the database is an action, a function
-- from the state to a result and the new state; what was written before an exception stays written, as in
-- the source up to its rollback. An exception is a value with its class, its status and its message,
-- without the values that are formatted into it. Identifiers are numbers, times are microseconds of UTC,
-- and the clock, random tokens and new identifiers are arguments. `str.lower` and `str.upper` are those of
-- ASCII letters. Settings that the checks at start read as integers are integers; elsewhere they are
-- natural numbers, as a Hub that passed the checks has them.
--
-- Parameters stand for code that is not in the repository: the keyed hash of a token, the check of a hashed
-- secret, the parsers of Python's ipaddress, urlparse, HMAC-SHA1 and base32, the decoding of a signed cookie,
-- the delivery of a mail, the time zone. In Mfa the check of an authenticator code is one too; Totp models
-- it, with times in seconds. A theorem names what it needs of them, such as two tokens with different hashes.
--
-- Fuel: the deletion loop of the sweep runs on fuel; one round more than there are old rows is enough, since
-- a round deletes at least one. The printing of a number runs on fuel one above the number, which falls with
-- each digit. Every other loop is structural.
--
-- Not modelled: the rendered pages and most handlers of dashboard/app/routers, the transports of mails,
-- the commands that change the network, the Redis backend, the bytes that a relay forwards, the backup service, the calls of
-- external identity providers, the connector and the plugin's scripts.
pub mod Base
pub mod Models
pub mod Health
pub mod Access
pub mod ProxyAuth
pub mod RateLimit
pub mod WireGuard
pub mod Csrf
pub mod RequestContext
pub mod Identities
pub mod LogRetention
pub mod Hardening
pub mod Audit
pub mod Sessions
pub mod Totp
pub mod Mfa
pub mod Backups
pub mod Firmware
pub mod Notifications
pub mod TcpRelay
pub mod Payload
pub mod Enrollment
pub mod Uploads
pub mod Tests
