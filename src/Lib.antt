-- ===== src/Lib.antt =====
-- Vaultur, a Bitwarden-compatible password manager server on Cloudflare Workers: a model of the
-- handlers that decide who reads and writes what, and what they guarantee.
--
-- The parts and their files (paths are the repository's):
--   * Db: the D1 tables of src/db/schema.ts as one record of lists of rows, with the columns that the
--     modelled handlers read or write, the blob store and an outbox of mails and notices. A new row
--     stands in front; Db/Keys says what a primary key is: an insertion under a key that is taken
--     fails with status 500. Prelude/Table has the queries (`findFirst`, `findMany`, `update … where`,
--     `delete … where`, `innerJoin`), Prelude/Dict JavaScript's `Map`.
--   * Web: src/error.ts. A handler is a function from the tables to the tables and a result, `ok` or a
--     thrown `ApiError`; what was written before an error stays written.
--   * Context: what a handler reads beside the tables: the configuration, the user and the device of
--     src/auth/middleware.ts, the clock, and the functions of the platform. It also has `issuer` and
--     `decodeJwt` of src/auth/jwt.ts. Shared has the constants of src/shared/constants.ts; Users,
--     Memberships and Events are the services of these names under src/services.
--   * EmergencyAccess: src/api/emergency-access.ts. Common has the loaders, Listing the two lists,
--     Invitation the routes up to the confirmation, Recovery those from the initiation to the takeover,
--     and Routes all of them as requests and histories of requests. Cases says what each route may
--     write, Edges is the state machine of a relationship as a relation, Steps and Unique follow the
--     requests along it, and Approval is on takeovers.
--   * Sends: src/api/sends.ts. Common has the password, the payload and a new Send, Access the public
--     routes (with `accessIdToSendUuid` of src/services/vault.ts), Manage the owner's routes. Guards,
--     Counting and Limit are on the access limit, Owner on the Sends of other users, New on a Send
--     that was just made.
--   * AuthRequests: src/api/auth-requests.ts, its routes in Handlers; Sealed, Final and Once are on
--     secrets and on answers.
--   * Vault: src/services/vault.ts. Sync is `loadCipherSyncData`, Access is `getAccessRestrictions` and
--     the listings of ciphers and collections. Grants is on the loop over the grants, Visible on the
--     query of the listing, Tables and Writers lead access back to the rows of the tables.
--   * Middleware: src/auth/middleware.ts, `requireAuth` and the public routes in Auth; Authenticated is
--     on what passes it. Its routes are lists of segments in place of regular expressions.
--   * Jobs: src/jobs/scheduled.ts in Scheduled, with the purges of src/services/duo.ts and
--     src/services/sso.ts that it calls; Purge and Trash are on what is left after a
--     job. A deletion of ciphers takes
--     along the rows that refer to them (`onDelete: "cascade"` of the schema), and
--     TRASH_AUTO_DELETE_DAYS is a whole number of days or no number at all.
--   * OrgMembers: src/api/org-members.ts. Common has what its handlers share, Invite the invitations,
--     Lifecycle the acceptance, confirmation, change, removal, revocation and restoration of a member,
--     Groups, PolicyRoutes, Recovery and Listing the routes that these names say, and Routes all that write
--     as requests and histories of requests. Moves is the relation that every request keeps to on the table
--     of members; Kept, Writes, Acceptance, MemberMoves, EditMoves, InviteMoves, PolicyMoves, GroupKeeps and
--     RecoveryMoves lead the handlers to it, over Web/Steps (what each step keeps, a handler keeps).
--     Owners, Outsiders, Restored, Recovered, Enforced and Wire are on what the requests guarantee. A status is an
--     integer, since a revoked member keeps the old one less 128.
--   * Ssrf: src/services/ssrf.ts. Text has `parseUint`, Addresses the IPv4 and IPv6 addresses, Hosts
--     `expandIpv6` and `getSafeHost`, over texts of code units; Numerals and Dotted have the grammar of
--     `inet_aton`, Octets and Forms are on what a text is read as, Blocks on the reserved networks,
--     Mapped on IPv4 addresses in IPv6 literals.
--   * Policies: src/services/policies.ts, `masterPasswordPolicy` in MasterPassword; Strictest compares
--     the merged policy with those it merges.
--   * Fixtures and the Tests modules run the definitions on concrete tables.
--
-- Conventions of the model. A timestamp is a number of milliseconds; the code keeps ISO texts of
-- fixed width, whose order is the same. A request body is the record of what `ci` finds in it.
-- Random uuids, salts and tokens are arguments of the handler that draws them, and nothing is
-- assumed of them. The platform's functions are parameters: `new URL(…).origin`, `trim` and
-- `toLowerCase`, `sign` and `verify` of hono/jwt under the server's secret, PBKDF2, and the
-- decoding of base64url; so are `JSON.parse` in the guard and the policies, `endsWith` in the guard and the
-- prefixes of blob keys in the jobs. Where a theorem assumes something of them, it is among its hypotheses. Keys,
-- digests and salts stay under base64. What goes to `waitUntil` (mails, live-sync notices) is an
-- entry of the outbox and cannot make a handler fail. A history is a list of requests that run
-- one after another: the statements on histories say nothing of two requests whose database calls
-- interleave. All loops are structural recursion over lists; nothing runs on fuel.
--
-- Not modelled: the Hono routing, the parsing of HTTP and of JSON, the order of listings, the JSON
-- renderings of ciphers and profiles, fractions of a day in TRASH_AUTO_DELETE_DAYS, and the other routers of src/api (accounts, identity,
-- ciphers, organizations, two-factor, administration, icons, notifications).
pub mod Prelude
pub mod Web
pub mod Shared
pub mod Db
pub mod Context
pub mod Users
pub mod EmergencyAccess
pub mod Memberships
pub mod Sends
pub mod Events
pub mod AuthRequests
pub mod Vault
pub mod Jobs
pub mod OrgMembers
pub mod Ssrf
pub mod Policies
pub mod Middleware
pub mod Fixtures
