-- ===== src/Lib.antt =====
-- The admin console backend of Zapiack: staff sign in, review sender IDs and templates, and move
-- customers' credit. It writes its own Admin DB and a few tables of the product, and asks
-- api-core to move money.
--
-- Parts. A request passes the session guard (Guards), which looks its session up (Sessions) and
-- keeps the rows of staff for ten seconds (Cache), then the permissions guard (Guards), and the
-- allowlist of its role (Network); a write route then claims its Idempotency-Key (Idempotency).
-- The handler calls a service: credit adjustments (Credits), the review of sender IDs (SenderId)
-- or of templates (Templates), campaigns to customers (Campaigns) whose audiences are saved
-- filters (Segments), a member of staff's own sign-in and password (Auth, over Sessions), the
-- staff and their roles (Staffing, over Sessions), or what is done to a customer's account
-- (Customers) or to a plan (Plans). Addresses are masked before they are stored or shown
-- (Masking). A start of the process catches up on the nightly jobs that it missed (CatchUp).
-- Lists of all kinds are read in cursor pages (Pagination).
--
-- - Credits: src/modules/credits/credits.service.ts. `State` has the table of adjustments, the
--   inbox of staff, the audit rows, and every call that was made to api-core; `request`,
--   `approve`, `reject`, `retry` and the private `apply` take the state and return it with an
--   answer or the exception. What api-core answers, and whether an audit row can be written, is
--   in `Env`.
-- - SenderId.Status: src/modules/sender-ids/sender-id-state.ts. SenderId (decide), SenderId.Sync
--   (ensureReview, refreshDrifted), SenderId.Import (syncFromProduct) and SenderId.Desk (assign,
--   updateChecklist, sweepSlaBreaches): src/modules/sender-ids/sender-ids.service.ts, over the
--   reviews of the console and the applications, accounts and notifications of the product.
-- - Pagination: src/common/http/pagination.ts, with the query of CreditsService.list.
-- - Cache: src/common/cache/ttl-cache.ts.
-- - Sessions: src/common/auth/session.service.ts, over a store of keys that expire. Sessions.Run
--   has the sequences of operations that do not overlap, the second factor and the view of a
--   customer of src/modules/auth/auth.service.ts included; Sessions.Races those of requests
--   whose reads and writes of a session interleave.
-- - Guards: src/common/auth/session.guard.ts and permissions.guard.ts.
-- - Network: src/common/auth/cidr.ts and ip-allowlist.guard.ts, the allowlist of a role.
-- - Templates: src/modules/templates/template-rules.ts; Templates.Review: the decision and the
--   cached queues of src/modules/templates/templates.service.ts.
-- - Masking: src/common/http/masking.ts.
-- - Segments: src/modules/notifications/segments.service.ts.
-- - Campaigns: the rows of a campaign. Campaigns.Desk (create, approve, schedule, retry, cancel)
--   and Campaigns.Rows (materialiseRecipients, resolveRecipients, chunked) are
--   src/modules/notifications/campaigns.service.ts, Campaigns.Worker is the job of
--   campaign.processor.ts, and Campaigns.InApp is in-app-delivery.service.ts. Campaigns.Approval
--   has the invariant of approvals, and Campaigns.Runs the sequences of operations and jobs.
-- - Idempotency: src/common/idempotency/idempotency.interceptor.ts, a step relation of the
--   requests that carry one key, in any interleaving.
-- - Auth: the rows of src/modules/auth/auth.service.ts. Auth.SignIn has login and verifyTotp,
--   Auth.Account changePassword, acceptInvite and logout, Auth.ViewAs the impersonation.
-- - Staffing: src/modules/staff/staff.service.ts, with Staffing.Admins for who may still manage
--   staff, and Staffing.Roles for roles and src/modules/staff/super-admin-sync.service.ts.
-- - Customers: src/modules/customers/customer-actions.service.ts, over the accounts, keys and
--   projects of the product and the calls that api-core received; Customers.Money has the two
--   actions that ask for a customer's money.
-- - Plans: src/modules/plans/plan-update.ts, and the writes of plans of
--   src/modules/plans/catalogue.service.ts; Plans.Upsert is upsertPlan there.
-- - CatchUp: src/modules/jobs/catch-up.ts; CatchUp.Boot: src/modules/jobs/catch-up.service.ts,
--   with what its process puts on the queues when it starts.
--
-- Conventions. A table is an association list under string keys; a missing key is what the
-- database driver makes of it (`null`, or an exception). Instants are milliseconds, and a method
-- reads the clock once. Amounts are whole ten-thousandths of a naira, the scale of the column;
-- reading one from text is a parameter, as are luxon's days and JavaScript's `Number`. Text that
-- the program takes apart is the list of its UTF-16 code units. A method runs to its end before
-- another starts, so that races between instances are not in the model, except in Idempotency,
-- where every await is a step, and in Sessions.Races; a touch that brings back a session signed
-- out meanwhile is a theorem of Sessions.Laws. Tables are written in place by `put`. Loops are
-- recursions on their list; fuel is in `walk` of Pagination.Walk, the number of requests that a
-- client makes, where one more than there are rows is enough, in `days_to` of CatchUp, where the
-- number of days from the first to the last is, in `chunks` of Campaigns.Rows, where the length
-- of the list is, and in `rounds` of Campaigns.Worker, where one more than there are recipients
-- waiting is.
--
-- Not modelled: the JSON payloads of audit rows, log lines, the texts of exceptions, the queries
-- and rollups that are SQL, and the clients of other services, which are I/O. Of sender IDs, the
-- reads are left out; of templates, the filters of the list and the names of variables; of the
-- cache, the sharing of a pending load; of campaigns, the text of a message and the test send;
-- of sign-ins, the place that an address is looked up to; of the catalogue, the products and the
-- prices per country. Hashes of passwords, codes of the second factor and `toLowerCase` are
-- parameters.
mod Common
pub mod Credits
pub mod SenderId
pub mod Pagination
pub mod Cache
pub mod Sessions
pub mod Network
pub mod CatchUp
pub mod Templates
pub mod Guards
pub mod Masking
pub mod Segments
pub mod Campaigns
pub mod Idempotency
pub mod Auth
pub mod Staffing
pub mod Customers
pub mod Plans
