-- ===== src/Lib.antt =====
-- The EasyRepair backend: a marketplace on which clients post repair jobs, workers bid on them
-- or are hired directly, and an inspection may come before the repair. Paths are from the
-- repository's root.
--
-- The parts. `Schema` has the rows and enums of backend/prisma/schema.prisma that the code
-- below uses. `Commission` is backend/src/common/utils/commission.util.ts
-- (`Commission/Settlement`: `settleBooking`). `Eligibility` is
-- backend/src/common/utils/job-eligibility.util.ts. `Store` stands for the Prisma client:
-- tables, transactions, errors, and the actions that requests are. `Bookings` is
-- backend/src/modules/bookings: `Transactions` and `Repair` have the transactions of
-- bookings.repository.ts, `Hiring`, `Progress` and `Cancellation` the requests of
-- bookings.service.ts and the expiry of one booking, `Expiry` the sweep of
-- booking-expiry.service.ts over all that are due, and `Lookups` what they share. `Bids` is
-- backend/src/modules/bids and `Inspections` is backend/src/modules/inspection-reports; both
-- write bookings too, so their hires go by the same test of a hireable booking and an
-- assignable worker. `Desk` serves requests one after another: nine of bookings.service.ts,
-- which its comment names, acceptBid of bids.service.ts and the expiry of one booking; it has
-- none of `Inspections`, and of bookings.service.ts not the rehire and the completion that
-- follow an inspection. `Auth` is backend/src/modules/auth (auth.service.ts with
-- auth.repository.ts): `Phone` has phone.util.ts and support-identity.util.ts, `State` the rows
-- (`Rows` searches and writes lists of them), `Sessions` the refresh tokens, logout and
-- deletion, `Otp` the one-time codes, `Users`, `Login` and `Register` the accounts, and `Reset`
-- forgotten passwords. It shares no row with the parts above but the user, and has a state of
-- its own. Its requests are the steps of `Steps`, and so are those of the two parts that
-- follow, each with a state of its own. `Ledger` is the money of backend/src/modules/admin
-- (admin-operations.service.ts with admin-operations.repository.ts) on top of
-- `Commission/Settlement`: `State` has the rows, `Writes` the transaction of a settlement,
-- `Settling` and its child who settles, `Cases` the cases, `Eligible` and `Collecting` the
-- nightly collections, and `Requests` all of these one after another. `Intake` is how bookings
-- are created and edited, in bookings.service.ts and bookings.repository.ts, with
-- backend/src/modules/categories/category-lanes.ts: `Selection` has what a client may choose,
-- `Creation` and `Editing` the requests, `Visits` both one after another, `Nulls` what a null
-- in a request for an edit does. `Steps/Keeps`, `Steps/Yields` and `Steps/Refuses` have the
-- rules by which a step keeps a property of the state, yields one with its answer, or fails
-- without a write.
--
-- Names are those of the source in snake case: `assignWorker` is `assign_worker`. A method of a
-- service and one of its repository with the same name stand in different modules, as
-- `Bookings.Cancellation.cancel_booking` and `Bookings.Transactions.cancel_booking`.
-- Definitions called `…_authorized`, `commit_…` and `settle_…` are the rest of a method after
-- its authorization, from its transaction on, and after its transaction.
--
-- State. A database is a record of tables, functions from a row's number to the row. A
-- transaction throws and writes nothing, or returns with its writes. A request is an `Action`:
-- it takes the database that its reads see and the one that its transactions run on, and these
-- are different where other requests write in between. A request that nobody interrupts is run
-- with one for both. Notifications, queue jobs, broadcasts and chat threads are effects, listed
-- in `outbox`; they cannot fail the request, as in the source.
--
-- A request of `Auth` is a step on one state: it is run without interruption, and what it wrote
-- before it failed stays written, as in the source, which uses no transaction around it.
-- `Bcrypt` and the answers of the SMS provider and of the token library are arguments; a code,
-- a password, a hash and a token are numbers, and a phone is the list of its code units, as the
-- code takes it apart. Codes are listed newest first, for `orderBy: { createdAt: 'desc' }`, and
-- the clock does not go back within that list.
--
-- In `Ledger` and `Intake` a transaction that fails leaves nothing written, and a state that a
-- request had read before its transaction is an argument called `seen`, as another request may
-- have been served in between; a field of an edit is missing, null or given; `updateBooking`
-- and the updates of cases and collections are run without interruption.
--
-- Numbers. Ids are numbers, as they are only compared. Instants are milliseconds and `now` is
-- an argument. Prices are hundredths of a rupee, and `Math.round(x * 100) / 100` is a rounded
-- division; a JavaScript number that is negative or not finite is a value of its own where the
-- source tests for it; the rounding is exact, as JavaScript's is on whole rupees, while on some
-- fractional prices a float product falls on the other side of a tie. The great-circle
-- distance, a float computation, is a parameter. Searches go through the finitely many rows
-- below the table's next number. An amount that a settlement stores in an integer column must
-- be a whole number of rupees; the state has it as the whole number.
--
-- Not modelled: response mapping, logging, read-only lists, reviews and attachments of
-- bookings, the pages of categories and of the administration, matching and notification
-- delivery, the address lines of a booking, the notes and contacts of a case, of which nothing
-- is read, workers' onboarding, chat and storage, avatars and profiles' names, the encrypted
-- copy of a code, the request types and guards, and the mobile application.
pub mod Prelude
pub mod Schema
pub mod Commission
pub mod Eligibility
pub mod Store
pub mod Bookings
pub mod Bids
pub mod Desk
pub mod Steps
pub mod Auth
pub mod Ledger
pub mod Intake
pub mod Inspections
pub mod Tests
