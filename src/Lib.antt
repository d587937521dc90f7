-- ===== src/Lib.antt =====
-- The cost-x server (src/), a NestJS application over PostgreSQL by Prisma that keeps the shared
-- expenses of workspaces, seen as calls on the tables of one database.
--
-- The parts and how they interact. A GraphQL mutation first passes `AccessGuard` (Access), then its
-- resolver calls services; all calls of a mutation run in one transaction (Transaction,
-- src/common/interceptor). A service reads and writes tables by the Prisma client (Delegate over
-- Prisma), throws an error, or emits an event whose listener stores a row of the history of the
-- workspace (History). So a method is a function from the tables to an error or to an answer with
-- the tables after it, with the steps, guards and calls of the source in their order.
--
-- Base: names of the libraries passed on, Boolean tests on native numbers (Base/Tests), lists
--   counted by a test (Base/Count), rows that carry keys (Base/Held).
-- Prisma: the client as an interface, with the documented effect of each call said by counting
--   rows. Where the client promises no order, nothing is said of one. Prisma/InMemory is a client
--   on lists that meets the interface.
-- Schema: enums, rows and tables of prisma/schema.prisma. Transaction: errors, the monad, the
--   rollback. Delegate: `tx.<model>.<method>` with unique keys, missing rows and `connect`.
-- History: src/workspace-history. Events, the methods of WorkspaceHistoryService, the listener
--   of each event, the emitter as an interface.
-- Membership: src/workspace-membership. Permissions (WorkspaceMemberPermissionService),
--   Validation (WorkspaceInviteValidationService), Members (WorkspaceMemberService), Invites
--   (WorkspaceInviteService); the other files are the theory of it.
-- Access: src/access. Rules (the decorator), Strategies (the six access strategies), Engine
--   (RuleEngineService, AccessService, AccessGuard); Meaning says what a rule means without them.
-- Contact: src/contact. Contacts (ContactService), Blocks (UserBlockService), Invites
--   (InviteService), Validation (the three validation services), Mutations (the resolvers' bodies).
-- Item: src/item (Service), src/item-merge (Merge), src/item-extract (Extract) and the relations of
--   src/consistency (Consistency). Tag: src/tag (Service) and src/item-tag (Assignment).
-- Payment: src/payment, by its mutations (Service), its queries (Queries) and filterPayments
--   (Filter). Ledger: the tables of items, tags and payments under all these mutations together.
-- Group: src/group. Loader: the loaders of src/*/dataloader, whose answers to a batch of keys are
--   the groups or the rows.
-- Cost: src/item-cost. Rate: src/currency-rate and the costs of src/payments-aggregation that need
--   rates; the bank is an interface (Rate/Bank), and so are the decimals (Cost/Decimal).
-- Stake: src/item-stake; the sum of numbers and `diff` of radash are interfaces (Stake/Numbers).
-- Auth: src/token (Token) and the services of src/auth (Session) over Redis and jsonwebtoken, which
--   are interfaces (Auth/Libraries).
-- Resolver: the mutations of src/item/resolver, src/payment/resolver and src/tag/resolver with their
--   decorators (Mutations), those of src/item-tag/resolver and src/item-merge/resolver, which name
--   two rows (Pairs), and the pipes of src/common/pipe (Pipes). Request and PairRequest name the
--   mutations as data.
--
-- Choices. Dates are numbers, of days where the column is a date, and the reading of the clock is
-- an argument. The subrules of an access rule run side by side in the source and only read; they
-- run in order here. Ids are numbers that the client hands out. Nothing here needs fuel: every
-- recursion is on a list or on a rule. Foreign keys are looked at for the rows of the history,
-- whose actor and workspace must be there, and where the source connects rows by their ids. A
-- listener of the history that the database refuses ends the mutation: its transaction is aborted.
-- Of two calls that CurrencyRateService.get starts together, both queries come first and then the
-- rest of each.
--
-- Not modelled: deletes that the database passes on to other tables (`onDelete: Cascade`) but for
-- those of an item and of a tag, concurrent transactions and requests (other calls that
-- `Promise.all` sends together run one after the other), the inference of entities in general (in
-- Access an argument holds what was inferred; Resolver infers for its mutations), the other
-- resolvers, invites by email, the service of workspaces, the filters of the lists of items and
-- tags, the metrics of the aggregations, the guards and cookies of src/auth, the services of users
-- and passwords, and all input and output by third-party libraries.
pub mod Base
pub mod Prisma
pub mod Schema
pub mod Transaction
pub mod History
pub mod Delegate
pub mod Membership
pub mod Access
pub mod Contact
pub mod Item
pub mod Group
pub mod Loader
pub mod Tag
pub mod Payment
pub mod Ledger
pub mod Cost
pub mod Rate
pub mod Stake
pub mod Auth
pub mod Resolver
