-- ===== src/Lib.antt =====
-- The backend of a vehicle lifecycle platform (backend/src, with a browser client in frontend/src):
-- an Express server that keeps an off-chain copy of what several smart contracts decide, and
-- submits their transactions.
--
-- How the parts interact. A request passes middlewares (who is calling, with which role, from which
-- address) and reaches the service of a module. The service checks the tables, submits one call to
-- a contract under the key of the calling institution, and records the hash in the table
-- blockchain_transactions as pending. The contract's event reaches the indexer, which writes the
-- outcome to the tables and marks the row as mined. Rows that stay pending are settled from their
-- receipts by the reconciliation worker, which also undoes what the service wrote when a
-- transaction has reverted.
--
-- Where each part is modelled, with its code:
--   Base, Domain, Crypto    shared lists, texts, integers and tests; the enums of
--                           backend/prisma/schema.prisma, the identity of a caller and the errors;
--                           hex text and timingSafeEqual
--   Http                    backend/src/middlewares: a middleware is a function from the request to
--                           a request or an error (Auth, Guards, Csrf, Errors, Address, RateLimit),
--                           a chain runs them in order (Routes), and Access says who gets through;
--                           backend/src/utils/sanitizer.ts (Sanitize)
--   Store                   the rows of the Prisma models (Rows), a table as a list of rows
--                           (Table), and the whole state with the monad of a handler (World): an
--                           error keeps what was written before it, except in a database
--                           transaction
--   Chain                   backend/src/lib/blockchain.manager.ts: submitEntityTx (Manager), the
--                           text of its errors (Errors), the row that tracks a submission
--                           (Tracking), and events and receipts (Receipt)
--   Indexer                 backend/src/modules/indexer/indexer.service.ts: advanceCursor (Cursor),
--                           catchUpContract (CatchUp), start and handleReconnect (Reconnect),
--                           finalizeTx (Finalize), processLog for the challan and the loan contract
--                           (Dispatch), handleRegistration and handleToggle (Entities)
--   Challan                 backend/src/modules/police and payment: issueChallan, cancelChallan,
--                           payChallan (Police), initiateChallanPayment and
--                           handleChallanPaymentWebhook (Payment); handleChallanIssued, -Paid and
--                           -Cancelled of the indexer (Events); the branches for challans of
--                           backend/src/jobs/reconciliation.worker.ts, with the cancellation that
--                           its branch for executed Safe proposals replays (Reconcile); all of
--                           these as the steps of one machine (Machine), and a request of the
--                           police followed by its event (Confirmation)
--   Loans                   backend/src/modules/bank: registerLoan, issueNoc, cancelPendingLoan,
--                           refinanceLoan (Bank), the events of the loan contract in the indexer
--                           (Events), and the branches for loans of the reconciliation (Reconcile)
--   Accounts                backend/src/modules/token, auth and b2b-member: sessions and access
--                           tokens (Tokens), the routes of auth (Auth) and of the staff of an
--                           institution (Members), all of them as the steps of one machine
--                           (Machine)
--   Vehicles                the vehicle events in the indexer: mint, status, scrapping, dealer and
--                           the authorization to scrap (Events), registration (Registration)
--   Frontend                frontend/src/lib/api.ts: the interceptor of apiClient that shares one
--                           refresh between requests, and the errors that it makes (Client)
--   Transfers               the transfer of a vehicle: the four events in the indexer (Events), and
--                           approveTransfer of backend/src/modules/rto (Approval), and the branches
--                           for transfers of the reconciliation (Reconcile)
--   Insurance               backend/src/modules/insurance: issuePolicy, markExpired and fileClaim
--                           (Policies), the four events of the contract in the indexer (Events), and
--                           the branches for policies of the reconciliation (Reconcile)
--   Notify                  backend/src/modules/notification/sseManager.ts: the open streams, where
--                           the sets of responses are objects that handlers refer to (Streams), and
--                           the board of connections that it implements (Streams/Board)
--   Reconcile               the frame of backend/src/jobs/reconciliation.worker.ts: one batch of
--                           reconcileTransactions, for transactions on challans and loans
--   Tests                   concrete inputs for the theorems
--
-- Parameters. Code outside the repository is an argument of the definitions: jwt.verify, bcrypt,
-- sha256, verifyMessage, the sending of a mail, isIP, the HMAC under the webhook secret, random
-- ids, the decimal text of an amount, decryption, the node with its logs, receipts, blocks and
-- hashes, and whether a socket opens. That the node answers a query with the logs of the range, and
-- that adjacent ranges join, is the hypothesis IsHistory. Keys and hashes are opaque in the code
-- and stand as numbers; amounts and ids of tokens are the numbers that BigInt makes of their texts.
--
-- Fuel. The loop of a catch-up takes one unit for each chunk of 2000 blocks and gets as many as the
-- number of the latest block, which is enough since each chunk begins at a later block; that the
-- range is finished is part of what is proved of it. Everything else is structural recursion.
--
-- Not modelled: the remaining modules of backend/src/modules (citizen, mfg, dealer, puc, scrap,
-- gov, admin, b2b-entity, and of rto all but the approval of a transfer; the trade certificates),
-- the events and reconciliation branches of their tables, and the paging of
-- the sweep, which are components of their own; the heartbeat of the streams, logging, the delivery
-- of notifications and mail, which do not touch the tables; the contracts (Solidity), generated
-- files and the rest of the frontend. Handlers run one after another: an interleaving of two
-- handlers inside their awaits is not represented.
pub mod Accounts
pub mod Base
pub mod Domain
pub mod Http
pub mod Indexer
pub mod Store
pub mod Chain
pub mod Crypto
pub mod Challan
pub mod Loans
pub mod Notify
pub mod Frontend
pub mod Reconcile
pub mod Transfers
pub mod Vehicles
pub mod Insurance
pub mod Tests
