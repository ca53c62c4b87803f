-- ===== src/Lib.antt =====
-- Wintermute is a self-hosted assistant with business modules. A server runs the turns of a conversation
-- against a language model and keeps its transcript; a client on the user's machine carries out the
-- actions that the model asks for, under a policy and the user's approval; the accounting module keeps
-- a double-entry ledger and the invoices that post to it.
--
-- The parts that are modelled, and where:
-- Prelude.antt and Prelude/: shared names, Go's int64 with its wrap-around (Int64), byte strings with
--   the functions of the package strings that are called (Str), maps as association lists (Assoc),
--   sort.Strings (Sort), errors as values (Tests, Results).
-- Tool.antt, Tool/Registry.antt: internal/tool/tool.go, the vocabulary of tools (Risk, Definition, Call,
--   Result, Errorf) and the Registry.
-- Client/Approval.antt: internal/client/approval.go. Policy.Evaluate is evaluate, Prompter.Confirm is
--   confirm; the lines of the terminal are a list that each prompt takes from, with what ends it.
-- Client/Harness.antt: internal/client/harness.go, Harness.handle as handle, and Set.Execute of
--   internal/client/actions/actions.go as execute. An action is a function on a world W, a parameter.
-- Llm/Message.antt, Llm/Router.antt, Llm/Complete.antt: internal/llm/llm.go, router.go and metrics.go.
--   Replace, Backend, Complete, CompleteOn and the measured call below them. A provider is a function
--   on a world, a parameter. The router is read three times in a turn, and a Replace may come between:
--   complete is given the router as each read finds it.
-- Agent/Ephemeral.antt: the pool of conversations in memory of internal/agent/transcript.go (Append,
--   Messages, Seed, Has, Len, Drop, evictLocked).
-- Agent/Store.antt: AppendMessages, Messages and SetSessionMemory of internal/store/sessions.go.
-- Agent/Transcript.antt: transcriptFor, the two transcripts and SetMemory of
--   internal/agent/transcript.go over the pool and the store.
-- Agent/Tools.antt: partition and runServerTool of internal/agent/agent.go, with the audit trail as a list.
-- Agent/Turn.antt: the loop of Advance of internal/agent/agent.go, with stamp, withPriorContext,
--   lastUserText and describe. The transcript is an interface (Log, with its law in Turn/Exchange), and
--   Router.Complete a parameter.
-- Accounting/Money.antt: internal/accounting/money.go, Extend and VAT; Money/Text: String, ParseMoney and
--   the text of a quantity.
-- Accounting/Model.antt: internal/accounting/model.go; Books holds the tables that the ledger uses.
-- Accounting/Date.antt: validDate and addDays of internal/accounting/service.go.
-- Accounting/Ledger.antt: Post, PostFrom, Reverse and LockPeriod of internal/accounting/service.go, and
--   the statements of internal/accounting/repository.go below them.
-- Accounting/Invoice.antt: the pricing loop of prepareDraft, invoicePostings, posting and paymentStatus
--   of internal/accounting/invoice.go.
-- Accounting/Documents.antt and Documents/: the life of invoices, credit notes and payments, of invoice.go,
--   invoice_repo.go and payment.go in internal/accounting. Desk holds the tables; Draft has CreateDraft,
--   UpdateDraft, DeleteDraft, prepareDraft and CreditNote, Steps has Issue and Void, Pay has RecordPayment and
--   DeletePayment, Run a run of any of them. The update of a document's paid total comes after the commit of
--   its payment, as in the source, so a payment can be stored by a call that then fails.
-- Accounting/Reports.antt and Reports/Sheet.antt: Balances of internal/accounting/reports_repo.go, and
--   TrialBalance, ProfitAndLoss and BalanceSheet of internal/accounting/reports.go.
-- The modules Tests under Tool, Client, Llm, Agent, Agent/Tools, Agent/Turn, Accounting and its children run the parts on concrete inputs.
--
-- How they interact: the harness asks the policy, then the prompter, then runs an action; a transcript
-- writes to the store, to the pool or to both, and SetMemory moves a conversation between the two; an
-- invoice becomes postings, which the ledger checks and stores; an issue writes its entry and takes its
-- number in one step; the reports read the ledger's entries.
--
-- Bounds and fuel: amounts are int64 and wrap around; ids, counts, sequence numbers and times are
-- numbers without a bound. The loop of evictLocked runs on fuel, the number of sessions, and each round
-- drops one. The loop of Advance runs on maxIterations, as in the source. A number in a text is printed
-- with 20 digits at most, enough for 64 bits.
--
-- Strings are lists of bytes. A SQL statement does what SQLite documents and a transaction is one step;
-- failures of the disk and of the network are left out, except that a provider and an action may fail.
-- A Go map is walked in the order of its list. Logging and printing are left out, and Marshal
-- and Unmarshal of encoding/json are parameters of the store. What Advance
-- prepares before its loop (the registry of the turn, the system prompt, the recall), expenses, funding,
-- aged receivables, the VAT return, the HTTP interface, the web pages and the other modules of the business
-- suite are not modelled.
pub mod Prelude
pub mod Tool
pub mod Client
pub mod Llm
pub mod Agent
pub mod Accounting
