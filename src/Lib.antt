-- ===== src/Lib.antt =====
-- A model of the core of a ticketing server written in Go: sessions and who may reach what, the
-- lifecycle of tickets with their notes, attachments, queues and lists, SLA targets and breaches, the
-- feed of live messages, the dashboard of managers, the outbox of webhooks, the interpreter of
-- workflows, and the configuration of a start.
--
-- How the parts interact. The middleware turns the credentials of a request into the claims of a
-- session, and the table of routes puts a guard before each handler. A handler of internal/httpapi
-- calls a service of internal/service with the claims. The service reads and writes tables through
-- internal/repo, appends to the event log, publishes to the sessions that watch the ticket, and
-- dispatches the event to the webhooks and the workflows. Webhooks and workflows keep their work as
-- rows, which polling workers claim; another worker claims overdue tickets and alerts them.
--
-- How the code corresponds to the files.
--   Common, Store: shared helpers; the tables as an interface with the laws that gorm documents for
--     First, Find, Count, Create, Save, Updates, Delete and the upsert, and a table in memory that
--     meets them. A service call is a function on a state that returns the new state and a value or
--     an error.
--   Config: internal/config/config.go.
--   Models: internal/models/models.go. A text type with constants is a data type.
--   Auth: the claims, API tokens and session tokens of internal/auth/auth.go.
--   Users: internal/repo/user.go, internal/auth/bootstrap.go and the handlers of users in
--     internal/httpapi/admin_handlers.go.
--   Sudo: internal/service/sudo.go, with internal/httpapi/sudo_handlers.go and auth_handlers.go.
--   Middleware: internal/middleware/auth.go. Http: the statuses and pages of a response.
--   Router: the table of routes of internal/httpapi/router.go.
--   Handlers, Listing: internal/httpapi/ticket_handlers.go, with `TicketRepo.List`.
--   Queues: internal/service/queue.go, internal/httpapi/queue_handlers.go, internal/repo/queue.go
--     and queue_membership.go.
--   Notes: internal/service/note.go, internal/repo/note.go.
--   Attachments: internal/service/attachment.go, internal/httpapi/attachment_handlers.go.
--   Hub: internal/sse/hub.go. Dashboard: internal/httpapi/manager_handlers.go.
--   Sla: internal/sla/sla.go, with `slaDueAt` of internal/service/queue.go.
--   Ticket/StateMachine: internal/service/statemachine.go.
--   Ticket/Desk, Ticket/Lifecycle, Ticket/Edits: internal/service/ticket.go (Create, Transition,
--     Assign, Pickup, MarkMitigated; UpdateFields, watchers and labels) with the repositories that
--     it calls. Ticket/Requests runs sequences of requests;
--     Ticket/History describes the rows and events that they write.
--   Visibility: `customerCanSeeTicket` and `loadTicketsList` of internal/httpapi/ticket_handlers.go,
--     `TicketRepo.List`, `NoteRepo.ListByTicket`, and `CanView` of attachments and of articles.
--   StageBar: internal/httpapi/stagebar.go. Backfill: internal/db/backfill.go.
--   Breach: internal/service/sla_breach.go and `ClaimNextBreach` of internal/repo/ticket.go.
--   Webhook: internal/webhook/dispatcher.go and internal/repo/webhook.go.
--   Summary: internal/service/aisummary.go and internal/repo/ai_snapshot.go.
--   Knowledge: internal/service/kb.go and internal/repo/kb.go.
--   Workflow: internal/workflow/engine.go and steps.go, internal/repo/workflow.go.
--   Tests: runs on small inputs.
--
-- Bounds. Numbers are natural numbers, and integers where the code subtracts or reads settings; times
-- are nanoseconds for a `time.Time` and seconds for the Unix times of the workers. The loop of
-- `nextStatus` has fuel for five rounds, one for each status, and no cascade is longer than two. The
-- loop of `execute` has one round for each step and one more, which is enough because every round
-- moves the index on. One reading of the clock serves a call of the ticket service, also for the
-- times that gorm stamps on rows and events. The product of the minutes of an SLA target wraps around
-- in 64 bits. A channel of the hub holds 16 messages, and a list shows at most 100 tickets, as in the
-- code.
--
-- Parameters. The tables and the order of their rows, the text templates and the formatting of
-- values, the HTTP exchange, the decoding of JSON columns and forms, the splitting of a list of event
-- names, the hashes, random bytes and hexadecimal digits, the JWT and bcrypt libraries, the sniffing
-- of contents, the full text search and the environment of the process are parameters, with what the
-- theorems rely on as hypotheses.
--
-- Not modelled: the templates and pages, the page of one ticket, the trend and activity rows of the
-- dashboard, problems, the handlers of categories, services, custom fields, organizations, webhooks,
-- workflows and articles, the AI drafts and the language model, the polling
-- loops, the metrics, mail and logging, the opening of the database, and the demo data.
pub mod Common
pub mod Models
pub mod Store
pub mod Auth
pub mod Sla
pub mod Ticket
pub mod Visibility
pub mod StageBar
pub mod Backfill
pub mod Breach
pub mod Webhook
pub mod Workflow
pub mod Summary
pub mod Knowledge
pub mod Tests
pub mod Middleware
pub mod Http
pub mod Users
pub mod Sudo
pub mod Notes
pub mod Attachments
pub mod Dashboard
pub mod Hub
pub mod Queues
pub mod Handlers
pub mod Router
pub mod Listing
pub mod Config
