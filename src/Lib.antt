-- ===== src/Lib.antt =====
-- The web console of bv-Orchestrator (frontend/src): a React application by which the users of an
-- orchestrator of robots see and change its processes, jobs, triggers, queues and assets.
--
-- Parts and files:
--   Targets    frontend/src/main.tsx: `target` is the chain of tests on the hash, with the prefixes of the
--              public and the protected routes.
--   Route      frontend/src/main.tsx: the router. `render` and `effect` are the component's render and its
--              useEffect, with the navigation that they do; `round` is one of each, and `settle` the
--              rounds until the hash stays (Redirects, Rounds, Authenticated, LoginScreen, Unauthenticated
--              and Laws prove where it stays; Prefixes and Protected what is guarded).
--   Session    frontend/src/auth.tsx: AuthProvider. `step` is one event (a login, a logout, a refresh at
--              its start and at its answer, any other answer that the wrapper of fetch sees); the
--              router reads its status.
--   Storage    localStorage and its items, which Session and Nav read.
--   Nav        frontend/src/components/AppLayout.tsx: the bar's entries, permissions, and logout.
--   Trigger    frontend/src/components/TriggerModal.tsx: the form (Trigger), the cron expression
--              (Cron), the errors (Validate), the inputs (Edits), what is sent (Modal, with
--              frontend/src/api/triggers.ts), and the searched list of timezones (Select); Page and
--              Hidden have frontend/src/pages/TriggersPage.tsx.
--   Dialog     frontend/src/components/DialogProvider.tsx: the dialog and the promises it settles.
--   Login      frontend/src/pages/Login.tsx: the submit handler, with the session and the hash that it sets
--              (Race has the router beside it); SdkAuthPage.tsx (Sdk, Once), and
--              ForgotPasswordPage.tsx, ResetPasswordPage.tsx and InviteAcceptPage.tsx (Forms, Links).
--   Account    frontend/src/pages/MyAccountPage.tsx: the profile, the password, the picture.
--   Packages   frontend/src/pages/PackagesPage.tsx: the rows of the table (Grouping, Rows), the window of
--              versions (Versions), the deletions (Deletions) and the upload (Upload).
--   Processes  frontend/src/pages/ProcessesPage.tsx: the form and its check, the list (Actions), the label
--              of a script (Label).
--   Queues     frontend/src/pages/QueuesPage.tsx and frontend/src/api/queues.ts: the list and its
--              selection (Selection), the form, the answers of the server.
--   Machines   frontend/src/pages/MachinesPage.tsx: the list, the deletion, and the windows that show a
--              key (Secrets).
--   Audit      frontend/src/pages/AuditPage.tsx: the filters, the pages and the requests under way
--              (Settled: what they come to).
--   Logs       frontend/src/components/LogsView.tsx: the export (Csv, Reader) and the pages (View).
--   Robots     frontend/src/pages/RobotsPage.tsx: the form of a robot, its check, and what is saved.
--   Settings   frontend/src/pages/SettingsPage.tsx and frontend/src/api/settings.ts: the check of the
--              email settings (Save), the page (Page), and a visit to it (Visit).
--   Dashboard  frontend/src/api/dashboard.ts and the ring of frontend/src/pages/DashboardPage.tsx (Ring).
--   Register   frontend/src/pages/Register.tsx: the form, its check (Accepts), and its answer; the regular
--              expressions stand in Common.Pattern.
--   Users      the users of frontend/src/pages/ManageAccessPage.tsx, and its invites (Invites); Stale has the
--              answers that come late.
--   Bulk       the selection (Refines: the set that it is) and the loop of the bulk deletion that these
--              pages repeat.
--   QueueItems frontend/src/pages/QueueItemsPage.tsx: the optimistic changes, the selection, the order.
--              NewItem has the window of a new item.
--   Jobs       frontend/src/pages/JobsPage.tsx: the filter, the durations, the pages and the order (Order,
--              Ordered) of the list, and what its inputs ask of the server (Requests, Fresh).
--   Assets     frontend/src/pages/AssetsPage.tsx: the form of an asset, its check and its payload, and the
--              list with what the user may do (Page; Login has auth.tsx beside it).
--   Roles      the matrix of permissions of frontend/src/pages/ManageAccessPage.tsx, with
--              frontend/src/api/access.ts (Reopen: a role that is saved and opened again), and the list and
--              the window of the roles (Page).
--   Client     frontend/src/api: the calls of the server (Assets, Robots, Machines, Processes, Jobs, Packages,
--              Triggers, Queues, Items, Access, Me), what each sends (Requests) and what it makes of the
--              answer (Answers, Outcomes; Decode and Views build the values); InSession has auth.tsx beside
--              them.
--   Queries    frontend/src/api/logs.ts and frontend/src/api/audit.ts: the query strings.
--   ProcessTypes  frontend/src/utils/processTypes.ts: the label of a process type.
--   Toasts     frontend/src/components/ToastProvider.tsx: the stack of toasts and their timers.
--   Avatar     frontend/src/components/Avatar.tsx: the letter and the colour of a user.
--   Json       the values of JSON with the property access of the language; Json.Case is toCamel and
--              toSnake of frontend/src/api.
--   Common     what the parts share: tests, lists, texts, numbers and integers of the language.
--
-- How the code is read:
--   An async handler is two functions, up to its await and after it; the answer of the server is an
--   argument of the second, and events may stand between them. A call of api/ has one await, and is a
--   record of what it sends and what it makes of the answer (Client); `perform` runs it with a server,
--   a function of the request, and JSON.parse and encodeURIComponent are its parameters. The hash, localStorage and
--   sessionStorage are fields of a state. A `number` is exact: an integer, a text with a decimal point
--   between two integers, an infinity or NaN; a text becomes one by the grammar of Number(text). Case
--   mapping is that of ASCII letters, and a length counts characters. A priority of a queue item is a
--   natural number, and a date of a job or a package is the milliseconds that it stands for: a date that
--   is there is a valid one, where the code makes a text that is no date NaN (first_date of Jobs). The sort
--   of an array is stable, by insertion; localeCompare and the query parameters that the browser's URL
--   reads are parameters. `settle` runs on fuel,
--   one unit for each round; the theorems on it are stated at the fuel that they need.
--   The answer to the refresh on mount is given to the wrapper of fetch as any other (refresh_reply of
--   Session), where auth.tsx installs the wrapper after that refresh: only the hash after a 401 differs.
--   A load of the queues page is its start, the queues and the statistics, whose values are left out; the
--   arcs of the dashboard's ring are exact fractions of its circumference. The theorems of
--   Client.Requests, Client.Outcomes and Client.InSession are about the calls of assets.ts, robots.ts,
--   machines.ts, processes.ts, jobs.ts, triggers.ts and packages.ts but the download and the signature of
--   an entrypoint (Client.Operations): the calls of access.ts, queues.ts and queueItems.ts, which send an
--   empty Bearer where there is no token, are modelled without them.
--
-- Not modelled: markup, styles and focus, the server (backend/, which answers fetch), and the pages,
-- components and calls of fetch that no file above names.
pub mod Common
pub mod Json
pub mod Targets
pub mod Route
pub mod Storage
pub mod Session
pub mod Nav
pub mod Trigger
pub mod Dialog
pub mod QueueItems
pub mod Toasts
pub mod Avatar
pub mod Jobs
pub mod Assets
pub mod Roles
pub mod Queries
pub mod ProcessTypes
pub mod Packages
pub mod Login
pub mod Account
pub mod Processes
pub mod Bulk
pub mod Queues
pub mod Machines
pub mod Users
pub mod Robots
pub mod Settings
pub mod Audit
pub mod Logs
pub mod Register
pub mod Dashboard
pub mod Client
