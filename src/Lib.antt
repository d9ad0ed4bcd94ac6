-- ===== src/Lib.antt =====
-- The AI-based lesson design feedback system (README.md): a teacher uploads a lesson plan, asks
-- about it, has it judged against criteria, and plays its scenes before students that a language
-- model acts. This library models parts of its Python code, under app/, and proves what makes them
-- correct.
--
-- Sim (app/services/simulation): the lesson simulation. Sim.Errors is errors.py; Sim.Model has the
-- rows of app/models/simulation_*.py; Sim.Gemini is `call_many` of gemini.py, Sim.Reaction the
-- validators of llm_schemas.py and `student_utterance`, Sim.Agreement agreement.py, Sim.Prompt the
-- texts sent to the model. Sim.Store has the tables and the queries of session_service.py, and
-- Sim.Session its requests: Enter (`enter_phase`), Say (`say`), Move (`advance`, `finish`),
-- Again (`regenerate`) and Feedback (the write at the end of `generate` of feedback.py). Sim.Run puts
-- the writing parts of any number of requests in any order.
--
-- Sim.Setup is what surrounds them: Limit (`effective_max_personas` of persona_pool.py), Names
-- (`assign_pseudonyms`), Adapt (adaptation.py), Library (library.py), Listing (`list_sessions`) and
-- Scenes (phase_split.py, with `get_latest_upload` of lessonplan_source.py). Choose (`sample` and
-- `resolve_refs` of persona_pool.py) picks the students of a new session, which Create
-- (`create_session` of session_service.py) puts into the tables. Sim.Guidelines is
-- guidelines.py, the versions of the administrator's guidelines and the prompt they go into.
-- AppState (app/repositories/app_state_repository.py) is the key-value table.
--
-- Auth (app/services/auth_service.py, app/schemas/users.py): accounts. Auth.Policy is what an id
-- and a password may be, Auth.Users the table, Auth.Admin the administrator's login with its
-- counter of failures, Auth.Password logout and changes of passwords, Auth.Regular registration and
-- login of regular users.
--
-- Criteria: the evaluation criteria, kept in a table and as documents of a remote store.
-- Criteria.Table is app/repositories/criteria_repository.py. Of app/services, Criteria.Clean and
-- Criteria.Reconcile are criteria_reconciliation_service.py with criteria_legacy_migration.py, the
-- synchronisation of the table with the remote documents; Fetch is criteria_alias_map_service.py,
-- which finds the newest alias map and replaces it; Codec is alias_map_codec.py, and Freshness the
-- throttle criteria_freshness.py. The reconciliation uses the table by its operations and meets the
-- map as a value; what it writes is committed at its end or rolled back.
--
-- Admin.Deletion is app/services/admin_deletion_service.py: users, lesson plans, reports, sessions
-- and the files that belong to them. The file system is the list of the paths that exist,
-- and which of them can be removed is a parameter. Criteria.Reconcile takes the database session to
-- have no transaction open when it is called.
--
-- A request is a function from the committed tables to its result and the tables that it leaves. It
-- is cut where it waits for the model: `Env.meanwhile` is what other requests commit until then.
-- The session object that a request has loaded is an argument, and may be older than the tables.
-- Each request takes SQLite's write lock by `_lock_running` and holds it to its commit, so the
-- writing parts run one after the other. The refusal of a commit by the unique index on (session,
-- seq) is modelled (`insert_rows`). A reply shows the rows of the tables; in the service, whose
-- sessions do not expire on commit, a row that the request had loaded before is shown as it was then.
--
-- What is not under the repository is a parameter: the model (`call_structured`), Python's `re`,
-- `difflib`, `str.strip`, `str.lower` (`TextTools`, `StrTools`), `json.dumps`, the prompt file, the
-- draws of `random`, the remote store's answers, pydantic's parsing of them, SHA-1, base64, and the
-- clock. A text is its list of code points. bcrypt is a pair of functions, of which a theorem asks at
-- most that `verify` accepts what `hash` made. Floating-point columns are kept as text, since no
-- code computes with them; times are numbers of ticks.
--
-- The recursion is structural everywhere. Fuel is used three times: `show` of a number n has n + 1
-- rounds for at most n + 1 digits; the poll of an upload has the 31 rounds that its 60 seconds allow
-- at one poll in 2 seconds; the cutting of a text into chunks has as many rounds as the text has
-- characters, and every round takes one at least.
--
-- Not modelled: the routers, the middleware and the schemas, which wire the services to HTTP; the
-- loading of a simulated session; the making of a feedback and the reports; the analysis of lesson
-- plans and the questions and answers, which are mostly calls of the model; the file search service,
-- the exports, and the front end.
pub mod Base
pub mod Sim
pub mod AppState
pub mod Auth
pub mod Criteria
pub mod Admin
