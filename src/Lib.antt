-- ===== src/Lib.antt =====
-- The backend of the Kingsway academy: a model of its data, its store in memory, its sessions, its
-- academic, financial and notification services and its rate limiter.
--
-- The program. backend/internal/domain has the entities and the rules on single values. The store
-- (backend/internal/store) keeps them; its implementation Memory holds one Go map for each table,
-- with indexes beside four of them, under one lock. The services check who may do what and call
-- the store: backend/internal/auth has the tokens, the passwords and the accounts,
-- backend/internal/academic the branches, people, courses, classes, rooms, lessons and exams,
-- backend/internal/finance the payments and the salary models,
-- backend/internal/notification what people are told.
-- backend/internal/httpapi receives the requests, limits their rate, and runs those with an
-- idempotency key through RunIdempotent of the store.
--
-- The files.
--   Base, Base/*: shared names, signed and 64-bit integers, texts, lists, sort.Slice.
--   Map: Go's map[string]V, and its laws; Map/Index: a table with an index; Map/Sweep: the loop that
--     deletes rows with their index entries.
--   Domain/Errors, Enums, Entities: errors.go, the constants, entities.go. Domain/Rules: role.go,
--     file_policy.go, schedule.go, pagination.go, fin.go. Domain/Salary: salary.go. Domain/Overlap,
--     Paging, Fin, Swap: proofs about them. Domain/Texts: the texts of the constants.
--   Store/State: the struct Memory of store/memory.go. Store/Branches, Users, Staff, Students,
--     Teachers, Courses, Rooms, Schedules, Payments, Files, Idempotency: the methods of memory.go,
--     one function each, under the method's name in snake case. Store/Academic:
--     store/academic_memory.go. Store/Notifications: store/notification_memory.go.
--   Store/Listings: the listings and lookups beside those. Store/Pages: store/memory_pagination.go and
--     pagination.go; Store/Pages/Slices: a proof.
--   Store/Reach: a method call as a step, and the stores that calls reach. Store/Keeps, Touches,
--     Untouched: how a statement about a store is carried through a method. Store/Indexes and below,
--     Store/Booking, Originals, Cascade, Replay, Enrolment: proofs about the store.
--   Auth/Tokens: auth/token.go. Auth/Service: auth/service.go. Auth/Accounts: the interface UserStore
--     of service.go, what the service relies on, and Memory as one. Auth/Libraries: golang-jwt and
--     bcrypt as parameters. Auth/Service/Sessions, Logins, Privileges, Revocation: proofs.
--   Academic/Inputs, Rooms, Schedule, Exams, Students, Teachers, Filters: the files of
--     backend/internal/academic with these words in their names. Academic/Branches, Staff:
--     branch_staff_service.go. Academic/Courses, Classes: course_class_assignment_service.go.
--     Academic/Dates: validation.go, and time.Parse and Format for its two layouts. Academic/Steps:
--     what these share. Academic/Ways: the ways through a function of a service. Academic/Calls: a
--     call of a service as a step. Academic/Isolation and below, Refinement and below, Visibility,
--     Dates/RoundTrip, Schedule/Planning, Schedule/Planned: proofs.
--   Store/TeacherFinance: the finance records of teachers in memory.go and memory_pagination.go.
--   Finance: backend/internal/finance/service.go. Finance/Publishing, Salaries, Visibility: proofs.
--   Notification: backend/internal/notification/service.go. Notification/Creation, Repeat: a
--     proof.
--   Http/RateLimit: the rateLimiter of httpapi/middleware.go; Http/RateLimit/Bound: a proof.
--   Store/Tests, Domain/Tests, Auth/Tests, Academic/Tests, Finance/Tests,
--     Notification/Tests, Http/Tests: runs at concrete inputs.
--
-- How the model stands to the code. A method takes the store and returns its result with the
-- store that it leaves; the lock is held for the whole of it, so a method is one step, and
-- requests interleave method by method. RunIdempotent releases the lock while the handler runs:
-- its start and its end are steps of their own in Store/Reach, and the whole run takes the
-- handler as an argument. Readings of the clock and new ids are arguments. A new id is fresh for
-- the table that it goes into: that is a premise of the steps that create indexed rows,
-- scheduled items and files. UpdateTeacher is a step only where it leaves the user of the
-- teacher as it is, as its callers do. A Go map is an association list; the order of a `range`
-- does not matter where the code ranges, but for the order of equal elements in a sorted listing
-- and for which row is found first. The interfaces of academic/contracts.go are the methods of
-- Memory. A function of a service makes several calls of the store; in the model nothing comes
-- between them. An int or int64 wraps around at 64 bits where the code computes with it. A
-- time.Time is the number of nanoseconds since the zero time, and a day is a day in UTC. Scores
-- are whole numbers. JSON payloads are texts. The constructor `other` of an enumeration stands
-- for the texts that no other constructor of it stands for. ToLower, ToUpper and EqualFold
-- change the ASCII letters and the characters whose other case is one. What is published stands
-- beside an outcome; the API server gives the finance service no publisher, so that there
-- nothing is. Recursion is structural everywhere, so there is no fuel.
--
-- What is not modelled: the Postgres store, whose logic is SQL; the services of files and
-- administration; HandleEvent of the notifications, their payment reminders and workers;
-- ListStudentAssignmentHub; CalculateSwapAllocation of the finance service with its cache (the rule
-- itself is in Domain/Salary); the HTTP handlers and the other middleware; the adapters of Redis,
-- RabbitMQ, MinIO and zap; the outbox dispatcher; the frontend and the scripts.
pub mod Base
pub mod Map
pub mod Domain
pub mod Store
pub mod Auth
pub mod Http
pub mod Notification
pub mod Academic
pub mod Finance
