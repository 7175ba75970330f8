-- ===== src/Lib.antt =====
-- A model of mwanachama-backend-comm: the chat, the direct messages, the moderation, the standing
-- messages, the threads about records and the notifications of an organization's members, and the
-- addresses by which strangers reach them.
--
-- The program keeps its rows in a database, through gorm and the package specstore. A store (one
-- for each domain) does what one method asks of its tables; a manager stands before the stores and
-- asks who the caller is. The model follows it:
--
-- - Base: native numbers and strings, lists, the integers. A string that the code walks is a list of
--   its runes (`Text`); one that is only compared is a native string. An instant is a number of
--   nanoseconds, and 0 is the zero time. The clock (`now`) and a minted id (`minted`) are arguments.
-- - Errors, Errors/Classify (errors.go): the errors of all domains, and what `classify` makes of a
--   driver's. The text that `fmt.Errorf` adds to a wrapped error is not kept.
-- - Exec: an action on tables, which returns a value or an error; what was written before an error
--   stays, but in a `Transaction`, whose laws are gorm's: an error undoes, a commit keeps or fails.
--   Exec/Steps: what the steps of an action returned, from what it returned.
-- - Sql: one table, as a record of statements with the law of each: it succeeds with what SQL says,
--   or fails with a driver's error. Sql/Memory and Sql/Commit meet the laws in memory. A value that
--   specstore encodes as a row is taken as the row; the errors of that encoding are left out, and so
--   is the scoping of rows to a test run (testrun.go). `ORDER BY` a text goes by its bytes; a query
--   with no order gives its rows in the order of insertion, which SQL does not promise.
-- - Validate (validate.go, patterns.go), Roles (roles.go): the declared rules of a row. The
--   specification and the encoding are parameters.
-- - Address/Code (models/address_code.go), Address/Hours (models/address_hours.go), Address/State
--   (models/address.go), Address/Store (address_impl.go), Address/Directory
--   (models/address_directory.go): an address's letters and digits, its weekly hours, its state, how
--   it is stored and looked up. SHA-256 and
--   the time zones are parameters. Four runs of three or four rounds write an address.
-- - Dm/Types (models/directmessage.go), Dm/Roster (dm_roster_impl.go), Dm/Messages (dm_impl.go and
--   dm_message_impl.go), Dm/Manager (manager_dm.go): conversations. `RosterCall` names the calls
--   that change a roster, and `run` makes one. Dm/Roster/Contract says when a call is permitted and
--   what it writes, and the modules beside it prove that the calls keep to that.
-- - Moderation/Types, Moderation/Acts, Moderation/Store (models/moderation.go,
--   models/moderation_act.go, moderation_impl.go, moderation_dismissal_impl.go): reports, removals,
--   disputes and dismissals. The host's `ActWriter` is a parameter, with a log of its own that the
--   transaction covers, as it covers what is written through the `sql.Tx` that it is given.
-- - Chat/Types, Chat/Label, Chat/Threads, Chat/Messages, Chat/Manager (models/chat.go, chat_impl.go,
--   chat_read_impl.go, chat_archive_impl.go, manager_chat.go): threads, messages and readers. The
--   host's `Belonging` and `Leading` are parameters, and so are the tables of Unicode. A statement in
--   plain SQL selects what its text says, or fails. `DeclineThread` calls itself when its update met
--   no row: `decline_round` takes that second call as an argument.
-- - Chat/Start (manager_chat_start.go), Chat/Activity (chat_impl.go), Chat/ReadById
--   (manager_read_by_id.go): threads that members ask for and leads decline, each in one transaction
--   with its notifications; the summary of activity; one message by its id.
-- - Notification/Category, Notification/Types, Notification/Store (models/notification_category.go,
--   models/notification.go, notification_impl.go): the vocabulary, raising, reading, muting. The call
--   of `onRaised` after a notification is stored returns nothing, and is left out.
-- - Notification/Receipts (notification_acknowledgement_impl.go), Notification/Audience
--   (manager_audience.go, manager_recipients.go), Notification/Rules (models/notification_rule.go,
--   manager_settings.go): what is acknowledged, whom the host names, and the host's rules. Where one
--   call raises several notifications, the clock and the minted id of each are given by its recipient.
-- - Standing/Types, Standing/Schedule, Standing/Store, Standing/Manager (models/standing.go,
--   standing_impl.go, manager_standing.go): messages that are posted at each occurrence of a schedule.
--   The package recur is a parameter, with the law that `Between` keeps to its bounds.
--   Standing/Store/Once has a relation whose steps are the calls of workers that run at the same
--   time; a worker may send a row however long ago it has read it.
-- - Subject/Types, Subject/Store, Subject/Manager, Subject/Posting (models/subject.go,
--   subject_impl.go, manager_subject.go, manager_record.go, manager_read_by_id.go): threads about a
--   record. How an actor stands to a record, and who answers for it, are the host's to say. A posting
--   and its notifications are one transaction over both stores' tables (`SubjectRoom`).
-- - Push/Types, Push/Store, Push/Delivery (models/push.go, push_impl.go, push_delivery.go,
--   manager_push.go): subscriptions of browsers, and what is recorded of each delivery. The sender,
--   the parsing of URLs and base64 are parameters.
-- - Manager (manager.go): the manager's methods that do more than call a store.
-- - Identity (identity_owner.go): the stable identity of a stored object. The package identity is a
--   parameter.
-- - Tests: each theorem at a concrete input.
--
-- Not modelled: the constructors and the wiring of the manager (store.go, blueprint.go), the DDL
-- (provision.go, cmd/ddl), the transports (routes, mcp) and the encryption of webpush.go, which is
-- glue or stands on code of other packages; the statement of the address directory's search, which
-- joins a table of the host's; and the goroutines of push delivery.
pub mod Base
pub mod Errors
pub mod Exec
pub mod Sql
pub mod Address
pub mod Roles
pub mod Validate
pub mod Dm
pub mod Moderation
pub mod Chat
pub mod Notification
pub mod Standing
pub mod Subject
pub mod Push
pub mod Manager
pub mod Identity
pub mod Tests
