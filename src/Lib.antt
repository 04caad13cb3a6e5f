-- ===== src/Lib.antt =====
-- Verification library of LabBridge, a control plane (server/) with edge agents (agent/) that
-- collect, parse, check and archive instrument files and report what they found (core/ is shared).
--
-- The agent schedules its tasks by cron expressions, parses the files it collects as CSV into
-- records, and reports files and records to the server, after a growing delay where a delivery
-- failed. The server starts a run for each scheduled time and for each request of an operator, once
-- however often the request is sent, checks that the task can be run, fixes the inputs of a run that
-- is retried, recognises a repeated report by a fingerprint of its content, and raises alerts for
-- quality results, which an operator acknowledges and closes.
--
-- Which file models which part:
--   Core/Cron.antt      core/src/cron_schedule.cpp. `parse`, `matches` and `next_after` are the three
--                       methods of CronSchedule; `parse_field` is the body of the loop of `parse`.
--                       The UTC calendar (gmtime_r) is a parameter. `mark` runs on fuel maximum + 1,
--                       enough since a step is at least 1; `search_from` on one round more than the
--                       minutes of kSearchLimit.
--   Agent/Csv.antt      agent/src/parsers/csv_parser.cpp. A file is its bytes, with the `bad` flag of
--                       its stream; `scan` is the loop of `parse_csv_line` and `step_in` its switch,
--                       `parse_lines` is the loop of CsvObservationParser::parse. The JSON text of a
--                       string (nlohmann) is a parameter, and so is whether it throws, at bytes that
--                       are not UTF-8: the exception leaves `parse`. Agent/Csv/Line.antt holds the
--                       grammar.
--   Agent/RetryDelay.antt
--                       agent/src/execution/reliable_delivery_client.cpp, `retry_delay`, `stable_hash` and
--                       the check of the interval. Durations have no width: a maximal interval is far
--                       below 2^63 / 200000 seconds, where the products would pass 64 bits.
--   Json.antt           values of nlohmann::json, which are passed between the parts; the library turns
--                       them into text and back, and is a parameter where that is done.
--   Server/Timestamp.antt
--                       server/src/application/task_run_service.cpp, `is_rfc3339_utc` and its helpers.
--   Server/RetryFiles.antt
--                       task_run_service.cpp, `resolve_retry_files`: `resolve_file` is the body of its
--                       loop. The raw files and the runs of the database are functions from an id.
--   Server/Executability.antt
--                       server/src/application/task_executability.cpp, with the reads of the repositories
--                       and Json::parse as parameters.
--   Server/TaskRuns/    server/src/application/task_run_service.cpp (Start, Operator and the records of
--                       Requests) over server/src/postgres/task_run_repository.cpp (Table, Repository).
--                       The table `task_runs` is a list of rows with the next value of its key, and an
--                       INSERT looks for the rows that the two unique indexes of deploy/schema.sql keep
--                       apart. `Database` holds what PostgreSQL makes of a text, the tasks as a call
--                       finds them, and the row that LIMIT 1 without an order takes, `Services` the other components. A call is one step, since the lock of
--                       the task and of the run makes it one; a statement that throws ends the call and
--                       leaves the table as it was. An empty text stands for NULL. Steps.antt is the
--                       relation of the calls, Effects.antt what each does to the table.
--   Server/FilesJson.antt
--                       server/src/application/task_run_files_json.cpp. Server/TaskRuns/FailedFiles.antt
--                       takes its functions for those that `FilesJson` of the task runs asks for.
--   Server/Receipts.antt
--                       server/src/postgres/agent_report_receipt_repository.cpp over the table
--                       `agent_report_receipts`. The four lists of ids of a row are the text they are
--                       written from; the check of the table on the type of a request is left to the
--                       reader of the row, which throws.
--   Server/ReportFiles.antt
--                       agent_report_service.cpp, `validate_failed_files`: `check_files` is its loop.
--   Server/Manifests.antt
--                       agent_report_service.cpp, `accept_raw_file_manifest`, in the transaction of
--                       server/src/postgres/agent_report_executor.cpp, over the receipts. The service of
--                       the task runs and that of the results are parameters over a state of their own.
--   Server/Returns.antt the postconditions of calls over a table, and a rule for each form of a call.
--   Server/Fingerprint.antt
--                       server/src/application/agent_report_service.cpp, FingerprintBuilder,
--                       `manifest_fingerprint` and `report_fingerprint`. The values that a function
--                       appends are a list, `append_all` appends them. SHA-256 (OpenSSL) is a
--                       parameter, which may fail and yields bytes. Enum values and texts that the
--                       services share are in Server/Models.antt.
--   Server/Alerts.antt  server/src/application/alert_service.cpp over
--                       server/src/postgres/alert_repository.cpp. The table `alerts` is a list of rows
--                       with the next value of its key; the row lock makes each call one step. The
--                       clock of the database is an argument, and the reads of the other repositories
--                       are functions. core::Status is in Server/Status.antt.
--   Prelude/            what the parts share: texts as lists of bytes, lists measured by native
--                       numbers, signed numbers, decimal text, results that may be errors.
--
-- Strings are lists of bytes. Instants are signed counts of nanoseconds without overflow. A message
-- for a person is a value of a data type where nothing reads its text. The numbers of a report are
-- signed without a width: the code passes them to `long long` without arithmetic.
--
-- Not modelled: the HTTP, JSON, SQLite and libpq layers, the file system and hashing, the wiring of
-- the programs, logging, and the web console; of the server's services those other than the parts
-- above; of the agent its scheduler, queue, executor and the loop of the delivery.
pub mod Prelude
pub mod Json
pub mod Core
pub mod Agent
pub mod Server
