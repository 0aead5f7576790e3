-- ===== src/Lib.antt =====
-- rpiweatherd, a weather daemon that queries a sensor, stores its measurements, runs triggers on them
-- and serves them over HTTP.
--
-- The parts, and where they are modelled:
--   Base       numbers, tests, lists and integers; `Outcome`, a value or a named fault, for code that
--              can run into undefined behaviour (a null pointer, a write past a buffer, ...)
--   CLib       the functions of the C library that the code calls on strings: strtok_r, strcpy,
--              strcmp, strstr, strdup, atoi, strtol. Whether an allocation succeeds is a parameter.
--              Blocks of memory that are allocated and freed are CLib.Heap.
--   Util       src/util.c: lines, units of time and dates, and files (Util.Files). strtof, strptime
--              and fwrite are parameters.
--   Http       src/http.c and include/http.h: break_request (Http.Request), the parameters
--              (Http.Params), parse_http_request (Http.Parser), make_response (Http.Response) and the
--              freeing of a command (Http.Release). The request line goes through rpiwd_getline,
--              break_request, the loop over the parts and the check for duplicates.
--   Trigger    src/trigger.c and include/trigger.h: the parser of a line (Trigger.Parse), the static
--              table (Trigger.Load), the conditions (Trigger.Eval), the arguments (Trigger.Args),
--              trigger_exec_callback (Trigger.Exec) and list_triggers (Trigger.Listing). Floats are a
--              parameter, Trigger.Floats.
--   Device     devices/dht11.c: the driver, over the sequence of levels that the pin has; src/device.c:
--              the table of devices and the selected one (Device.Table).
--   Config     src/confighandler.c: the entries of the configuration, their check, and the file
--              (Config.File), with the ini parser as a parameter; the blocks of its strings
--              across a reload (Config.Reload).
--   Daemon     src/rpiweatherd.c: the options (Daemon.Arguments), the start of main with its checks
--              (Daemon.Start), the queries of a round of query_loop (Daemon), and its rounds with
--              the signals (Daemon.Loop).
--   Data       src/datastructures.c: entries and entry lists (Data.Entries), the lists of keys and
--              values (Data.KeyValues), and the JSON values, as the list of calls that make them
--              (Data.Json), and freeing (Data.Release). The serializer itself is a parameter.
--   Database   src/dbhandler.c: the start (Database.Start), the queries (Database.Fetch) and the
--              messages of db_thread_event_loop (Database.Thread). SQLite is a parameter, the record
--              `Sqlite`: what it answers for a text, and the data base behind a change.
--   Listener   src/listener.c and include/mqmsg.h: the message, the SQL texts of include/dbhandler.h
--              (Listener.Queries), the commands fetch, current, config and statistics
--              (Listener.Fetch, Listener.Current, Listener.ConfigCommand, Listener.Statistics), their
--              table (Listener.Table), and the loop of a worker (Listener.Worker), which calls the
--              parser of Http, dispatches to the callbacks, makes the JSON value, and answers, closes
--              or passes the message on; the bytes of its replies (Listener.Replies), what it frees
--              behind an answer (Listener.Release), and the start of the threads and their socket
--              (Listener.Start).
--   System     the threads together: a state with the data base, the variables of each worker, and
--              the queues of the workers and of the data base; a step relation with a step for a
--              client that is accepted, for a measurement, for a round of a worker and for a round of
--              the data base thread; the number of rounds that messages take; and the way of one request
--              through all of them (System.Answers).
--   Tests      runs on concrete inputs, and the theorems at such inputs.
--
-- Strings are lists of bytes without their NUL; a `char *` that may be NULL is an Option. The state
-- of errno is passed on where the code reads it. The functions return what the C functions write
-- through their pointers besides what they return. Where memory is freed, a structure is known by the
-- addresses of its blocks instead, and the state is the list of the addresses of the live blocks.
--
-- Fuel: the loop over the parts of a query (parse_parts), whose caller gives it the length of the
-- query, the loop over the buffers of a copy (copy_loop), whose caller gives it one more than the
-- length of the file, and the loop over the attempts of a round (query_data), for which 64 calls are
-- enough with the codes of the sensor. The loop of the driver has its own bound of 96 reads.
--
-- Not modelled: what the reload of query_loop does, beyond the order of its calls, the strings of
-- the configuration and the triggers; the sockets, beyond their addresses and the bytes that are
-- written; the bound of the queues and the cancelling of threads; the allocations as blocks, beyond
-- the triggers, the strings of the configuration and what is freed of a command and behind an answer;
-- logging. deps/ holds other projects' code: the JSON serializer and the ini parser
-- there are parameters.
pub mod Base
pub mod CLib
pub mod Util
pub mod Http
pub mod Trigger
pub mod Device
pub mod Config
pub mod Data
pub mod Listener
pub mod Database
pub mod Daemon
pub mod System
pub mod Tests
