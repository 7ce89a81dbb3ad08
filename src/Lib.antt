-- ===== src/Lib.antt =====
-- VMS-AI: the logic of the video management backend under cpp-backend/.
--
-- Cameras feed detectors; a detector raises a RawEvent (Events); the rule engine (Rules) matches
-- the event against the composite rules, holds it back by its anti-noise checks, records what
-- fired in its log and hands the actions to the delivery, the recorder and the snapshots. The HTTP
-- API in front of it guards its login with the rate limiter (RateLimiter); a webhook that an alert
-- posts to passes the gate of UrlValidator first. A recognized face also goes to the attendance
-- tracker (Attendance), which hands its rows to a batched writer (BulkWriter), and detections of
-- protective equipment go to the counters of PpeCompliance. Detections of a camera are followed
-- from frame to frame by the tracker (Tracker), whose tracks are counted where they cross a line
-- (PeopleCount). Raw events of several cameras are merged to incidents by the correlator
-- (Correlator). The frames of a camera go to its consumers over the bus (FrameBus), and the
-- packets that a recording begins with wait in a buffer (BufferManager). Links to snapshots and
-- videos are signed (MediaSigner).
--
-- How the code becomes definitions. A C++ object is a record of its fields, a member function is a
-- function on that record that returns the record and the result, and a mutex makes each call one
-- step, so that an interleaving of threads is a list of calls. A call of the clock is an argument:
-- one call of a member function reads one time, though the code reads the clock again within it. A
-- std::unordered_map is an association list (Prelude/Keyed), and theorems that need it take that its
-- keys are distinct. A std::string is the list of its bytes. Logging is left out.
--
-- RateLimiter is cpp-backend/include/utils/rate_limiter.h. Times are nanoseconds of the
--   steady_clock; a cutoff before its start is 0, with no attempt before it. is_allowed,
--   record_failure, record_success and evict_stale are isAllowed, recordFailure, recordSuccess and
--   evictStale; check_login, record_login_failure and record_login_success combine them for the
--   login. Call, step and run (a history of calls) are the specification's.
-- Events is cpp-backend/include/events/event_types.h and cpp-backend/src/events/event_types.cpp, the
--   event, its enums and their names.
-- Rules is cpp-backend/include/events/rule_engine.h and cpp-backend/src/events/rule_engine.cpp.
--   Rules/Model has the data, Rules/Store the changes of rules (addRule, updateRule, removeRule,
--   getRule, getNextRuleId), Rules/Conditions evaluateCondition and evaluateConditions, Rules/Noise
--   checkAntiNoise and what it calls, Rules/Evaluate evaluateEvent, executeActions and the trigger
--   log. Local time is a parameter, a function from the clock to the hour and the day of the week.
--   A callback is a number, and what the engine asks of other parts is a list of effects. Rule ids
--   and counts of type int are unbounded integers: their overflow is left out; the uint64_t counters
--   wrap around.
-- BulkWriter is cpp-backend/include/utils/bulk_writer.h. enqueue, take_batch with settle (the two
--   halves of loop, before and behind the flush), start, stop_accepting and drain (the two halves of
--   stop) are its operations; BulkWriter/Runs interleaves them. How a flush comes out is an input.
-- Attendance is cpp-backend/include/core/attendance_tracker.h and
--   cpp-backend/src/core/attendance_tracker.cpp; its rows go to a BulkWriter. on_face_recognized
--   is a whole call, made of the test (counts, row_of) and the write (record_punch) that the source
--   puts under separate locks: the theorem is about calls that do not overlap, while two event
--   workers can overlap. The database's answers and std::atoi are arguments.
-- UrlValidator is cpp-backend/include/utils/url_validator.h and
--   cpp-backend/src/utils/url_validator.cpp, the gate in front of the alerts' webhooks: extract_host,
--   is_private_ipv4, is_private_ipv6, is_internal_url and build_resolve_entry. The resolver,
--   inet_ntop, std::stoi and the printing of numbers are arguments.
-- PpeCompliance is cpp-backend/include/core/ppe_compliance_aggregator.h and
--   cpp-backend/src/core/ppe_compliance_aggregator.cpp: record_tick is recordTick, snapshot_ring is
--   what snapshot counts for one camera. The theorem compares the ring with a plain list of ticks.
-- Correlator is cpp-backend/include/events/event_correlator.h and
--   cpp-backend/src/events/event_correlator.cpp. Correlator has the tests of two events
--   (are_correlated), Correlator/Cluster clusterEvents, Correlator/Merge mergeEvents and
--   Correlator/Buffer processEvent, processBuffer and the setters. Float arithmetic is a parameter.
-- PeopleCount is cpp-backend/include/core/people_count_tracker.h and
--   cpp-backend/src/core/people_count_tracker.cpp: check_crossings takes the reports of Tracker. A
--   history of frames is PeopleCount/History.
-- FrameBus is cpp-backend/include/core/frame_bus.h and cpp-backend/src/core/frame_bus.cpp. Which
--   objects are alive, and so which weak_ptr locks, is given to each call.
-- BufferManager is cpp-backend/include/recording/buffer_manager.h and
--   cpp-backend/src/recording/buffer_manager.cpp.
-- Tracker is cpp-backend/include/core/tracker_state_manager.h and
--   cpp-backend/src/core/tracker_state_manager.cpp. Tracker has the data, Tracker/Steps the steps of
--   updateFrame, resetCamera and trackCount, Tracker/History runs of them.
-- MediaSigner is cpp-backend/include/utils/media_signer.h and
--   cpp-backend/src/utils/media_signer.cpp: presign_path and verify_presign are its two functions,
--   the clock and the settings their arguments. MediaSigner/Links says what verify_presign asks for,
--   MediaSigner/Presigned what text presign_path makes.
-- Hash is cpp-backend/include/utils/sha256.h and cpp-backend/include/utils/sha1.h: Sha256.hash,
--   Sha1.digest and Sha1.hmac run on the bytes of the source, with the 32-bit wrap-around.
-- Totp is cpp-backend/include/utils/totp.h and cpp-backend/src/utils/totp.cpp, over Sha1.hmac.
-- Auth is cpp-backend/src/utils/jwt_utils.cpp (Auth/Jwt, Auth/Issue; the test of
--   a ticket's address is compared with a plain one in Auth/Issue/Addresses),
--   cpp-backend/src/middleware/auth_middleware.cpp (Auth/Validate and Auth/Gate),
--   cpp-backend/include/utils/password_hash.h (Auth/Passwords) and the handlers of
--   cpp-backend/src/api/user_controller.cpp that give out sessions (Auth/Login): before_handle
--   composes the table of public paths, the session cookie, validate_token and
--   MediaSigner.verify_presign, login the limiter, the password, the directory and the tokens,
--   verify_second_factor Totp.verify_code. jwt-cpp is a record of what a token carries and whether
--   it verifies, and a function that signs; the argon2 library, LDAP and what the user table
--   answers are arguments, and a handler's writes to the table a list.
-- StreamHub is cpp-backend/src/streaming/camera_stream_manager.cpp, the WebSocket hub: Slots the caps
--   on connections, Tickets the one-time use of tickets, State the maps and the lists of clients,
--   Hub the handlers onNewConnection, processTextMessage and socketDisconnected, Events
--   broadcastEvent. Hub takes decode_ws_ticket_jwt of Auth; Entry joins it to the tickets of
--   Auth/Issue.
--   Sockets are numbers, and the count of an address, an int in the source, is unbounded; what QPointer still reaches and the cameras of a user are arguments.
--
-- Fuel: a few loops run on fuel. The search of clusterEvents has one unit for each event: a round
-- takes a marked event from the queue, and an event is queued once. The greedy loop of updateFrame
-- has one unit more than there are detections: a round marks one. The loops of the digests and of
-- the codes that add one byte at a time have 64 and 6 units, as many as they can need. Every other
-- loop is over a list.
--
-- Not modelled: SQL and its database, JSON, HTTP, sockets, processes, FFmpeg, OpenCV, neural
-- networks and the web frontend; of the parts above, the video packets of the hub and their
-- back-pressure, the administration of users, and of the rule engine the loading, the migration and
-- the statistics.
pub mod Attendance
pub mod Auth
pub mod BufferManager
pub mod BulkWriter
pub mod Correlator
pub mod Events
pub mod FrameBus
pub mod Hash
pub mod MediaSigner
pub mod PeopleCount
pub mod PpeCompliance
pub mod Prelude
pub mod RateLimiter
pub mod Rules
pub mod StreamHub
pub mod Totp
pub mod Tracker
pub mod UrlValidator
