-- ===== src/Lib.antt =====
-- The resource monitor: a configuration is scanned into triggers and logs, a sampling manager polls the
-- provider of the resources' states once a second, keeps logs of the means and counts how long each
-- trigger is exceeded, and a predicate engine passes fired triggers on to predicates, whose callbacks
-- send mails. Users choose logs and predicates over a small web server.
--
-- Which file models which part (paths from the repository's root):
-- - Config/Types, Config/Hash, Config/Print: include/configrawdata.hpp,
--   src/library_src/configrawdata.cpp. The two Resource enumerations have the same members and are
--   one type.
-- - State: CpuState, RamState and HddState of include/ and src/library_src/. A failed assertion in
--   their operator> is none.
-- - Double: what the program does with double, as an instance argument.
-- - Lexer: src/library_src/flex.cpp, include/flex.hpp and flex/configparser.l. Lexer/State holds the
--   globals and the stack of start conditions, Lexer/Pattern and Lexer/Table the rules, Lexer/Rules
--   their bodies (the switch of yylex), Lexer/Scan the matching loop and ConfigurationParser::run.
--   Lexer/Syntax describes the lines of a configuration as data, with the text they are written as
--   (blanks only where the rules need or allow one, units MB and GB in capitals, small letters
--   otherwise) and the records they mean; Lexer/Decimal to Lexer/RoundTrip run the scanner over such
--   a text, one match, item, series and line at a time.
-- - Flex: what flex generated, src/library_src/flex.cpp. Flex/Accepting, Flex/States, Flex/Next and
--   Flex/Check are its tables as they stand, Flex/Cases the numbers of the cases, Flex/Machine the loop
--   under yy_match and yy_find_action, Flex/Buffer the case YY_END_OF_BUFFER with
--   yy_get_previous_state and yy_get_next_buffer, Flex/Stream yylex on the stream. Flex/Residual takes
--   the rules of Lexer/Table one character at a time, Flex/Greedy and Flex/Choice compare that with
--   Lexer/Scan, Flex/Reached, Flex/Views and Flex/Agreement compare the tables with the rules state by
--   state, and Flex/Classes to Flex/Tokens run the loop.
-- - Sampling: src/library_src/SamplingManager.cpp and include/SamplingManager.hpp. Sampling/Triggers
--   is initializeTriggers, processTriggers and fireTrigger; Sampling/Logs the buffers and
--   processLogs; Sampling/Mean the three getters of means; Sampling/Manager the constructor and
--   pollingFunction; Sampling/Thread startSampling, stopSampling and the destructor, with
--   waitForEndOfSampling of the tests;
--   Sampling/Buffer the interface of boost::circular_buffer.
-- - Predicate: Predicate.hpp, PredicateTypes.hpp and their .cpp files.
-- - Engine: include/PredicateEngine.hpp, and connectPredicateEngine as deliver.
-- - Provider/Linux: LinuxResProvider.hpp and LinuxResProvider.cpp, with the functions of C's
--   library that it reads files with in Provider/Scanning.
-- - Provider/Windows: WindowsResProvider.hpp and WindowsResProvider.cpp.
-- - Web: the handlers and the page of src/main.cpp; Web/Response and Web/Browser are a client that
--   reads a response and the options of the page. Monitor: the manager and the engine together.
-- - System: main of src/main.cpp: the rounds of the poller and the requests of the server as steps of a
--   relation on the state that they share, and the start from the text of a configuration. Each round
--   and each request is one step; a handler that throws changes nothing. A round calls its callbacks,
--   each with the connection that its mail finds, and ends with the exception of the first that
--   throws; System/Callbacks says which callbacks it calls. System/Boot starts the program, where the
--   buffers can be allocated. System/Server has the resources with the text of their responses.
-- - Mail: include/smtp_client.hpp, and sendMailFunction of src/main.cpp in Mail/Notification.
-- - Tests/EngineCases, Tests/ManagerCases and Tests: the cases of tests_src, with the mocks of the
--   provider and of the sampling manager, on whole numbers in place of double.
--
-- Conventions. A long of the configuration comes from digits and is a natural number; an overflow in
-- the scanner is a fault. Unsigned 64-bit arithmetic of the provider wraps. A map is an association
-- list with one entry for each key; the order in which an unordered map is iterated over is the
-- list's. A failed assertion, an exception and undefined behaviour are none, or a fault in the
-- scanner. The callbacks that an operation calls are part of its result, in their order.
--
-- Fuel. The scanner runs on as much fuel as the text is long; each match takes a character, so this
-- is enough, and the scanner on the stream takes one turn more, for the end of the file. The loop over
-- yy_def has fuel 5, and no chain of the tables needs more. All other loops are structural.
--
-- Parameters: double (Double), boost::circular_buffer (CircularBuffer with the laws IsCircular), the
-- files, times, sysinfo, the Windows API and the clock (arguments), the fields of a parsed query
-- (a list in the order of the iteration), boost::hash_combine, boost::asio::write on a socket, the
-- errors of the network, the base64 text of boost, and whether buffers of some capacities can be
-- allocated (allocates in System/Boot).
--
-- Not modelled: the copy of another project (the web server), a NUL in a configuration,
-- files that cannot be opened,
-- the memory of the scanner's buffer and the functions for several buffers, which nothing calls, what
-- the mail server answers, messages for debugging, the tests of the getters, the rounds before
-- connectPredicateEngine is called, and data races between the poller and the other threads.
pub mod Prelude
pub mod Config
pub mod Double
pub mod State
pub mod Sampling
pub mod Predicate
pub mod Engine
pub mod Flex
pub mod Lexer
pub mod Mail
pub mod Provider
pub mod Web
pub mod Monitor
pub mod System
pub mod Tests
