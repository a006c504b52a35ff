-- ===== src/Lib.antt =====
-- The decision logic of manyfaced, a honeypot that answers on many ports, learns what bots try and
-- reports it. A connection is first classified by its bytes; HTTP requests go through a router, with
-- a table of six hundred routes, to handlers, each with a cache of bot profiles; the other protocols
-- have responders of their own; reports are sent with retries to a server, which classifies and
-- stores them.
--
-- Base holds what the components share: tests on numbers, lists under the native numbers, texts as
-- lists of code points (bytes are the numbers below 256), dictionaries in insertion order, decimal
-- numbers, integers with Python's slices, UTF-8 with replacement and percent-decoding.
--
-- Protocol: manyfaced/common/protocol.py. Regex is a backtracking matcher in continuation-passing
-- style with a declarative language; Signatures has the table, detect_protocol and
-- is_http_request; Info has get_protocol_info, one definition per block.
-- Redis: manyfaced/handlers/redis_handler.py. Resp has _parse_resp_command and
-- _encode_resp_value, Reply has extract_redis_credentials and generate_redis_response. A raised
-- exception is a value of Reply.
-- Metrics: manyfaced/common/metrics.py. Every operation is one step, as it runs under the lock.
-- Router: manyfaced/handlers/router.py. A handler class is a record of functions on the state of
-- its instance; an exception is a missing response; the instances are keyed by the route's index.
-- Routes: the tables of manyfaced/handlers/routes/ in the order of dispatch, one definition per file
-- of the source; an entry names its handler class, and the classes are an argument, as is the
-- entropy test of the fingerprint route.
-- Telnet: manyfaced/handlers/telnet_handler.py; Passes has the passes over the text of a frame.
-- Vnc: manyfaced/handlers/vnc_handler.py. Rdp: manyfaced/handlers/rdp_handler.py without the
-- credentials, which it only logs.
-- Mongodb: manyfaced/handlers/mongodb_handler.py, the wire messages and BSON; Decoder has the reader,
-- whose positions are Python's signed ones.
-- Extractors: manyfaced/client/cred_extractors.py.
-- Ports: manyfaced/common/ports.py, the redirect tables and their inverses.
-- Handler: the profile cache of manyfaced/handlers/base_handler.py, an ordered dictionary.
-- Profile: manyfaced/handlers/bot_profile.py and manyfaced/handlers/patterns.py; Recording has the
-- operations that change a profile.
-- Classification: manyfaced/common/classification.py, on the decoded entries of the TOML file.
-- Credentials: manyfaced/common/credential_extractor.py.
-- Geolocate: the cache of manyfaced/common/geolocate.py; times are whole seconds.
-- Sender: the retry loop of manyfaced/client/report_sender.py; what a socket does in an attempt is
-- an argument. Message has the report that is made of a BearStorage and its message.
-- Values: what json.loads gives, what Python reads off it, and exceptions as values.
-- Server: manyfaced/server/server.py with manyfaced/db/dbconnect.py, from a message to the storage and
-- the reply; the cipher, json and the backend are the record Backend.
-- Storage: manyfaced/db/sql_builder.py, and in Backends the two inserts of manyfaced/db/storage.py;
-- what the databases do is an argument.
-- Queue: the bounded queue, the workers and the shutdown of manyfaced/handlers/report_queue.py, as a
-- step relation whose steps interleave in any order.
-- Config: manyfaced/common/config_resolver.py; the environment and the TOML file are arguments.
-- Tests: concrete runs.
--
-- Loops are structural, or run on a count that the code has: the arguments that a frame declares,
-- the attempts that are left. Regular expressions repeat a class of one character, so a repetition
-- is structural in the input. `show_nat` and the compiler of glob patterns run on fuel that each
-- step uses one of: a number has fewer digits than the successor of its value, and a pattern has no
-- more pieces than characters. The BSON reader runs on fuel too, and its loop need not end: the
-- fuel there stands for the patience of the caller.
--
-- Not modelled: sockets, threads and locks beyond the atomicity of the locked operations, logging,
-- files, the databases themselves and the queries of the dashboard, encryption, HTML pages, random
-- choices, which are arguments, and clocks, whose readings are arguments. The Unicode
-- tables of `str.upper`, `str.lower` and `str.isspace` are those parts that Base writes out; the
-- digits are those of Unicode 15, and `int` reads at most 4300 of them, its default.
pub mod Base
pub mod Protocol
pub mod Redis
pub mod Metrics
pub mod Router
pub mod Ports
pub mod Handler
pub mod Profile
pub mod Classification
pub mod Credentials
pub mod Geolocate
pub mod Sender
pub mod Config
pub mod Tests
pub mod Queue
pub mod Routes
pub mod Values
pub mod Storage
pub mod Server
pub mod Telnet
pub mod Vnc
pub mod Rdp
pub mod Extractors
pub mod Mongodb
