-- ===== src/Lib.antt =====
-- A model of spectatord, the daemon that collects the metrics of a host and sends them to an Atlas backend.
--
-- A client sends lines to the daemon. `Server` (server/spectatord.cc) splits a datagram into lines, parses each line in
-- one of two protocols, and calls the meter that the line names. Names and tags are interned (`StringPool`, `Tags`, `Id`),
-- the meters live in the tables of the registry (`Meter`, `MeterMap`, `Registry`), percentile meters go through a
-- cache (`Percentile`, `Buckets`, `ExpiringCache`). The publisher takes the measurements of the registry in batches,
-- writes a payload for each (`Publisher`, `Smile`), posts it with retries (`HttpClient`), and counts what the backend took.
-- Datagrams come in through `Sockets`, `Program` applies the flags of the command line, and `Admin` shows the state,
-- changes the common tags and deletes meters.
--
-- Files and code:
--   Base, Int: lists, tests and signed integers over native numbers; a 64-bit integer keeps its wrap-around written out.
--   Float: C++ doubles, a parameter with named laws of IEEE 754; Float/Fixed is an instance for the examples.
--   CText: C strings as memory that pointers walk.
--   StringPool: spectator/string_pool.cc and string_pool.h (`Intern`), and the table of tools/gen_valid_chars.cc.
--   Tags: spectator/tags.h; the children say what the entries, the lookups, the array and equality do.
--   Id: spectator/id.h; Id/Refs: spectator/common_refs.h.
--   Meter/Counter, Meter/Gauge, Meter/Monotonic, Meter/Distribution: spectator/counter.cc, gauge.cc, max_gauge.cc,
--     age_gauge.h, monotonic_counter.cc, monotonic_counter_uint.cc, monotonic_sampled.cc, dist_summary.cc, dist_stats.h, timer.cc;
--     `measure_*` is `Measure`, and the others carry the method's name.
--   MeterMap: `meter_map` of spectator/registry.h; a shared pointer is an address in a heap of meters.
--   Registry, Registry/Meters: spectator/registry.cc and the class and `all_meters` of registry.h. Registry/Tables and
--     Registry/Invariant are about the nine tables.
--   Smile: spectator/smile.cc and smile.h; Smile/Decode is an independent reader of the Smile format.
--   Buckets: spectator/percentile_buckets.cc and the tables of tools/gen_perc_bucket_values.cc.
--   Percentile: spectator/percentile_timer.h and percentile_distribution_summary.h.
--   ExpiringCache: server/expiring_cache.h.
--   Server/Lines, Server/Line, Server/Measurement, Server/Statsd: `parse_lines`, `parse_line`, `get_measurement` and
--     `parse_statsd_line` of server/spectatord.cc; Server/Upkeep: a round of `upkeep`.
--   Publisher: spectator/publisher.h. Payload is `measurements_to_json` and what it calls, with an independent reader of
--     the format in Payload/Reader; Batches is the loop over batches; Pool has the tasks of the thread pool as a relation of
--     steps; Response is `handle_aggr_response`; Lifecycle is `Start` and `Stop`, with the global set-up of HTTP; Send is
--     `send_metrics`, which composes them.
--   HttpClient: spectator/http_client.cc (`perform`, `Get`, `Put`, `Post`); Entry: spectator/log_entry.h; Url: `PathFromUrl`
--     of spectator/strings.cc; Headers: the callback of headers.
--   Admin: admin/admin_server.cc (`handleRequest` and its handlers); CommonTags also has `UpdateCommonTag` and
--     `EraseCommonTag` of spectator/registry.cc; MeterName is `parse_id`.
--   Sockets: Systemd is util/systemd.h; Receive is the handler of a datagram in server/udp_server.cc and local_server.cc;
--     Proc is server/proc_utils.cc.
--   Program: the part of `main` in bin/spectatord_main.cc that applies the flags; CommonTagsFlag is the loop over tags,
--     and CommonTagsFlag/Complete the texts that it takes.
--
-- Time is passed in where the code reads a clock. Code outside of the repository is a parameter: the number parsers of
-- the C library (`CLib`) and the doubles (`Float`), the exchanges of libcurl, the parsers of JSON, the order in which a hash
-- table is iterated, and what the kernel says of sockets and files. A hash table is an association list. Each method is
-- one step, also where the code has several atomic accesses without a mutex: what another thread does between them is left
-- out, but for the tasks of the publisher's pool, whose steps are interleaved. The texts of names and tags stand for the
-- references to them, and what interning adds to the pool of strings is no part of the parsers' state.
--
-- Fuel: `tag_loop`, `statsd_tag_loop` and `parse_lines` move on by a character in each round, so one more than the length of
-- the text is enough, as it is for `parse_tags` of the admin server; the loop over batches takes a round for each
-- measurement at most, `perform` makes three attempts, and the reader of a payload has the length of the payload; `fill` makes
-- fewer than 20 values, and `high_bit` looks at 64 bits.
--
-- Not modelled: the threads of the server with their start and stop, signals and logging; compression, and the set-up of
-- the handles of libcurl; the bodies that the admin server sends for GET; `Percentiles`, which tests alone call; the
-- load generator, samples and benchmarks.
pub mod Base
pub mod Int
pub mod Float
pub mod CText
pub mod StringPool
pub mod Tags
pub mod Id
pub mod Meter
pub mod MeterMap
pub mod Registry
pub mod Smile
pub mod Buckets
pub mod ExpiringCache
pub mod Percentile
pub mod HttpClient
pub mod Admin
pub mod Sockets
pub mod Program
pub mod Publisher
pub mod Server
