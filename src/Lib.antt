-- ===== src/Lib.antt =====
-- cmdb: a configuration management database for the servers, builds and DNS zones of a site, in C.
-- This library models the core of its shared library, lib/, over the headers in include/, and two of
-- the programs' own parts, src/zones.c and src/createbuild.c, and proves what they promise each other.
--
-- The programs in src/ take names from the command line, turn them into identifiers with lib/helper.c,
-- and give lists of values to lib/queries.c, which runs the statements. Every list is an `AILLIST`
-- of lib/list.c; the values come from lib/data.c. lib/dnsa_net.c has the arithmetic of IPv4 networks
-- and what a new DNS zone puts into the database.
--
-- - Base: Boolean tests, lists and C's `int` over the native numbers; `in_order` makes calls one after
--   the other, up to the first that does not say 0.
-- - Heap, AilList: lib/list.c. An element (`AILELEM`) lives at an address of a heap; the struct
--   `AILLIST` is a record that each function returns anew. Every operation is a command that returns,
--   faults on a bad pointer, or runs out of fuel. Its theorems are total: the command returns.
--   Clone has the copies of elements.
-- - Data: the values of lib/data.c and the functions that add one to a list. From here on a list is the
--   sequence of its values. Growing and Filled have the growing string `ailsa_string_s`,
--   Partition the partitions of a scheme and the copy of a value.
-- - Hash: lib/hash.c, the hash of a key and the table of buckets, each the sequence of its elements.
-- - Query: the interface that lib/helper.c uses of lib/queries.c, a record of functions that answer
--   a query with a code and rows, and the frame of the functions of lib/helper.c, whose `goto
--   cleanup` is a chain that stops at the first code other than 0.
-- - Tables: the numbers of the queries, from the enums of include/ailsasql.h.
-- - Helper: lib/helper.c. Lookup finds an identifier by one name, Default falls back on a default,
--   Several takes several arguments, Check requires exactly one value, and Count counts values.
--   Replace has the prefix of a reverse zone and the replacement of an element of a list.
--   The children Answers give what they return for every answer of the database.
-- - Net: lib/dnsa_net.c, the arithmetic of networks. inet_pton, inet_ntop and strtoul are the fields
--   of `Inet`; theorems that need it assume that the first two are inverse on addresses other than 0.
-- - Zone: lib/dnsa_net.c, the rows of zones, the test for overlaps, the addition of zones (Reverse,
--   Forward), their validation and their serial numbers (Update). The clock, snprintf and getuid are the
--   fields of `Outside`; the calls that change the database and the files are those of `Actions`,
--   `ForwardActions` and `Files`. Table is the interface to the table of reverse zones: what the query
--   for overlaps selects is written out in Overlap, from the text of the statement.
--   Resolve has the look-up of a name by getaddrinfo, the parameter `Resolver`.
--   Writer, Disk and Published have the text and the files of zones, over `Services` (getservbyname) and
--   `Opens` (open); Readable is a reader of records, ReadBack, Headed, Services, Whole and Stored show
--   what it finds. `Answered` names what the database and the system answer for one zone.
-- - Sql: lib/queries.c and the half of lib/sql.c for SQLite. Basic, Argument, Insert and Change are the
--   tables of statements, with their texts; Multi has the statements for several rows, built in
--   buffers of fixed size; Lite opens the file, binds arguments, steps through the rows and cleans up.
--   The calls of sqlite3 are the fields of the record `Lite`; a `Session` counts the connections and
--   statements that are open. What is assumed of sqlite3 is named: `Accepts` (a prepared statement takes
--   a value for each of its places), `Prepares` and `PreparesChange` (the file opens, the statement is
--   prepared), `Yields` (the statement gives these rows and then ends). Dispatch has the functions that
--   the program calls, as they are in a build with SQLite and without MySQL, and Backend puts them behind
--   the interface of Query.
-- - Dns: src/zones.c. Records, Reverse and Sync have the synchronisation of a reverse zone with the
--   forward records of its range; Host the addition and the removal of a record; Commit the removal of a
--   zone and the validation and the publication of all zones; Glue the delegation of a zone. Steps has
--   the command line (`CommLine`), the calls that change the database and the files (`Changes`) and `Got`,
--   the monad of the early returns: a value, a code at `cleanup`, or a fault. InStep, Trim,
--   Rebuilt, Recorded and Delegated have the theorems, Kept, Gained, Mirror and Pairs their lemmas.
--   `RevTable` and `Says` name what the database answers for one reverse zone.
-- - Build: src/createbuild.c, the choice of an address for a build, its row and its record in the DNS.
--   `Site` names what the database answers for the build, Search follows the loop, and Assigned has what
--   the choice comes to.
--
-- Fuel: the loop of `ailsa_list_clean` removes an element in each round, so it gets one more than
-- the total. The two loops of `ailsa_list_pop_element` get any fuel. The loop over the rows of a
-- statement gets one more than there are rows. The search for an address of a build gets, for
-- every number up to the end of the pool, a round for each taken address and one more, and as many
-- rounds as are taken. All else is structural.
--
-- Bounds: `unsigned long int` has 64 bits and `int` 32; totals of lists and the sizes of texts are
-- unbounded, and counts that go into an `int` are assumed to be below 2^31 where that matters.
-- Memory allocation ends the program on failure, so it does not fail here. Log messages are left out.
--
-- Not modelled: the half of lib/queries.c and lib/sql.c for MySQL, the parser of the configuration,
-- what the items of a list hold when they are copied, the list of reverse zones for the name server,
-- build files, the displays, the aliases of a zone and the marks of preferred records in src/zones.c, the
-- parsers of the command lines, and the other programs. old/ holds earlier releases that the build leaves out.
pub mod Base
pub mod Data
pub mod Query
pub mod Tables
pub mod Helper
pub mod Heap
pub mod Hash
pub mod AilList
pub mod Net
pub mod Zone
pub mod Sql
pub mod Dns
pub mod Build
