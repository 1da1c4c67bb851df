-- ===== src/Lib.antt =====
-- A model of libredis.a, the storage engine of Redis as an embedded library, and its correctness.
--
-- The library keeps every database in hash tables (dict.c) whose values are strings, lists, sets,
-- sorted sets and hashes. A set of integers is an intset (intset.c), one sorted array in a block of
-- bytes. The commands of the t_*.c files reach both through db.c.
--
--   Common     words, bytes and the allocator, signed integers, Boolean tests
--   IntSet     intset.c and intset.h; _intsetGet is `get`, intsetGet is `get_at`
--   Dict       dict.c and dict.h, for any callbacks (DictType) with the laws of keyCompare,
--              hashFunction and sdsversion_change
--   ValueItemList  value_item_list.c, the list that carries the results of a command; `link_last`
--              and `link_first` are the code that the rpush and the lpush functions share
--   Util       util.c: ll2string and the functions that tell which strings are prints of integers
--   Sds        sds.c and sds.h: strings with a version and a logical clock, and the callbacks that
--              redis.c gives to a dictionary that has them as keys; Sds/Buffer has the buffer of a
--              string with its unused bytes
--   Store      the calls of dict.h that db.c makes, with their laws: an interface, which
--              Store/FromDict fills from Dict
--   Object     object.c: string objects, their encoding as integers and the numbers they hold
--   Db         db.c over two stores: lookups, writes, times of expiry and the logical clock
--   Client     struct redisClient and the steps that the commands share
--   Strings    t_string.c: set, setnx, setex, get, getset, incr, decr, incrby, decrby
--   Zipmap     zipmap.c: the compact map from strings to strings in one block of bytes
--   Keyspace   the commands of db.c: del, exists, type, expire, ttl, persist
--
-- IntSet models the array byte by byte: `contents` is a function from byte offsets to bytes, load and
-- store are the little-endian accesses through a pointer cast, memmove copies a range, and `Allocator`
-- stands for zmalloc and zrealloc, of which only realloc's promise to keep the old bytes is assumed.
-- Lengths and sizes are modulo 2^32 as in the source. The binary search has one unit of fuel for each
-- element and one more; each round narrows the window, so that it never runs out.
--
-- Dict models both tables, `rehashidx`, the pending iterators and the global flag dict_can_resize.
-- A bucket is a list with its head first. The lookup of a key is the entry found in the first table,
-- else in the second. The doubling in _dictNextPower has 64 units of fuel, one for each bit of an
-- unsigned long. A write through the dictEntry pointer that dictFind returned is `write_found`.
--
-- ValueItemList models the nodes in memory, by their addresses, with 0 for NULL; a push takes the address
-- that zmalloc returned. `Threads` says which addresses a list's pointers thread. A client's iteration and
-- the release of a list have one unit of fuel for each node and one more. For the release, in
-- ValueItemList/Heap, the memory also tells which nodes zfree has not taken and how many references each
-- object has.
--
-- Util prints a long long with 20 units of fuel, one more than it can have digits. strtoll is the C
-- library's, a parameter; assumed of it is that its values are long longs, and that it reads a decimal
-- numeral to its end.
--
-- Db stands for a View: the entry, the time and the clock that each key sees; statistics, rehashing and
-- the order of chains are forgotten. `Stands` says that a database does so, and that every key it holds
-- has a logical clock and only keys it holds have a time. Functions that assert something return an
-- Option; `none` is a failed assertion or a redisPanic. time(NULL) and shared.lruclock are the Clocks of
-- a call. Times are integers without bounds. A command takes a Client with its database, its key and
-- the server's count of changes, and `Leaves` says with which code, count and view it ends.
--
-- Objects are values, so that a set of a shared integer's clock is seen under its key only. What strings
-- other than integers hold is their bytes; the other types are a parameter O of Robj. expireCommand takes
-- the number that getLongFromObject reads from its argument.
--
-- Zipmap models the block as the list of its bytes; a pointer is an offset or the bytes from there on, and
-- zrealloc is a parameter that keeps what the old and the new size share. `IsZipmap` says which entries a
-- block holds, with the unused bytes after each value; sizes are unsigned ints. The loops have as much
-- fuel as the block has bytes, and an entry has at least three.
--
-- Sds/Buffer has `len`, `free` and the bytes of a string; the clock and the version, which the functions on
-- the buffer keep, stand in Sds. The two are ints and sizes are size_t, both with their wrap-around.
-- Sds/Shape has the same functions on numbers without bounds; Sds/Agree shows that they agree on strings
-- shorter than 2^30 bytes, for which sdsMakeRoomFor asks for less than 2^31.
--
-- Not modelled: freeing memory, but for value_item_list.c, and its exhaustion; iterators and
-- dictGetRandomKey; the time in dictRehashMilliseconds; the hash functions of integers; the glob
-- matcher and memtoll; sdstrim, sdssplitlen, sdscatrepr and the formatted printing of sds.c;
-- dbRandomKey; the other object types with their commands; most reference counts, the eviction of keys
-- and the periodic job; the vendored lzf_c.c, lzf_d.c and pqsort.c.
pub mod Common
pub mod IntSet
pub mod Dict
pub mod ValueItemList
pub mod Util
pub mod Sds
pub mod Store
pub mod Object
pub mod Db
pub mod Client
pub mod Strings
pub mod Keyspace
pub mod Zipmap
