-- ===== src/Lib.antt =====
-- CLibrary is a library of small C components, here those that hold state and logic: a ring
-- buffer for threads, timers, a packet decoder, a hash map and a log. They do not call one
-- another; a program links what it needs, as the demonstrations of main.c do.
--
-- Ring (ring_buffer.c): a FIFO of pointers between a writer and a reader. `Ring` is the
--   structure, and each function has the name of its C function without `zx_ringbuffer_`. A call
--   that waits takes the turns of the other side as a list: before each new test of its condition
--   the other side makes some calls, and `waiting` is the answer of a loop that still turns where
--   the list ends. A pthread call that fails is `aborted`. Both modes (condition variables and
--   polling) are the same loop over those turns. Ring/Bounds has the invariant, Ring/Fifo the
--   values from oldest to newest, Ring/Wait the calls that wait, Ring/Try the calls that do not
--   and the queue that they implement, Ring/Bulk the calls on arrays, Ring/Locked the calls under
--   a spin lock, where the lock call is a parameter that says what buffer it finds. Ring/Threads
--   has one writer and one reader whose single loads, stores and pthread calls interleave, with
--   the two locks and conditions, and Ring/Shared any number of callers of the versions under the
--   spin locks, which are taken and given back as they should be; each thread sees what the other
--   has stored at once, which the plain fields of the structure leave to the compiler and the
--   machine.
-- Timer (timer.c): a queue in the order of its times, and a wheel of spokes. A tail queue of
--   queue.h is a list, an `unsigned long` a number below 2 ^ 64. Timer/Check is `zx_timer_check`,
--   Timer/Edit `zx_timer_del` and `zx_timer_reset`, Timer/Queue and Timer/Wheel what holds of the
--   two kinds, Timer/Count the statistics, Timer/Agenda a session of calls on a wheel against a
--   bag of events, Timer/Destroy what `zx_timer_destroy` frees. A check of a wheel counts its
--   ticks without the bound of the int of the code, so that the theorems on its times ask for
--   fewer than 2 ^ 31 ticks.
-- Packet (packet.c, packet_private.c, ip4.c, ip6.c, tcp.c, udp.c, ipaddr.h): the decoders fill a
--   packet from a list of bytes; a pointer into the bytes is an offset. A read outside the bytes,
--   or a write behind `tcp_option`, is `fault`. The decoders call one another on fuel, for which
--   twice the length and 2 is enough where no IP header is empty (Packet/Decode/Ends), and
--   `no_fuel` is a recursion or loop that has not ended: the loop over the TCP options gets two
--   rounds more than `tcp_option` has places, which is always enough. The byte order is that of a
--   little-endian machine. Packet/Decode/Wire has the bytes of a UDP datagram in an IPv4 packet.
-- Hashmap (hashmap.c): a table with linear probing over at most eight slots. The CRC and the
--   mixing of its hash are exact on 64-bit words; `hashmap_put` and `hashmap_rehash` call each
--   other on fuel, and `calloc` is a parameter. A key is the bytes of its string, so a key that
--   its owner changes after the call is outside the model. Hashmap/Crc has the CRC bit by bit,
--   Hashmap/Stale two keys that start at the same slot, Hashmap/Placed and Hashmap/Refine what a
--   table filled by `hashmap_put` alone stands for, and Hashmap/Session a run of calls on it.
--   `table_size` is not bounded as an int is. Each rehash doubles the table, so the fuel is
--   enough once the doubled size is more than `calloc` gives (Hashmap/Total).
-- Log (log.c, log.h): the static variables are `Log`; what reaches the outside is a list of
--   events. Whether `fopen` succeeds, the file name of a day and the text that `vsnprintf` makes
--   of a message are parameters; `none` is the `fprintf` to a NULL stream. Log/Session is a
--   sequence of messages, Log/Redirect the first message after `log_file`.
-- Demo (main.c): what each program prints. Demo/Map puts sessions into a hash map and reads them
--   back, with the list library as a record of operations and laws; Demo/Queue and Demo/Wheel use
--   the timers, with the readings of the clock and the numbers of `rand` as functions. A loop
--   without an end takes the number of its rounds.
--
-- Not modelled: lock.c and lock.h (a copy of PostgreSQL's spin lock) and the pointers of queue.h;
-- list.c, list_iterator.c and list_node.c (a copy of a third-party list); packet_stats, which
-- only hands out a pointer. A call that frees memory is the list of what it frees.
pub mod Base
pub mod Ring
pub mod Timer
pub mod Packet
pub mod Demo
pub mod Hashmap
pub mod Log
