-- ===== src/Lib.antt =====
-- Basic components of a server: the C components of this repository, with their promises proved.
--
-- The components do not call one another, but for MinHeapTimer, which stands on MinHeap:
--   - MinHeap: minheap.c and minheap.h under
--     3.2高性能组件/3.2.2定时器方案红黑树，时间轮，最小堆/timers_src/example/minheap. The array `p` is a
--     function from indices to entries; each entry's min_heap_idx and time are maps. MinHeap/Gap,
--     MinHeap/Settles, MinHeap/ShiftUp, MinHeap/ShiftDown and MinHeap/Refill are about the heap with a
--     hole that shift_up and shift_down move, MinHeap/Operations and MinHeap/Adjust about the
--     operations as a whole.
--   - MinHeapTimer: mh-timer.h beside it, over MinHeap. add_timer, del_timer, expire_timer; callbacks
--     are an argument.
--   - TimeWheel: timewheel.c and timewheel.h under timers_src/example/timewheel. near[] and t[][] are
--     functions from indices to lists; TimeWheel/Slots says which node belongs where,
--     TimeWheel/Placed, TimeWheel/Shift and TimeWheel/Tick that add_node and timer_shift keep to it,
--     TimeWheel/Handlers what callbacks may do, TimeWheel/Execute what timer_execute does,
--     TimeWheel/Punctual and TimeWheel/Adding when timers run, TimeWheel/Clear what clear_timer frees.
--   - MemPool: mmpool.c under 3.1池式组件/3.1.2内存池的实现与场景分析/src/example. MemPool/Fit is about
--     the test for room, MemPool/Grant and MemPool/Block about what the two branches do to the nodes,
--     MemPool/Safety about the pieces handed out, MemPool/Create about a new pool, MemPool/Depth about
--     the calls of mp_alloc and mp_alloc_large by one another, MemPool/Release about what is given
--     back.
--   - Deadlock: deadlock_success.c under 3.2高性能组件/3.2.4手写死锁检测组件/src/example. Deadlock/Graph
--     is the graph of waiting threads, Deadlock/Cycle the search in it, Deadlock/Locks the bookkeeping
--     before and after a mutex is taken, Deadlock/Locks/Hooked the calls of all threads, in any order,
--     with the search between them, while there are no more than MAX vertices and slots.
--   - ThreadPool: thread_pool.c under 3.1池式组件/3.1.1手写线程池与性能分析/src/example. ThreadPool/Chain
--     is about LL_ADD and LL_REMOVE, ThreadPool/Runs about one turn of a worker, ThreadPool/Once about
--     all orders of steps, ThreadPool/Shutdown about the loop of ntyThreadPoolShutdown and what comes
--     behind it, ThreadPool/Setup about ntyThreadPoolCreate.
--   - SingleWheel: single_tw.c under timers_src/example/timewheel_single. SingleWheel/Beats is about
--     `used` and the connections that are dropped, SingleWheel/Adding about add_conn.
--   - SkipList: skiplist.c and skiplist.h under timers_src/example/skiplist. The nodes of each level are
--     a list, its row: SkipList/Rows says how the pointers lead along it, SkipList/Find what order the
--     rows are in and where the search of zslInsert and zslDelete ends, SkipList/Placed and
--     SkipList/Dropped what a row is with a node more or less, SkipList/Link and SkipList/Unlink what the
--     loops over the levels do to the pointers, SkipList/Create, SkipList/Insert, SkipList/First,
--     SkipList/Delete and SkipList/Remove that the operations keep the order. SkipList/Order is about
--     the drawn level. SkipList/Timers is skl-timer.c: SkipList/Timers/Expire is about expire_timer,
--     SkipList/Timers/Refines about any sequence of its functions against a sorted list.
--   - RbTimer: rbt-timer.h under timers_src/example/rbtree, over a tree that is an argument (rbtree.c is
--     a copy of nginx's). RbTimer/Expire is about expire_timer.
--   - Dns: async_dns_client_noblock.c under 3.1池式组件/3.1.3异步请求池的实现/src/async. Dns itself has
--     the request and dns_parse_name, Dns/Response dns_parse_response, Dns/Async the commits and the
--     thread that answers them, Dns/Client the blocking client. Dns/Memory is about bytes in memory,
--     Dns/Labels about the name in the question, Dns/Names about names with compression pointers,
--     Dns/RoundTrip about the request and the name read back, Dns/Response/Questions and
--     Dns/Response/Answers about the two parts of a response, Dns/Async/Sockets and Dns/Async/Accounts
--     about the requests that wait. A buffer is a map from offsets to bytes, without an end: what is
--     written past an array is said by the bounds in the theorems.
--   - LockFreeQueue: ArrayLockFreeQueue.h and ArrayLockFreeQueueImp.h under
--     3.2高性能组件/3.2.3无锁消息队列实现/src/cas_queue. `access` is one access of a thread to what is
--     shared, with the tests up to the next; Reach is any interleaving of any number of threads, in
--     sequential order. LockFreeQueue/Ring is about indices modulo the size, LockFreeQueue/Invariant,
--     LockFreeQueue/Changes and LockFreeQueue/Turns about what each access keeps, LockFreeQueue/Fifo
--     and LockFreeQueue/Progress about all interleavings.
--   - TryCatch: the macros and ntyExceptionThrow of trycatch_finally.c under
--     3.2高性能组件/3.2.1原子操作CAS与锁实现/src/example. `exec` runs a program in the macros over the stack
--     of frames, TryCatch/Reference says what exceptions mean without a stack, TryCatch/Refines that
--     the two agree.
--   - Reactor: reactor.h and adapter.h under 3.1池式组件/3.1.4mysql连接池的实现/src/redis-async. The epoll
--     instance is what it watches each descriptor for, and which calls of epoll_ctl fail for want of
--     memory or the like is an argument; Reactor/Interest is about one change of a mask,
--     Reactor/Sound about any calls of the adapter's callbacks, Reactor/Loop is the event loop.
--   - DbPool: CDBPool of DBPool.cpp under 3.1池式组件/3.1.4mysql连接池的实现/src/mysql_pool. PoolTurn is one
--     turn of a thread that holds the mutex, GetDBConn being cut at its wait, and Reach any order of
--     them; the counts are natural numbers, a negative maximum being 0. DbPool/Accounts is about where
--     each connection is, DbPool/Grants about what is handed out, DbPool/Loans about threads that give
--     back what they were lent.
--   - RedisPool: CacheConn and CachePool of CachePool.cpp under
--     3.1池式组件/3.1.4mysql连接池的实现/src/redis_pool. The state of a connection has the log of what its
--     calls did to contexts and replies; a text that is given by c_str() ends at its first NUL.
--     RedisPool/Commands are the commands, RedisPool/Ops any number of them, RedisPool/Traced says what
--     a log may hold, RedisPool/Connects and RedisPool/Sound that Init and the commands keep to it,
--     RedisPool/Maps is about maps that are stored and read back. RedisPool/Pool is the pool, and
--     RedisPool/Agrees compares it with DbPool.
-- Common holds the names that all of them share. Each component has its runs on concrete inputs in a
-- module Tests.
--
-- Numbers are natural numbers; a word keeps its wrap-around written out (`% 2 ^ 32`). What comes from
-- outside is an argument: the answers of malloc, realloc and posix_memalign, the clock, what a
-- callback does to the state, what recvfrom reads and epoll_wait reports, random, whether a connection
-- can be made. Loops are structural recursion or run on fuel:
--   - shift_up and shift_down on as much fuel as the heap has entries, which bounds the path;
--   - DFS on two more than the number of vertices, which the unseen vertices bound;
--   - expire_timer of the heap on one more than the number of entries;
--   - expire_timer over the tree on one more than the number of entries;
--   - expire_timer over the skip list on fuel above the number of nodes;
--   - timer_execute on any fuel above 0: after one round its list stays empty;
--   - mp_alloc on any fuel from 2 on, where a struct for a large block fits a small piece;
--   - get_timer_node of the connection wheel on fuel above the distance to a free node;
--   - the search of the skip list on fuel above the length of each level;
--   - GetCacheConn on 2, since its loop ends with the turn after the one that makes a connection;
--   - zslRandomLevel and zslFree on an argument;
--   - write_labels of the DNS client on one more than the length of the name, since each turn takes a
--     character; dns_parse_name and the walk over a question on fuel from the turns of the name on.
--
-- Not modelled: the demos' main functions; locks, where an operation holds one from its beginning to
-- its end; weak memory order, since the ring's accesses are taken in one order;
-- the ends of arrays, where the text above does not name them: a name in a response is written past
-- 128 bytes; a failure of strdup; the calls that pass
-- on to the client library of MySQL; the leak detector, which mostly
-- calls the file system; the other DNS clients, which have copies of the same functions; the copies
-- of other projects (hiredis, nginx's tree, muduo's logger, ZeroMQ's pipe, moodycamel's queue); the
-- exercise copies of the components above.
pub mod Common
pub mod MinHeap
pub mod MinHeapTimer
pub mod Deadlock
pub mod MemPool
pub mod TimeWheel
pub mod ThreadPool
pub mod SingleWheel
pub mod LockFreeQueue
pub mod Dns
pub mod SkipList
pub mod RbTimer
pub mod TryCatch
pub mod Reactor
pub mod DbPool
pub mod RedisPool
