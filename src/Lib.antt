-- ===== src/Lib.antt =====
-- libMSVL, a C library that runs programs of the temporal logic language MSVL: a program's parallel
-- statements form a tree of nodes, each with a thread, and the threads take turns under a manager.
--
-- The parts and how they interact:
-- - dyn_array.c, dyn_array.h: a growing array of objects of one size in one buffer. Nodes keep
--   their children in such arrays, and the slots of the hash map are such arrays.
-- - dyn_hash_map.c, dyn_hash_map.h: the table of slots that finds the node of a thread.
-- - node.c, node.h: the nodes, their construction, the insertion of children, and the test whether
--   a statement has ended.
-- - function.cpp: the version in C++ that node.c and msvl.c were ported from. The build does not
--   compile it.
-- - msvl.c: the interface to the running program (collected data, variables), and the manager that
--   gives the threads their turns.
--
-- Which file models which part:
-- - Base: shared names, and `Run`, the outcome of a piece of C: a value, undefined behaviour, a
--   call of exit, or a loop that has used up its fuel. Stateful threads a state through such
--   pieces.
-- - Machine: size_t arithmetic modulo 2 ^ 64 (Word), buffers of bytes with bounded reads, memcpy
--   and memmove (Memory), malloc and realloc (Allocator). `IsAllocator` is what C guarantees of
--   these: a block has the length that was asked for, and realloc keeps the bytes that fit.
-- - DynArray: Layout (the struct, DYN_ARRAY_POSITION), Create (dyn_array_create, _import,
--   _destroy), Shift (dyn_request_size_increase, dyn_shift_insert, dyn_shift_remove and their
--   callers), Views (dyn_array_front, _back, _at, _size ...), Ordered (dyn_array_sort,
--   _insert_sorted, _for_each). A `dyn_array_t *` is an `Option DynArray`, NULL being `none`; a
--   pointer into the buffer is an offset. Holds says that an array is valid and holds a list of
--   objects: its buffer begins with them in order, has the room of its capacity, and no size of it
--   leaves 64 bits. Insertion, Removing and Growth are its lemmas, and Contract states each
--   operation against that list.
-- - HashMap: Primes (is_prime, find_next_prime), Table (dyn_hash_map_create, dyn_hash_map_destroy),
--   Primality and Capacity (their lemmas), Contract.
-- - Node: Store (the structs of node.h, and the store of nodes by address), Fields (the 'Get' and
--   'Set' functions), Create (node_create, node_import, the constructors of the kinds), Children
--   (node_add_child, and_node_insert_child and its kin), Destroy (node_destroy), Check
--   (node_is_exit and the *_is_correct_and_exit family). A state is a store of nodes by address,
--   and an access where there is no node is undefined behaviour. Position, Kinds, Destroyed and
--   Verdict hold the lemmas and theorems.
-- - Manager: Push ($$Push, with the loop that splits its right string, and GetMsvVar), Tokens (its
--   theorems).
-- - Scheduler: the globals, the nodes and what the program's threads may do, in one state (World);
--   the turn that a leaf, a KEEP or an ALW gives to its thread (Handshake); GetNewNode (Renew);
--   node_execute of the other kinds (Execute); UpdateNode and ExecuteKeepChilds (Update);
--   ManagerThread (Drain); Init, MyCreateThread, MyPauseThread, MyPauseThreadInit and
--   MyWaitForObject (Startup). Keeps is about properties of the globals that all of these keep;
--   Returns, Renewed and Endless hold the theorems.
-- - Turns: g_turn_id as the manager and all threads read and write it, as a step relation
--   (Protocol), with Exclusion and Progress. It says of every interleaving what the Scheduler,
--   which lets one thread at a time do its part, takes for granted.
-- - Predecessor: class Node of function.cpp as a tree, ~Node and isExit (Tree), and
--   isCorrectAndExit (Check). Count says which threads a tree has and that threadIDToNode has
--   exactly these; Registered, Leaves, AndLeaves and Ported hold the lemmas and theorems. The
--   recursion follows the tree and takes no fuel. The same code, and all that climbs, renews or
--   moves nodes, on objects in a store that are linked by pointers: Objects (the objects and the
--   static variables), OnHeap (~Node and isCorrectAndExit again), Renewal (the constructors and
--   getNewNode), Excute (excute of each class), Managing (updateNode, excuteKeepChilds,
--   ManagerThread), Startup (Init, MyCreateThread, MyPauseThread, MyPauseThreadInit,
--   MyWaitForObject, GetMsvVar, $$Push), Insertion (insertChild of AndNode, with its theorem). The
--   class of an object is the one that its member `type` names. Each thread's turn is one step, and
--   Protocol has the turns of all threads as a step relation, with the theorem in Alone. Keeping
--   and its kin are about properties that excute keeps; Returned, Drained, Settled, Drains,
--   Renewed, Created and EachChild hold the theorems. Lengths has setNodeLength with setAndLen,
--   setPalLen and setPrjLen, where the climb to the fathers takes fuel; Links, LengthsReturn,
--   LengthCounts and LengthsAgree are its lemmas and theorems.
--
-- The Examples modules of each part apply the theorems at concrete inputs.
--
-- Fuel: a loop of doublings gets 65 rounds (a word has 64 bits, after which the C loop would run
-- for ever), is_prime as many rounds as its argument, and the loop over the primes of
-- dyn_hash_map_create more rounds than the limit of the capacity. The results below show that these
-- are enough where they speak of a value. is_correct_and_exit and node_destroy take the depth of
-- the tree as fuel; the loops of the Scheduler and of ManagerThread in function.cpp, which need not
-- end, take fuel for their rounds.
--
-- Parameters: malloc, realloc, qsort, pthread_create, pthread_kill, isspace, pthread_self, the
-- comparison, the visitor, what a thread of the program does in its turn, the addresses that `new`
-- gives, and what the hash map of nodes answers (its operations are defined nowhere in the
-- repository). A destructor is logged: the model returns the objects that it is called on. The
-- arrays of node.c and msvl.c are lists of their objects, and their allocation succeeds.
--
-- Readings: where node.c and msvl.c name what is declared nowhere, the files Node.antt and
-- Manager/Push.antt say what is read for it; a vector's iterators in function.cpp are pointers into it.
--
-- Not modelled: dyn_hash_map_insert, pair.c (empty), initialize_all_global_objects of msvl.c, which
-- nothing calls, the signals and joins of threads in C, of function.cpp the debugging output and
-- Comp, which only a call that is commented out names, and the tests. Freed memory is tracked where
-- the code frees twice or uses what it has freed, and not otherwise.
pub mod Base
pub mod Machine
pub mod DynArray
pub mod HashMap
pub mod Node
pub mod Manager
pub mod Scheduler
pub mod Turns
pub mod Predecessor
