-- ===== src/Lib.antt =====
-- lowlevel-academy: the employee database server and client of 02-networking-code/05_course_project,
-- the command line program of 01-lowlevel-academy-c/12_course_project, from which its storage comes,
-- the select and poll servers of 02-networking-code/04_advanced_techniques, the greeting of
-- 02-networking-code/03_socket_programming, the thread pool of 03-posix-threads/05_course_project,
-- the counters and the semaphore of 03-posix-threads/03_synchronisation_and_locks, and the smaller
-- programs of 01-lowlevel-academy-c and 03-posix-threads. Paths under src/ and include/ are those of the server and client where no other directory is named.
--
-- The server keeps an array of employees behind a header, in memory and in a file. A client
-- connects, says hello, and then adds an employee or lists them. The server reads each message into
-- the buffer of the client's slot, and a state machine for each client answers it.
--
-- Prelude: the names and lemmas that all modules share. Prelude/Tests and Prelude/Lists hold the
--   tests on numbers and the lists with native indices.
-- Host: numbers in memory, and htons, htonl, ntohs and ntohl, on a host of either byte order.
--   Every definition that reads or writes a struct takes the host as an argument. Host/Laws has the
--   laws.
-- Memory: a write into a run of bytes, for buffers and for the file.
-- Cstring: strncpy, strtok with a comma, and atoi as glibc documents it, (int) strtol. A char *
--   that is a string is the list of its characters before the NUL; c_string takes it from memory.
-- Database: src/server/parse.c with include/parse.h. Load has create_db_header, validate_db_header
--   and read_employees, Add has add_employee, Save has output_file,
--   Printing has list_employees. Format is the file format with
--   no host in it, and the validity of a database; the children of Load, Add and Save hold the
--   theorems. Person is a record before it is stored, for the theorems that follow one to where it
--   is printed.
-- Protocol: include/common.h. Frame reads a buffer as a message.
-- Server: include/server_poll.h. Slots and Fsm are src/server/server_poll.c, Files is
--   src/server/file.c, Startup is main of src/server/main.c and Loop is its poll_loop, a round at a
--   time; Loop/Table and Loop/Change have the table of clients, Loop/Ready the entries that poll
--   fills in, Loop/Walk the interface of a loop over them, Loop/Sound the invariant of a round,
--   Loop/Serving any number of rounds, and Loop/Life a server from its first start to its next.
--   Loop/Quiet has the slots that a round leaves alone. Loop/Stale has what an error without POLLIN
--   does to a round. Loop/Clients sees the table as a bag of descriptors, which Loop/Bag defines.
-- Client: send_hello, send_employee and list_employees of src/client/main.c. Run is its main, and
--   Run/Session a run of it against the server.
-- Poll: poll_multiplexing.c of 02-networking-code/04_advanced_techniques, with the types of the
--   server that grew out of it. Running has it from its start on. Its children use the lemmas of
--   Server/Loop.
-- Cli: 01-lowlevel-academy-c/12_course_project. Files is src/file.c, Load, Edit and Save are
--   src/parse.c, and Run is main of src/main.c; the children of these hold the theorems. It works on
--   the same structs as the server, which Database has.
-- Select: select_multiplexing.c of 02-networking-code/04_advanced_techniques. Round is one round
--   of the loop of its main, and Main is all of it. FD_SET of a descriptor that is not below
--   FD_SETSIZE is a fault.
-- Greeting: server.c and client.c of 02-networking-code/03_socket_programming. Server and Client
--   are the programs, and Exchange has what they do together.
-- FileIo: the programs of 01-lowlevel-academy-c/09_file_input_output, and 11_advanced_c/src, which
--   Count has.
-- Arguments: main.c of 03-posix-threads/02_pthread_basics. Late has its invariant and Outcomes what
--   its threads can print.
-- Exercises: the programs of 01-lowlevel-academy-c on loops, structs, unions, conversions, pointers,
--   allocation, functions and branches; and those of 03-posix-threads/04_advanced_pthread_concepts, in
--   ThreadLocal, ThreadKey and ThreadAttributes. The threads of the first two are interleaved steps.
-- ThreadPool: 03-posix-threads/05_course_project/main.c. Threads has the interleaved steps of the
--   workers and the main thread, Threads/Safety what holds in every state, Threads/Ending the end of
--   the threads, with their steps counted in Threads/Left, and Schedule the loop that submits tasks.
-- Mutex, Race, Spinlock: mutex.c, race.c and spinlock.c of
--   03-posix-threads/03_synchronisation_and_locks, their threads as interleaved steps, of which
--   counter++ takes two. A thread that main has not created yet is one that has not started.
-- Semaphore: semaphores.c of the same folder, with main and its two threads as interleaved steps.
-- Tests: each theorem with hypotheses at a concrete input.
--
-- A result in Option is none where the C program has no defined behaviour: an access outside an
-- object, through a null pointer, or of a string with no NUL in its buffer. Of the functions that
-- return a status and write through a pointer, the header or array is some on success and none on
-- failure. A file descriptor is none for -1.
--
-- Arguments of the definitions stand for what the sources do not hold: whether calloc and realloc
-- return memory and whether realloc moves it, the file at the path, whether socket, setsockopt,
-- bind, listen and connect succeed, and what getopt, poll, select, accept and read return. A write
-- to a file or socket is taken to write all of its bytes, and lseek to succeed, as the sources
-- assume by not looking at the results. Each loop follows a list or a count, but for those of
-- Exercises/Loops, which have fuel; Exercises/Loops/Laws shows how much is enough.
--
-- What poll reports is as it documents it: n_events counts every entry whose revents is not zero, with
-- POLLIN or with an error that was not asked for, and an entry that is not in use keeps what it holds.
-- The results that say that no round faults have a condition, IsReadable, that poll does not promise:
-- no entry has an error without POLLIN.
--
-- In the thread pool a step is what a thread does from one lock, unlock or wait to the next.
-- pthread_cond_signal wakes one waiting worker if there is one, pthread_cond_broadcast all, and a
-- waiting worker may also wake unasked; that the threads end does not rest on that. The main thread may add any task and destroy the pool at any time, which covers the order that main
-- follows.
--
-- Not modelled: messages to the terminal but the lists of employees and what the client of the
-- greeting prints (of a message that prints a buffer, only that it faults without a NUL), a poll
-- that fails, at which the servers exit, the exercises that only print constants, and the
-- assembly.
pub mod Prelude
pub mod Host
pub mod Cstring
pub mod Memory
pub mod Database
pub mod Protocol
pub mod Server
pub mod Cli
pub mod Client
pub mod Poll
pub mod Greeting
pub mod FileIo
pub mod Arguments
pub mod Exercises
pub mod Mutex
pub mod Race
pub mod Spinlock
pub mod Semaphore
pub mod Select
pub mod ThreadPool
pub mod Tests
