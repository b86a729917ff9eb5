-- ===== src/Lib.antt =====
-- A verification library for the exercise programs of this repository: small C programs on sockets,
-- processes and semaphores.
--
-- The programs stand alone, one file each. They share text (the chat servers and clients use the
-- same messages and port, the sorting programs the same `merge`), not code. They meet over sockets:
-- each client speaks to the server of its protocol.
--
-- Parts and files:
--   ChatServer   kadai4/chatserver.c, the TCP chat server. ChatServer.antt has the table of clients and
--                the handlers under the names of the C functions; ChatServer/Loop.antt has `new_client`
--                and the main loop (`round`, `run`). A handler takes the table and the index of a
--                client, and returns the new table and the calls that it made on sockets, in order
--                (`Effect`). What the kernel answers (`select`, `accept`, `read`) is an argument of each
--                round (`Select`), and so is the memory of an uninitialised buffer.
--   Room         what a chat server promises to its clients, apart from tables, slots and sockets. A room
--                knows who sits in it; a relation says what a text, or what a client does, changes in it
--                and who is sent what. The servers differ in what they take for a name and for the
--                question who is there, and in whether the refusal of a name gives the place back
--                (`returned`). Room/Seats.antt reads a room off a table of any kind.
--   UdpServer    kadai4/chatserver-udp.c, the UDP chat server, in the same manner: UdpServer.antt has the
--                table and the handlers, UdpServer/Loop.antt the main loop. A client is known by its
--                address, and a round's answer is one datagram, none, or a failure. The texts and limits
--                that read the same in both servers are those of ChatServer.antt.
--                Both servers are seen as rooms: ChatServer/Seats.antt and UdpServer/Seats.antt say how
--                the table is read, ChatServer/Wire.antt and UdpServer/Mail.antt what their calls send to
--                whom (a descriptor is written to only while it is open), and in Refinement.antt of both
--                the runs are put together. Conversing.antt of both adds a client at either end: what
--                one types, the other shows.
--   ChatClient   kadai4/chatclient.c, the TCP chat client: the two answers that it waits for
--                (`handshake`) and its loop (`round`, `session`). ChatClient/Joining.antt puts the
--                client and the server together.
--   UdpClient    kadai4/chatclient-udp.c, the UDP chat client, likewise. What `recv` leaves of a datagram
--                is a parameter there.
--   MergeSort    kadai3/mergesort.c and kadai3/conc_merge_sort.c: `merge` loop by loop, `m_sort`, and
--                the two functions `mergeSort`. The pipe between child and parent is an argument. Both `main` are
--                in MergeSort/Mains.antt.
--   Semaphore    the calls of `semop`, for the next two and for Signals.
--   FileCounter  kadai3/file-counter.c: `count1`, access by access. A relation (`Step`) interleaves the
--                processes in any order.
--   Barrier      kadai3/barrier_sync.c: `main` and its children, call by call, interleaved likewise.
--   Alternation  kadai3/mutual_exec.c: parent and child with two pipes, run by any schedule.
--   Alarm        kadai3/alarm.c: `myalarm` and the loop of `main`, second by second.
--   Talk         kadai2/simple-talk-server.c and simple-talk-client.c: the loop between the terminal and
--                one peer, with the memory of its buffer.
--   TimedTalk    kadai3/simple-talk-client.c: the client of Talk with the `myalarm` of Alarm. Seconds pass
--                while `select` waits.
--   Echo         kadai2/echoserver.c and lowerechoserver.c: the loop over the clients that connect and the
--                loop over what each sends. Echo/Client.antt is kadai2/echoclient.c, and Echo/Exchange.antt
--                puts client and server together.
--   Sockets      every server and client from the start of `main` to its loop: Sockets/Servers.antt and
--                Sockets/Clients.antt, one definition for each program. Which calls work is an argument.
--   Datagrams    kadai2/udp_send.c and udp_receive.c.
--   Pipes        kadai3/two-way-pipe.c: parent and child over two pipes, run by any schedule.
--   OneMessage   kadai3/pipe.c: the same with one pipe, where the calls may fail.
--   Signals      kadai3/sem-wait.c, sem-signal.c and alt_exec_sem.c on one semaphore.
--   Forks        kadai3/fork.c: a parent, its children, and what each prints.
--   Interrupts   kadai3/signal.c: the loop that echoes, and its handler of CTRL-C.
--   Common       tests, lists under native indices, C strings (strchr, strcmp, snprintf), and the loop
--                of a server over its rounds.
-- In each, the children of the module hold the proofs, and Tests.antt the concrete runs.
--
-- Fuel: each `while` of `merge` gets the number of entries to be merged, which bounds its rounds, and
-- `m_sort` the length of its range, which bounds its depth; the theorems hold with these values. The
-- endless loops of the servers and clients are run over a list of the kernel's answers, of any length.
-- The loop of Interrupts gets one round more than there are bytes, and takes a byte in each.
-- Numbers: indices and the counters of clients are natural numbers. The counters are never lowered at 0
-- on a valid table. No sum comes near 2^31. The numbers of processes in FileCounter, Barrier, Forks
-- and Signals are any; the first three programs have 10, 5 and 3.
--
-- Not modelled: what the chat servers print for their operator, and errors that the code ignores
-- (`write`, `close`).
pub mod Common
pub mod ChatServer
pub mod MergeSort
pub mod ChatClient
pub mod UdpClient
pub mod Semaphore
pub mod Signals
pub mod UdpServer
pub mod Barrier
pub mod Alternation
pub mod FileCounter
pub mod Talk
pub mod Echo
pub mod Alarm
pub mod TimedTalk
pub mod Room
pub mod Sockets
pub mod Datagrams
pub mod Pipes
pub mod Interrupts
pub mod Forks
pub mod OneMessage
