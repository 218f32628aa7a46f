-- ===== src/Lib.antt =====
-- A model of socksprox, a SOCKS5 proxy that serves all its clients from one epoll loop, with proofs
-- about its handlers, its firewall and its buffers.
--
-- A connection has two descriptors, the client's and the server's, which share one structure
-- (struct Shared of include/epoll_data.h) with a state and two ring buffers. The event loop of
-- src/socksprox.c gives each event to `socks5` (src/socks.c), which calls the handler of the state.
-- A handler receives and sends, moves bytes through the ring buffers (src/epoll_data.c), asks the
-- firewall (src/firewall.c), starts a command (src/net.c), and changes the state.
--
-- Parts and files:
--   Base         helpers: tests on numbers, lists, bytes and bits over native numbers.
--   Ring         write_ringbuff, peek_ringbuff and consume_ringbuff of src/epoll_data.c. A function
--                that changes a buffer returns the new one. Ring/Bounds has the invariant, Ring/Refine
--                the contents, Ring/Trace sequences of calls.
--   Address      socket addresses as bytes in network order.
--   Firewall     src/firewall.c, and link_blocks of src/config.c. Firewall/Rules says what a rule
--                covers, Firewall/Decision what the stored rules decide, Firewall/Overlong what a
--                rule with a bad mask does.
--   Config       struct Configs of include/config.h, and src/config.c: Config/Scan the words of a line,
--                Config/Link the addresses, Config/Settings and Config/Store store_config, Config/Parse
--                the lines of the file, Config/Check and Config/Release the checks and free_configs.
--                Config/Words, Config/Lines and Config/Files have the words, lines and files that are
--                read back, Config/Usable what is accepted, Config/Blocks and Config/Blocked the rules
--                of the firewall from their text on.
--   Conn         the structures of one connection and what of them is allocated, the calls of the
--                system, and the monad in which the handlers run; the ep_ functions and free_data of
--                src/epoll_data.c (Conn/Epoll). Conn/Keeps is an invariant of actions, with a rule
--                for each construct; Conn/Quiet does the same for the calls towards other hosts,
--                Conn/Alive for the memory that is allocated.
--   Net          init_connect, init_bind, init_udpa, send_traffic and read_traffic of src/net.c, and
--                accept_new_client (Net/Accept), whose memory Net/Accepted accounts for.
--   Socks        src/socks.c, one file for each group of handlers; resolve of src/resolver.c is in
--                Socks/Request. Socks/Transitions has the state machine, Socks/Total the absence
--                of undefined behaviour, Socks/Runs sequences of events, Socks/Blocked refused
--                requests, Socks/Methods the choice of the method, Socks/Errors the reply codes,
--                Socks/Greeting and Socks/Negotiated the negotiation from greeting to request.
--   Resolver     src/resolver.c: what the thread reads of the message of resolve (Resolver/Misread),
--                and resolve_ret.
--   Logger       src/logger.c: the messages on the pipe and the loop of the thread, the texts and formats
--                (Logger/Text). Logger/RoundTrip has sequences of calls, Logger/Custom log_custom,
--                Logger/Lines the directives.
--   Server       init_listeners of src/net.c (Server/Listen), main of src/socksprox.c up to its loop
--                with init_logger and init_resolver (Server/Start), and the loop (Server/Loop).
--                Server/Own says what the events of the loop mean for one connection, Server/Projected
--                has the loop as one connection sees it.
--   Tests        the properties at concrete inputs.
--
-- State and failure: a handler is a function from the memory of a connection to the new memory, or
-- to nothing where the source reads memory that is freed or NULL. Each call of the system is
-- written down in a list, and its answer is a function of the number of calls before it, so that a
-- statement for all answers covers all behaviours of the system. A result that the source does not
-- look at is not looked at here. Numbers are natural numbers; the arithmetic on size_t wraps at
-- 2^64 as written out in Base/Tests, and byte and 32-bit operations are reduced where the source's
-- types are. The loops are by recursion on lists and numbers, two by fuel: that of parse_configs, which
-- has one round more than the file has bytes, and that of the logger's thread, one more than the pipe.
--
-- The configuration parser works on the bytes of the arrays that the source declares: an access out of
-- an array ends the run. getaddrinfo and the results of malloc are parameters there. Before the loop
-- and in accept_new_client the calls are a list as well. A connection of the loop has its own answers of
-- the system; its place in the list of connections stands for the pointer that epoll holds.
--
-- Two things that C leaves undefined go on here: the entry 255 of configs->methods, one past the
-- array, is a byte of any value, and a flag of the system says whether the program goes on after
-- resolve has written one byte behind its message. A buffer that free_data has freed is NULL: its
-- storage is empty, and an access to it ends the run.
--
-- Not modelled: listen_err of src/net.c and yesno of src/config.c, which nothing calls; open_files of
-- src/logger.c, the clock and inet_ntop, which are input and output; the signal setting of main. A pipe
-- that is full, where a message is lost, is left out, and the message from the resolver's thread to
-- resolve_ret is whole. A log entry of a handler is a call in the list. The family of an entry of
-- getaddrinfo's list is that of its address, as documented.
pub mod Base
pub mod Ring
pub mod Address
pub mod Firewall
pub mod Config
pub mod Logger
pub mod Conn
pub mod Net
pub mod Socks
pub mod Resolver
pub mod Server
pub mod Tests
