-- ===== src/Lib.antt =====
-- Verification of open5066, a NATO STANAG 5066 node.
--
-- The node stands between clients, which speak the SIS protocol over TCP, and a modem or a remote
-- node, with which it exchanges D_PDUs of the DTS layer. A client binds a service access point
-- (SAP), and sends S_UNIDATA_REQUESTs; sis.c checks them and hands their data, a U_PDU, to
-- dts_send_uni of dts.c, which puts the C_PCI and S_PDU headers in front of it and cuts the C_PDU
-- into D_PDUs with a checksum over the header and one over the data. On the way back dts_decode
-- takes D_PDUs off the stream, dts_data puts the C_PDU together from its segments and delivers it as
-- a S_UNIDATA_INDICATION to the connection bound to the destination SAP. smtp.c turns a mail dialog
-- into one such U_PDU, and on the other side back into a dialog with a mail server.
--
-- Prelude: the shared names, Boolean tests, bytes in memory, lists, exclusive or.
-- Errmac: the nibble and bit macros of errmac.h; Errmac/Nibbles and Errmac/Bitmap have their laws.
--   Errmac/Links has the loop that reverses a list, Errmac/Url URL_DECODE, with fuel of one for
--   each byte, Errmac/Ber the BER macros, with Errmac/Ber/Lengths and Errmac/Ber/Tags about them.
-- Crc: CRC_16_S5066 and CRC_32_S5066 of dts.c with their batch functions; Crc/Step and Crc/Detect.
-- Hiios: struct hi_pdu and struct hi_io of hiios.h, hi_pdu_alloc and hi_checkmore of hiread.c,
--   hi_free_req and hi_add_to_reqs of hiwrite.c, as the protocol layers use them: without links.
--   Hiios/Outcome is about results.
-- Todo: the todo queue of hiios.c with its links. Todo/Spec is the queue without them, Todo/Links,
--   Todo/Refinement and Todo/Order are about the two.
-- Hiwrite: hiwrite.c with its links; Hiwrite/Loop is hi_write, over the results of writev. Hiwrite/Partial,
--   Hiwrite/Freeing, Hiwrite/Faithful, Hiwrite/Bounds, Hiwrite/Lost, Hiwrite/Single, Hiwrite/Whole and
--   Hiwrite/Release are about these.
-- Pool: hi_pdu_alloc of hiread.c with the free lists, Pool/Reissue about it, and Pool/Close hi_close and
--   hi_add_fd of hiios.c. Pool/New is the pool that hi_new_shuffler builds.
-- S5066: struct sis_sap and struct dts_conn of s5066.h, and its constants.
-- Dts: dts.c. Dts/Addr has the address field, Dts/Send the sending of NONARQ D_PDUs, Dts/Send/Arq
--   that of ARQ D_PDUs, Dts/Send/Unidata dts_send_uni, Dts/Receive the receiving half. Dts/Frame,
--   Dts/RoundTrip, Dts/Refusal, Dts/Corruption, Dts/Reassembly, Dts/Delivery, Dts/AddrNibbles,
--   Dts/Send/Segments, Dts/Send/Dumps and Dts/Send/Headers are about these; Dts/Collect,
--   Dts/EndToEnd, Dts/Service and Dts/Again follow a C_PDU and a U_PDU from the sender to the client.
-- Sis: sis.c. Sis has the state and the functions that send, Sis/Bind, Sis/HardLink and Sis/Unidata
--   the handlers, Sis/Decode the dispatcher and the decoder. Sis/Ownership, Sis/Framing and
--   Sis/Confirm are about these. Sis/Transit follows a service request from one client through both
--   nodes to the other, Sis/Handshake a bind request to the node and its answer back.
-- Smtp: smtp.c. Smtp has the states, the connection and hmtp_send, Smtp/Client the replies of a
--   server, Smtp/Server the commands of a client, Smtp/Gateway smtp_send. Smtp/Dialog, Smtp/Moves,
--   Smtp/EndOfMail and Smtp/Stuck are
--   about these.
-- Hiread: hi_read of hiread.c over an interface to the decoders, and the results of read. Hiread/Protocols
--   has the decoders of SIS and DTS, Hiread/Stuck and Hiread/Halves are about the loop.
-- Testping: testping.c, Testping/Reply about it. Http: http.c, Http/Replies about it.
-- Shuffle: hi_poll, hi_in_out and the dispatch of hi_shuffle of hiios.c; Shuffle/Polling about hi_poll.
-- Counters: globalcounter.h and globalcounter.c, Counters/Range about them; Counters/Names has the
--   numbers and names.
-- Util: read_all_fd, write_all_fd and hexdump of util.c, Util/Hexdump about the latter.
-- Synccat: synccat.c, Synccat/Pieces about processStdin. Serial: serial_sync.c, Serial/Stats about its
--   counters. Iocat: the options of iocat.c; Iocat/Run has one round and the loop over them,
--   Iocat/Session the loop behind them, and Iocat/Ends, Iocat/Hex and Iocat/Bits are about the options.
-- Daemon: parse_port_spec of s5066d.c; Daemon/Options has opt, Daemon/Limits is about it.
-- Conns: the tables of connections and hi_accept of hiios.c, Conns/Chains about the DTS connections.
--   Daemon/Setup is how main of s5066d.c opens the connections, Daemon/Setup/Order about their order.
-- Tests: runs on small inputs.
--
-- A function of the source that changes shared objects is a function from a state to a Result: the
-- state behind it, or a Fault that names how the program leaves its own memory or stops (the
-- assertions are those of the build in the Makefile, with DEBUG). A buffer is a function from
-- offsets to bytes. A PDU is a value, and what is handed to hi_send is recorded with the bytes it has
-- at that point. A `char` is a number below 256, and where the sign of a char matters the text says
-- so. The loops over a C_PDU have fuel of one more than its length, of which every round takes 800.
--
-- A list of objects that the program links through the objects is a chain through a store from
-- addresses to objects, and the loops over such a list have fuel, of which a list of that length takes
-- one each. What the operating system returns, and in which order the threads get a lock, is a list
-- that the functions are given.
--
-- The tools for the serial port are those of the build for Solaris, the daemon is that for Linux. The
-- loop over the options of iocat has fuel, since -goto may jump back; without it one round for each
-- argument and one more are enough. The results of the system calls are a list, and where the source
-- goes on for ever, as write_all does while write returns 0, the model goes on until it is used up.
--
-- Not modelled: the calls that set up sockets, the locks (a handler runs as one step), logging, the
-- threads and files of the daemon, the flags of the terminal, and the macros of errmac.h for locks,
-- allocation, doubly linked lists and hashes, most of which no file uses. What atoi, sscanf and gethostbyname
-- return is an argument. sis5066.h is the header of another project. The layers above hi_read and
-- hi_write use PDUs without links, and a call of smtp_send by the SIS layer is recorded with its data.
pub mod Prelude
pub mod Errmac
pub mod Crc
pub mod Hiios
pub mod Todo
pub mod Hiwrite
pub mod Pool
pub mod S5066
pub mod Dts
pub mod Sis
pub mod Smtp
pub mod Hiread
pub mod Testping
pub mod Http
pub mod Shuffle
pub mod Counters
pub mod Util
pub mod Synccat
pub mod Daemon
pub mod Conns
pub mod Serial
pub mod Iocat
pub mod Tests
