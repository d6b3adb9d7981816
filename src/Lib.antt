-- ===== src/Lib.antt =====
-- C-systems-programming: a model of the repository's C programs, and what holds of it.
--
-- The repository is a set of independent programs. Modelled are:
-- * tools/hexdump/main.c in Hexdump. The columns (`print_offset`, `print_data`, `print_ascii`) are in
--   Hexdump, `hexdump` in Hexdump/Dump, `parse_arguments` and `main` in Hexdump/Args. A file is the
--   list of its bytes, and text is the list of its characters' codes.
-- * projects/networking/port-scanner/main.c in PortScanner. The headers and their bytes are in
--   PortScanner, `checksum` in PortScanner/Checksum, `build_iph`, `build_tcph` and `tcp_checksum` in
--   PortScanner/Packet, with what a host reads in such a packet by the RFCs in PortScanner/Receiver,
--   `process` and `listen_synacks` in PortScanner/Listen, `local_ipget`, `syn_scan` and `main` in
--   PortScanner/Scan. The two threads share nothing but the configuration,
--   which neither changes, so they are modelled one by one, and joined in PortScanner/Scan/Found by a
--   target that answers the packets that are for it, and a listener that reads these answers only.
-- * projects/networking/mtls-chat in MtlsChat: `setup_context` of server.c and client.c in
--   MtlsChat/Setup, the poll loop of server.c in MtlsChat/Server, `server` and `setup_tcp` in
--   MtlsChat/Start, the rest of client.c in MtlsChat/Client, and main.c in MtlsChat/Main; MtlsChat/Chat
--   joins the two sides. The server's state is the arrays `fds` and `ssls`, `nfds`, and the set of
--   allocated SSL objects; a round takes the answers of poll, accept, OpenSSL and read, and gives the
--   next state and the calls made.
-- * projects/networking/tcp-suite in TcpServer and TcpClient, in the same form; the set-up of the
--   server is in TcpServer/Main, and its clients as an unordered room in TcpServer/Room.
--   TcpClient/Chat joins the two programs by the bytes of one connection, in each direction.
-- * projects/graphics/greyscale-filter/main.c in Greyscale, from the bytes of the input to those of
--   greyscale.bmp.
-- * projects/networking/http-server/main.c in HttpServer: `get_filename`, `get_extension` and
--   `get_mime` in HttpServer, `build_http` and `handler` in HttpServer/Handler,
--   `main` and `create` in HttpServer/Accepting.
-- * projects/networking/packet-sniffer/main.c in PacketSniffer: the loop of `main`, from what recvfrom
--   gives to the bytes of captures.pcap, with a reader of such files in PacketSniffer/Reader;
--   `set_promisc` and `unset_promisc` in PacketSniffer/Promisc, the rest of `main` in
--   PacketSniffer/Main. Its `fwrite`, `fflush` and `strdup` are taken to succeed.
-- * projects/ipc/mini-shell/main.c in MiniShell: `readline`, `tokenize`, `execute` and `interpret`, on
--   the bytes of stdin. A write outside a buffer is a result of its own; a line is taken to be shorter
--   than 2 ^ 31 - 1024 bytes, since the `int` counters of `readline` are unbounded here. `bin_exec`,
--   `builtin_pwd` and `builtin_help` are in MiniShell/Commands. MiniShell/Typed has the input of
--   someone who types commands.
-- * projects/ipc/io-redirector, mini-pipeline and parallel-runner in Ipc/Redirector, Ipc/Pipeline and
--   Ipc/Runner, on tables of descriptors that are in Ipc. A pipeline is a step relation on three
--   processes; its second command ends only when no process holds the end that is written to.
--   Ipc/Pipeline/Flow adds the bytes that go through the pipe, Ipc/Runner/Live the commands of
--   parallel-runner, as step relations with pipes of a bounded capacity.
-- * projects/networking/udp-messenger/main.c in UdpMessenger, and tools/cat/main.c in Cat.
-- * tools/text-readability/main.c in TextReadability: `parser` in TextReadability, `main` and `print`
--   in TextReadability/Main. The `float` counters keep their bound 2 ^ 24.
--
-- Common holds C arrays as lists, machine words, `int`, and the C library's functions.
--
-- The host is little-endian, with a 32-bit `int` and a 64-bit size_t. A cast to w bits is the
-- remainder by 2 ^ w. `atoi` of a number that does not fit an `int` is undefined in C, and the number
-- itself in the model.
--
-- Loops over arrays recurse on the number of slots that are left, so they need no fuel. The loop of
-- `hexdump` has one round more than the file has bytes, which is enough as each round takes one
-- byte at least, and the loop of `build_http` likewise; `print_number` has 64 rounds, which is enough
-- for 64 bits in any base. The endless loops of the servers, of `listen_synacks`, of the sniffer and
-- of the shell run for a list of events, or a number of rounds, of any length; so does the loop of
-- `builtin_pwd`, which need not end. The processes of a pipeline, and the commands of
-- parallel-runner, take their steps in any order.
--
-- Parameters of the model are what getopt_long returns, inet_addr, rand, the answers of the kernel
-- and of OpenSSL, whether allocations succeed, what uninitialised memory holds, and the formula of the
-- readability index, which is in floating point. They are not restricted but where a theorem says so.
--
-- Not modelled are the text of most messages on stderr, what the commands that are started
-- do besides ending and writing, the handlers of signals, a failing `fwrite`, `fflush` or `strdup` of
-- the sniffer, and the session callback of the mTLS client, which only prints.
pub mod Common
pub mod Cat
pub mod Greyscale
pub mod Hexdump
pub mod HttpServer
pub mod Ipc
pub mod MiniShell
pub mod MtlsChat
pub mod PacketSniffer
pub mod PortScanner
pub mod TcpClient
pub mod TcpServer
pub mod TextReadability
pub mod UdpMessenger
