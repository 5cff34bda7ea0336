-- ===== src/Lib.antt =====
-- A model of the core of cloud-probe's capture worker (cpworker), and of the receiver of its ZeroMQ
-- messages (cptools/recvzmq), with its proofs.
--
-- The worker runs tasks. Each captures packets, judges the direction of each by a request pattern, and
-- sends it on to its outputs, at once or through a ring to an output thread: to a VXLAN tunnel, where a
-- packet may be split, to a GRE tunnel, in batches to a ZeroMQ socket, or to a file. Rate limits and
-- counters stand at each output. The tasks are read from a configuration in JSON, and a second thread
-- builds new ones when it is read again.
--
-- What models what (paths from the repository's root):
--   Stats       cpworker/src/stats.c: the counters of two words. `bytes_stats_add` and its kin keep names.
--   RateLimit   cpworker/src/ratelimit.c: the token bucket. A time is a pair of naturals; the product of
--               doubles in `token_bucket_consume` is the parameter `part`, whose hypothesis `Rounds` says
--               that it is at most the rate and at most one token above the exact share.
--   Ring        cpworker/src/ring_buffer.c, the ring: as calls (Ring, Ring/Refine) and as the single loads
--               and stores of two threads (Ring/Threads), with sequentially consistent memory.
--   Mempool     cpworker/src/ring_buffer.c, the circular memory pool: a pointer is an offset.
--   Allocator   cpworker/src/ring_buffer.c, the byte budget of the messages, one atomic step for a call.
--   Packet      cpworker/src/pkt_dir.h and the ring's message.
--   Checksum    cpworker/src/packet_split.c, the checksum core: every addition wraps at 32 bits.
--   Split       cpworker/src/packet_split.c, `parse_packet` (Split/Parse) and `build_fragment`
--               (Split/Fragment). The pointers of the result are the offsets beside them.
--   ReqPattern  cpworker/src/req_pattern.c: the lexer, the parser, the layers of a packet and the
--               judgement. `get_ip` and `inet_pton` are parameters.
--   BpfUtil     cpworker/src/bpf_util.c: the filter text in which interfaces become addresses, and
--               `format_ip_addr` of cpworker/src/ip.c. `get_ip`, `inet_ntop` and what malloc and realloc give
--               are parameters. A place in the text is what is left of it, with a flag for the byte before.
--   Output      cpworker/src/output.h and output_null.c; Output/Vxlan, Output/Gre, Output/Zmq and
--               Output/File the files output_vxlan.c, output_gre.c, output_zmq.c and output_file.c.
--               `sendto`, `zmq_send` and `pcap_dump` are parameters on a state of what is outside.
--               Output/Zmq/Uuid has the UUID of the batch header, read by `strtoul`, a parameter.
--   Receiver    cptools/recvzmq/main.c: the messages are read and their packets written; `pcap_dump` is a
--               parameter. Output/Zmq/Run puts it behind the ZeroMQ output, whose socket keeps the
--               messages in order.
--   Config      cpworker/src/config.c and its helpers in cpworker/src/cjson_utils.c: the parsers, on values
--               of any type `J` that the calls of cJSON, the parameter `Json`, take apart; Config/Render
--               has one such type. What malloc, calloc and strdup answer is the parameter `Memory`: one
--               answer for each text, size and index, where in the source each call has its own. A
--               `double` is an integer, a number with a fraction or an infinity. Config/Filter has the
--               filter text that leaves out the hosts of the outputs. An error is `none`, its text is
--               left out.
--   Pipeline    cpworker/src/task.c, the callbacks of the captures and the output thread: a turn of one of
--               the two threads is one step, and Ring and Allocator are used as they are.
--   Tasks       cpworker/src/task.c, the task lists and the helpers that build and free them, with the
--               check of fingerprints in cpworker/src/config.c. A capture is a number, its address; what is
--               allocated is counted in `Heap`, where a second free or a read of NULL sets `fault`.
--   Reload      cpworker/src/task.c, the reload protocol: the main thread and the reload thread pass one
--               message to and fro through two mailboxes, a turn of one of them is one step.
--               The answers of the parser, of malloc and of the captures may differ in each turn.
--   Prelude     the shared names, lists and words on native numbers, integers, and `Outcome`: the result
--               of code that reads a buffer, in which a read outside of it is the value `fault`.
--
-- State is passed from call to call as a record. A loop is recursion on fuel, and a loop that has used
-- up its fuel gives `out_of_fuel` where the code can fail: the VLAN, extension and nesting loops have a
-- unit for each captured byte, each round taking at least 4 bytes, and so has the loop over the tags of
-- a packet for ZeroMQ, which gives 0; the pattern parser has four for each byte of the pattern, each
-- token taking one. The loop over the filter text has a unit for each byte, and the doubling of its
-- buffer one for each byte that is needed. The loops of the checksum have their length as fuel. The
-- retries of `sendto` are ten, as in the source.
--
-- Not modelled: the creation of outputs with their sockets, the rotation of files, the texts of errors;
-- the start and stop of threads, the wait for a drained ring before captures are freed, and the
-- statistics commands; the reading of the configuration file, the parsing of its JSON text by cJSON and
-- the freeing of a configuration; lists of CPUs, capture by libpcap and DPDK, the control socket,
-- logging, cJSON and the programs in Go. Most of it is calls of libraries and of the system.
pub mod Prelude
pub mod Stats
pub mod RateLimit
pub mod Ring
pub mod Mempool
pub mod Packet
pub mod Allocator
pub mod BpfUtil
pub mod Checksum
pub mod Split
pub mod ReqPattern
pub mod Output
pub mod Tasks
pub mod Reload
pub mod Pipeline
pub mod Receiver
pub mod Config
