-- ===== src/Lib.antt =====
-- A verification library for kubeadapt-k8s-pulse, the KubeAdapt eBPF network metrics agent.
--
-- The agent runs on each node of a cluster. It loads an eBPF program, attaches it to the host's end
-- of the pods' interfaces (internal/bpf), and every few seconds reads the map in which the program
-- counts traffic by connection, deletes what it has read, sums it by source address, destination
-- address and protocol, and adds the sums to Prometheus counters (internal/collector). A server
-- shows the metrics and the health (internal/metrics); internal/config reads the settings and
-- internal/system the kernel's version and the interfaces.
--
-- Files and the code that they model:
--   Collector.antt, Collector/    internal/collector
--     Keys                        types.go, helpers.go: AggKey, protocolToString, the addresses
--     Metrics, Series             the metrics of initMetrics; sequences of calls and their reading
--     Cycle, Cycle/Reading        collect: `read_loop` is its loop over the map, `monitor` what
--                                 follows up to the batch size, `publish` the rest
--     Cycle/...                   one file for each group of theorems on collect
--     Schedule, Schedule/Runs     Start: the loop over ticks and cancellation, and whole runs
--     Overflow                    StartOverflowHandler, on the reader of Bpf/Ringbuf
--   Monitor.antt, Monitor/        bpf/network_monitor_tc.c
--     Flows, Flows/...            update_stats on the map of flows, the overflow events and counters
--     Concurrent, Concurrent/...  update_stats on several processors, with the collector's loop:
--                                 Ledger has the accounts, Sound and Calm the invariants, Solo and
--                                 Refinement the way back to update_stats of Flows, Progress the
--                                 end of a call
--     Packet, Transport           the buffer of a packet; ports, and types and codes of ICMP
--     Ipv4, Ipv6                  parse_ipv4; parse_ipv6 with ipv6_skip_exthdr
--     Parse, Parse/...            parse_packet and tc_ingress, and the theorems on the parser
--     Frames                      tc_ingress on frames one after another
--   Pipeline.antt, Pipeline/      the loop of collect and the packets that come in meanwhile
--     Arrivals, Leaks             bytes sent and waiting; bytes lost and read twice
--     Conservation, Delivery      the balance of a loop, and of the cycle that reads it
--     Runs, Room, Lossless        whole runs, on a map that does not fill up
--     Overlap                     from overlapping calls to the counters of a cycle
--     Events                      overflow events up to the agent's handler
--   Bpf.antt, Bpf/                internal/bpf: Types (types.go), Version, Manager and
--                                 Ringbuf (loader_linux.go), SockOffsets (sock_offsets.go),
--                                 Platform (loader_stub.go, on other systems than Linux);
--                                 Ringbuf/Layout is struct overflow_event against FlowRecord
--   System.antt, System/          internal/system: Kernel (kernel.go), Network (network.go)
--   Config.antt, Config/          internal/config: config.go, constants.go
--   Server.antt, Server/          internal/metrics/server.go: Page is handleRoot, Routes what Start
--                                 registers
--   Agent.antt, Agent/            cmd/agent/main.go: the phases of main, and one file for each group
--                                 of theorems on its paths
--   Go.antt, Go/                  what the code uses of strconv, strings, net and net/http, as
--                                 documented
--   Prelude.antt, Prelude/        shared names and lemmas: native numbers, byte texts, Go maps
--   Examples.antt, Examples/      concrete inputs, and the theorems applied to them
--
-- How the code is modelled. A text is the list of its bytes, an unsigned integer a number with its
-- wrap-around written out (`u64`), an int or a duration an integer. A Go map is an association
-- list, and the order in which Go ranges over it is an input: the theorems hold for every order. A
-- cycle of the collector returns the new state together with the sequence of its calls: the updates
-- of metrics, the deletions from the BPF map and the message on the batch size. float64 is an
-- abstract type, with the conversion and the arithmetic that the collector uses as parameters.
-- All loops are structural recursion over what is read, so no fuel occurs; only the decimal digits
-- of a number recurse on fuel, which is the number itself, and ipv6_skip_exthdr on the rounds of its
-- loop, which the code bounds by IPV6_MAX_HEADERS.
--
-- The kernel's side is the state of the three maps of the eBPF program. A call of update_stats goes
-- from one state to the next, on a kernel that is an input: what the insertion answers, whether
-- the ring buffer has room, and what others do to the map before the insertion and before the second
-- lookup. A call reads the clock once, or twice where the insertion does not work. A packet is its
-- linear bytes and the answers of bpf_skb_load_bytes. A round of
-- the collector's loop is the packets before its reading of a key, those up to the deletion, and
-- whether the deletion fails (`Turn`); `harvest` runs such rounds on one map and gives the entries
-- that `collect` reads.
--
-- Monitor/Concurrent.antt takes these calls apart. Each processor has a place in update_stats, with the
-- element of the map that its lookup returned; a move is one access to the shared maps by a processor or
-- by the collector, and an interleaving is any list of moves. A key stands for an element, so that a
-- deletion leaves the element to the processors that hold it. What the kernel answers to an insertion,
-- a free element or none, comes with the move.
--
-- http.ServeMux dispatches as documented, to paths that are clean; what it answers to others is a
-- parameter, and so is utf8.ValidString, of which only is used that it accepts ASCII.
--
-- What is outside: the helpers and the verifier of the kernel, netlink, the eBPF library, the
-- Prometheus client, YAML, durations and log levels. What they answer is an input
-- or a parameter of the definitions that use it. Log messages, the profiling server
-- and the tests are not modelled, nor are data races inside the agent: each operation is one step.
pub mod Prelude
pub mod Go
pub mod Bpf
pub mod Collector
pub mod System
pub mod Config
pub mod Server
pub mod Examples
pub mod Agent
pub mod Monitor
pub mod Pipeline
