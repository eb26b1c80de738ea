-- ===== src/Lib.antt =====
-- SwitchboardAdapter: TileLink agents over Switchboard queues, and a memory interface on top of them.
--
-- The program. sb_sim/include/tilelinklib.h fixes the packed messages of the TileLink channels A
-- (requests) and D (responses). sb_sim/include/tilelinklib.hpp has the class `TLAgent`, whose methods
-- set the parameters of a link and fill messages, and its subclasses `ClientTLAgent` and
-- `ManagerTLAgent`, which copy messages to and from the packets of two queues. In
-- sb_sim/include/memifc.hpp the class `ClientTLMemIfc` serves reads, writes and clears of memory ranges
-- by transactions of a `ClientTLAgent`. On the hardware side, src/main/scala/Bundles.scala packs and
-- unpacks the same messages.
--
-- The modules.
--   Base: words, shifts, builtins, `memcpy`, the result of a call, and lemmas on lists, bits and powers.
--     A failed assert, undefined behaviour and a receive that waits for ever are values of `Error`.
--   Wire (tilelinklib.h): the opcodes, `TlMessageA`, `TlMessageD`, `TlBundleParams`. Wire.Codec is the
--     copy between a message and the 52 bytes of a packet, on a little-endian host. Wire.Rtl is the
--     `pack` and `unpack` of src/main/scala/Bundles.scala. The C++ field `data` is `payload`.
--   Agent (TLAgent): `set_ul_params` and `set_params` are the two `set_TLBundleParams`, `get_params` is
--     `get_TLBundleParams`, `put_partial` is `putPartial`, `access_ack_data` and `access_ack` are
--     `accessAckData` and `accessAck`, `align_mask` and `align_mask_at` are the two `alignMask`, and
--     `check_transfer` has the asserts that open the builders. A builder takes what the message held
--     and returns what it holds.
--   Client (ClientTLAgent, ManagerTLAgent): `send_a`, `recv_d`, `recv_a`, `send_d`, over a `Link`, which
--     stands for the Switchboard queues and what is behind them. Client.Queue states that queues are
--     first in, first out; Client.Network is such a pair of queues.
--   MemIfc (ClientTLMemIfc): the operations under their names. `shrink` and `chunk_loop` are the loops of
--     `for_aligned_chunks`, `read_beats` and `write_beats` those of `read` and `write`, `read_next` and
--     `write_next` the callbacks of `read_chunk` and `write_chunk`, and `clear_loop` that of
--     `clear_chunk`. A caller's buffer is a list, the moving pointer into it an index. Uninitialised
--     stack messages are a parameter `fresh`. MemIfc.Memory states what a TileLink memory behind the
--     link does on each message, which is what reads and writes are proved against; MemIfc.Ram is such
--     a memory. MemIfc.Session has sequences of calls, and the same on an array of bytes;
--     MemIfc.ClearCalls has `clear_chunk` as such a sequence, and MemIfc.ClearRace puts the calls of
--     another thread in between.
--   Print (tilelinklib.hpp): `get_opcode_a_str`, `get_opcode_d_str`, `data_to_bytes`, `tl_a_to_str` and
--     `tl_d_to_str` are the functions of nearly those names, `print_a` and `print_d` what the agents
--     write; texts are lists of character codes.
--   Loopback (sb_sim/tlloopback/client.cc): `client_thread` and `manager_thread` as functions from a place
--     to the next; `Step` and `Run` are their interleavings with the design between the queues of the
--     client and those of the manager. Loopback.Contract states its laws: each packet is what the ports of
--     Adapter make of it, for a node of any widths, and nothing is said of full queues. Loopback.Line is
--     such a design.
--   RamClient (sb_sim/tlmem/client.cc): `send_thread` and `recv_thread` over a link of their own;
--     `sender` and `receiver` are the same threads round by round, and `Step` and `Run` their
--     interleavings with a memory, which RamClient.Contract states the laws of. RamClient.Ram is such a
--     memory.
--   Minimal (sb_sim/minimal/client.cc and src/main/scala/example/Minimal.scala): `send_thread` and
--     `recv_thread` are the threads round by round, `increment` and `clock` the design between them,
--     `cycle` a clock edge of the design together with the queues on both sides, and `Step` and `Run` the
--     interleavings. Minimal.Contract states what is relied on in the Switchboard queues, in the bridge
--     of the simulation and in the `Queue` of the Chisel library. A `Run` counts moves of packets: from
--     a thread to a queue, from the queue to the design, and so on; the clock may tick without any.
--   Chisel: the `Queue` of the Chisel library as a parameter, with what is relied on of it. `relay` is a
--     queue between two conversions over a sequence of clock edges. Chisel.ListQueue is such a queue.
--   Adapter (src/main/scala/Bundles.scala and SwitchboardTLAdapter.scala): `to_tla`, `from_tla`, `to_tld`
--     and `from_tld` are the conversions of those names, `client_a` and `client_d` the ports of a client,
--     `manager_a` and `manager_d` those of a manager, with the wiring of `SBIO`. The widths of the fields
--     of a rocket-chip node are a parameter, `Widths`. Adapter.Through joins the node of a client port to
--     that of a manager port, as src/main/scala/example/TLLoopback.scala does.
--
-- Bounds and fuel. Addresses and sizes are of 64 bits and masks of 32, with their wrap-around written
-- out. The fuel of `shrink` is 64, since a power of two below 2^64 is halved 64 times at most before it
-- is 1; that of `chunk_loop` and `clear_loop` is one more than the number of bytes, since each round
-- takes a byte at least. A number that is printed has 64 digits at most.
--
-- A send of an agent returns once there is room in its queue; a `Link` has the state at that time, and
-- the wait for room is not modelled. In Client.Order the queues take any number of packets.
--
-- Not modelled: the part of the `main` of sb_sim/tlmem/client.cc that loads a program by the reader of
-- fesvr, the texts that the other programs print, the diplomacy of rocket-chip nodes in src/main/scala
-- (in SwitchboardTLAdapter.scala, Top.scala and the examples but Minimal.scala), and the build
-- scripts. The mutex of `ClientTLMemIfc` is held for the whole of a `read_chunk` or a `write_chunk`, so
-- that calls are taken one by one; `clear_chunk` takes it anew for every block.
pub mod Base
pub mod Wire
pub mod Agent
pub mod Client
pub mod MemIfc
pub mod Print
pub mod Chisel
pub mod Loopback
pub mod RamClient
pub mod Minimal
pub mod Adapter
