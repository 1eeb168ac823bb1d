-- ===== src/Lib.antt =====
-- The flight software of hailburst: its replicated communication stack, telemetry and commands. The
-- software runs every component in several replicas, whose results are voted on, and talks to its
-- instruments over a SpaceWire-like line ("fakewire").
--
-- The parts, from the bottom:
--   Synch.Flag      fsw/include/synch/flag.h: faults that are reported with a pause between reports.
--   Synch.Duct      fsw/synch/duct.c, fsw/include/synch/duct.h: a channel from the replicas of a sender
--                   to the replicas of a receiver, of a few messages for each scheduling cycle.
--   Synch.Notepad   fsw/synch/notepad.c, fsw/include/synch/notepad.h: state that the replicas of a
--                   component feed forward from cycle to cycle, by a vote.
--   Synch.Pipe      fsw/synch/pipe.c, fsw/synch/pipebuf.c and their headers in fsw/include/synch: bytes
--                   over a duct with backpressure, and the buffers at its ends.
--   Bus.Codec       fsw/bus/codec.c, fsw/include/bus/codec.h: control characters, parameters and data
--                   on a line of bytes with escapes.
--   Bus.Exchange    fsw/bus/exchange.c, fsw/include/bus/exchange.h: the link protocol: handshakes,
--                   flow-control tokens, keep-alives and packets.
--   Bus.Rmap        fsw/bus/rmap.c, fsw/bus/rmap_helpers.c, fsw/include/bus/rmap.h: the client of the
--                   remote memory access protocol.
--   Bus.Switch      fsw/bus/switch.c, fsw/include/bus/switch.h: the switch that forwards packets
--                   between ducts by their first byte.
--   Flight.Comm     fsw/flight/comm.c, fsw/include/flight/comm.h: telecommands out of an uplink pipe and
--                   telemetry into a downlink pipe.
--   Synch.Circular  fsw/include/synch/circular.h: the circular buffer in which telemetry waits.
--   Flight.Clock    fsw/include/flight/clock.h: the vote on the clock's offset, and the mission time.
--   Flight.Calibration  fsw/flight/clock.c, fsw/include/flight/clock_cal.h: how the offset is found.
--   Flight.Telemetry    fsw/flight/telemetry.c, fsw/include/flight/telemetry.h: the messages of the
--                   components, and the pump that makes downlink packets of them.
--   Flight.Command  fsw/flight/command.c, fsw/flight/pingback.c and their headers: the clip that hands
--                   telecommands to the components, their replies, and the answer to a ping.
--   Flight.Heartbeat    fsw/flight/heartbeat.c: a message in each period.
--   Vivid.Watchdog  fsw/vivid/watchdog.c, fsw/vivid/include/hal/watchdog.h: the voters that watch over
--                   the components, and the monitor that feeds the hardware watchdog.
-- An exchange reads its line through a decoder and writes it through an encoder, each of which has a
-- duct to the line; the packets that it reads go out on one duct, the packets that it writes come in
-- on another, the switch forwards such packets between ducts, and the RMAP client sends and receives
-- them. A pipe is two ducts, one for the bytes and one back for what the receiver can take; the decoder
-- and the encoder of the radio link are at the ends of two pipes. A component sends telemetry over a duct
-- or a pipe to the pump, whose packets go through the encoder; the command clip takes packets out of the
-- decoder and sends each over a duct to a component, which replies with telemetry. The heartbeat and the
-- pump tell the watchdog's voters that they make progress.
--
-- How the code is modelled. A function of the code is a function of the same name, without the
-- prefix of its module (`duct_send_message` is `Synch.Duct.send_message`, `fakewire_dec_decode` is
-- `Bus.Codec.dec_decode`, `exchange_instance_receive` is `Bus.Exchange.receive`; the functions of
-- notepads, pipes, the radio link and the switch keep their whole names); a structure is a record
-- with its fields. What a pointer leads to is passed in and returned: a duct and a transaction on
-- it are two values; the switch holds the ducts of its ports, of which no two are the same. A
-- duct's arrays are functions of the index. assert, assertf, abortf and malfunctionf end a call
-- with `aborted`; log output is left out, and with it miscomparef, which only logs in the flight
-- configuration. A check that a pointer is set has no counterpart, nor has the check that a receive
-- runs inside a clip, nor the assertions of the codec on the fixed configuration of its line duct, nor
-- the one in each round of fakewire_dec_internal_decode on the length of the line, which
-- fakewire_dec_prepare has checked and which does not change until then.
-- The clock is a function that is passed in. Words wrap where the code's do: flow indices modulo
-- 2^8, transaction numbers modulo 2^16, counters modulo 2^32, times modulo 2^64. The decoder's
-- buffer is the list of the bytes not read yet, and the encoder's buffer that of the bytes written.
-- The random number is the little-endian word of four bytes. The exchange's clips take the note and
-- its validity, as a notepad gives them. A pipe's buffers are the bytes to send and the bytes not
-- read yet. zlib's crc32 is a parameter, of which the encoder's theorem uses that it can be taken
-- in parts, and the decoder's that it has 32 bits. A telemetry or command message is the bytes of
-- its packed structure; the processor lays numbers out from the low byte. The circular buffer names
-- an element by its place, and its functions have no prefix. The watchdog's device is a record of
-- what its registers read and of what feeding does; the aspects are monitored.
--
-- Loops. The loops over replicas and bytes are structural. A parameter of a control character takes
-- at most four rounds of the decoder's loop (`param_rounds`), since each round that goes on reads
-- one of four bytes. The loop that drains a duct runs on one more than the duct's flow, since each
-- round moves on by one. The receiving clip's loop runs on twice the length of the line and two,
-- since a byte takes at most two rounds. The loop that sends a buffer and the loop that decodes
-- packets run on one more than the bytes there are, since each round takes a byte. The loops of the
-- telemetry pump run on one more than a duct's flow or a buffer's places, since each round takes a
-- message or a place. The theorems state that calls return; none assumes it.
--
-- Not modelled: the magnetometer and the radio in fsw/flight, two state machines over RMAP on top
-- of the operations modelled here; what the watchdog's abort does, which is assembly; the notepad
-- without a vote, which is compiled only where notepads are switched off; the rest of the kernel
-- and drivers in fsw/vivid, fsw/linux and fsw/bootrom, which are hardware access; the build tools;
-- the simulator and ground tools in Go; the clip that draws random numbers, which is the C
-- library's generator and a send.
pub mod Prelude
pub mod Synch
pub mod Bus
pub mod Flight
pub mod Vivid
