-- ===== src/Lib.antt =====
-- Line 6 USB audio for macOS: the CoreAudio plugin and the capture daemon.
--
-- The program has two processes. The daemon (daemon/src) reads isochronous USB packets from a Line 6
-- device and stores whole frames of Float32 samples in a ring in shared memory; it alone writes the
-- segment. The plugin (plugin/Line6HAL.c) runs inside coreaudiod, maps the segment, publishes one
-- input device, and copies frames out of the ring in the host's IO cycles. They share the header
-- shared/line6_shm.h and synchronise on one atomic counter, write_frames.
--
-- Files:
--   Prelude        names and lemmas on tests, lists and bits that the others share
--   Shm            shared/line6_shm.h: constants, line6_shm_t (Shm), the sample index (slot)
--   Stream         the abstract view that both sides meet: a stream of frames, of which the ring holds
--                  the last ones (Holds), and the daemon's stores one by one (Produced)
--   Float64, CoreFoundation, CoreAudio
--                  interfaces to the C type double and to the frameworks, with their documented laws
--   Plugin         plugin/Line6HAL.c: the static variables (Globals), gMutex, DevChannels
--   Plugin/Lifecycle  AttachShm, QueryInterface, AddRef, Release, the factory, Initialize, and the
--                  handlers that only return a status
--   Plugin/Io      StartIO, StopIO, WillDo-, Begin-, Do- and EndIOOperation; its children are about
--                  the window that a cycle reads, the copy loop, what is delivered while the daemon
--                  writes, several clients, and sessions of StartIO and StopIO
--   Plugin/Timeline   GetZeroTimeStamp
--   Plugin/Presence   PresenceMonitor and NotifyDeviceList
--   Plugin/Names   DeviceNameCopy and its cache
--   Plugin/Property   HasProperty, IsPropertySettable, SetPropertyData and GetPropertyDataSize (Size),
--                  GetPropertyData (Query) and the values that it writes (Value)
--   Plugin/Interface  gInterface: a host's request as a value, its dispatch (serve), the variables as the
--                  bundle is loaded, and sessions of requests and monitor rounds (run); its children are
--                  about what handlers keep, which requests come back, and sessions
--   Daemon/Devices daemon/src/devices.rs: the device table and find_connected
--   Daemon/Samples, Daemon/Writer, Daemon/Header
--                  daemon/src/shm.rs: s24_to_f32, push_frames, create with write_name
--   Daemon/Capture daemon/src/usb.rs: StreamState, on_in and on_out, and push_sine of daemon/src/shm.rs
--   Daemon/Engine  daemon/src/usb.rs: make_iso, start, handle_events and stop, with their libusb calls as
--                  lists; Protocol is the call order that libusb documents, and the other children hold
--                  start, the callbacks and stop against it
--   Daemon/Main    daemon/src/main.rs: the loop of run_daemon, a turn at a time; its children are about
--                  what a turn keeps, its branches, the states it can reach, and when it gives up
--   System         the two together: what a client hears of the bytes that USB transfers bring
--   Harness        plugin/haltest.c: the property sweep (sweep), which calls the handlers as the host does
--   Harness/Simulation, Harness/Analysis
--                  iosim: its loop, paced on the host clock, and the analysis of what it has kept; their
--                  children are about the loop's end, what it keeps of the stream, and zero crossings
--   Harness/Main   peek_attach and main, which load the plugin and give the exit status
--   Tests          instances of the interfaces, test data, and the theorems at concrete inputs
--
-- The plugin's parts share the globals; the host reaches them through Plugin/Interface only, and the
-- presence monitor beside it. In the daemon the main loop opens a device by Daemon/Devices, sets the
-- segment up by Daemon/Header, and starts and stops Daemon/Engine, whose callbacks are
-- Daemon/Capture, which stores frames through Daemon/Writer.
--
-- State and operations. A handler takes the globals and returns an Outcome: a status with the new
-- globals, a deadlock (gMutex is not recursive, and a thread that locks it twice never returns), or
-- a crash (a framework call on a null object). The daemon's functions return an Option, none being a
-- panic or an access outside a buffer; the functions that call libusb also give the list of their
-- calls. What a loop meets of the outside (clock, signals, libusb's answers, the segment at that
-- moment) is a list with an entry for each turn, and a loop that has not ended when the list is used
-- up says so. The segment is an argument of the handlers that read it; in DoIOOperation the ring is
-- a function of the time of each access, since the daemon writes during the copy. Integers are
-- natural numbers with the wrap-around of uint32_t and uint64_t written out. A finite Float32 is a
-- whole number of steps of 2^-149, and the daemon's samples are these numbers; its arithmetic in
-- f64, which the test tone uses, is an interface.
--
-- Bounds. IsSized says what the theorems on the cursor ask of buffer and latency: three buffers and
-- the safety offset fit the ring of 65536 frames, as do the latency or the default of 3072 frames
-- and a buffer; the daemon clamps the latency to 24000 frames. Counters are assumed below 2^64,
-- which 48000 frames a second reach after twelve million years. No definition runs on fuel.
--
-- Of the daemon, stop waits at most two seconds, in nanoseconds here, for its sixteen transfers.
--
-- Not modelled: two threads of the plugin interleaved between their lock operations; in the daemon
-- list_devices, the parsing of arguments, a libusb_alloc_transfer that fails (an assert), and the
-- libusb context that find_connected opens for itself; in plugin/haltest.c the mock host, of which
-- the plugin reads nothing, and the monitor's thread beside main; printing, logging, sleeping and
-- the file handling of shm_open and mmap, of which only the outcome counts; scripts and packaging.
pub mod Prelude
pub mod Shm
pub mod Float64
pub mod CoreFoundation
pub mod CoreAudio
pub mod Stream
pub mod Plugin
pub mod Daemon
pub mod System
pub mod Harness
pub mod Tests
