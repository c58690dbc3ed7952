-- ===== src/Lib.antt =====
-- drivewire-rs: a DriveWire 4 server for the Tandy Color Computer, as executable functions.
--
-- The program. A guest computer sends opcodes over a serial line or TCP. crates/drivewire-server/src/lib.rs
-- runs one session for each guest: it reads an opcode, the handler reads the payload, works on the shared
-- `Server` (mounted disks, virtual serial channels, printer) and answers. Local programs attach to a
-- channel over a Unix socket, and a control socket mounts and unmounts disks. crates/drivewire-proto
-- holds the wire's primitives, crates/drivewire-vdisk the disk images, crates/drivewire-transport the
-- serial port, and crates/drivewire-cli the command `dw` and an example guest.
--
-- The files, and the code that they model:
--   Proto/Checksum, Lsn, ErrorCode, Opcode: the files of the same names in crates/drivewire-proto/src
--     (`checksum16`, `Lsn::from_be3`, `Opcode::try_from`, `Decoded::from_byte`).
--   Vdisk: `DskFile` of crates/drivewire-vdisk/src/lib.rs (`open`, `read`, `write`); Vdisk/Splice and
--     Vdisk/Laws are about it. Vdisk/Trait: the trait `VDisk` as a record, with the contract that a client may
--     count on; Vdisk/Trait/Dsk: `impl VDisk for DskFile`; Vdisk/Trait/Traces and Images: sequences of calls.
--   Server/State: `struct Server` and the methods that change it under one lock; Server/Session: the
--     monad of a session, whose steps stop at the first error as `?` does; Server/Handlers: one function
--     for each `handle_*` method; Server/Run: `Server::run`, with `turn` for one pass of its loop.
--   Server/Run/Rules: the interface between the handlers and what is shown of all of them: a record of
--     one rule for each thing that a handler does, which Server/Run/Returns, Performed, Atomic and Typed
--     fill. Server/Run/Asked: the steps of Server/Actions that each opcode asks for, read off its payload;
--     Server/Run/Doing, Refinement and First: handlers, sessions and single commands against them.
--   Server/Actions: the steps by which concurrent tasks change the shared server. Each is one critical
--     section, so an interleaving is a list of them. Server/Attach: the two tasks of `handle_attach`;
--     Server/Attach/Client: a connection from its channel byte on, with both tasks between others;
--     Server/Attach/Notified: `push_vserial` as two steps, with other tasks between them.
--     Server/Sessions: the sessions of many guests on one server, as a relation between states, each step
--     of which is a whole turn. Server/Awaits: the same handlers cut at their awaits, as programs;
--     Server/Awaits/Tasks: sessions that may be interrupted before any await, by mounts and unmounts only
--     while no session holds a disk that it has looked up; Server/Awaits/Anytime: by these at any time.
--     Meaning, Ready, Moving, Counting, Following, Whole, Atomic, Stale, Late, Bounded, Ending, Typed,
--     Leaves, Streams and Flow, below it, are about programs, tasks and runs by whole turns.
--   Server/Listeners: `run_attach_listener` and `run_control_listener`.
--   Control: the control socket's commands and the loop over the disks of `dw serve`; Control/Client: what
--     `dw mount`, `dw unmount`, `dw status` and `control_request` of crates/drivewire-cli/src/main.rs send,
--     read and report; Command: its `main`, with these commands from their connection on;
--     Command/Reading and Report are about what they read; Text: the operations on text that both use.
--   Terminal/Escape, Terminal/LineEndings: the keyboard and the screen of `dw attach`; Terminal/Attach: the
--     whole command with its two tasks and the mode of the terminal; Serve and Probe: `dw serve` and
--     `dw probe`, all in crates/drivewire-cli/src/main.rs.
--   EchoGuest: how crates/drivewire-cli/examples/echo-guest.rs reads SERREAD and frames its echo;
--     EchoGuest/Loop: its loop over any connection, a record of two operations; EchoGuest/Served: a session
--     of the server as that connection, which serves what is written at once.
--   Serial: the threads, `poll_read` and `poll_write` of crates/drivewire-transport/src/blocking_serial.rs;
--     Serial/Open: the descriptors of its `open`; Serial/Termios: `configure_termios`; Serial/Drain: `drain_serial` of crates/drivewire-transport/src/lib.rs;
--     Transport: the other functions of that file.
--   Prelude, Io: shared names, tests on numbers, lists, bytes, results, and the peer's stream. Tests: runs on
--     concrete inputs.
--
-- What stands for the outside. A peer is the bytes that it will send, the error behind them, and how
-- many bytes it takes (`Wire`). Host files are numbered (`Files`), so that two mounts may share one; what
-- opening a path answers is an argument (`Directory`), and a file may have a fault that every operation
-- on it meets. The clock's readings are part of a session's world. What the host and the standard library
-- print of errors and of quoted texts is a record (`Wording`), with no line feeds where that is needed.
-- The returns of `read` and `write` on the serial port are lists, and so are the reads of a client's socket
-- and the passes of a drain before its window ends. The port that a session runs on is the bytes that its
-- reads bring, with writes that always succeed, since they go to a queue without bounds.
--
-- Numbers are natural; a wrap at 8, 16, 32 or 64 bits is written out where the code has one. Bytes are
-- numbers, and a theorem that needs them below 256 says so. `run` has fuel for its turns: each turn but the
-- last takes at least one byte of the input, so one more than the input's length is enough.
-- A session that is cut at its awaits gives every lock back before it goes on, also the one that
-- `handle_serread` keeps while it sends, which allows more interleavings than the code. The notification at
-- the end of `push_vserial` is taken with its push, but for Server/Attach/Notified.
-- A decimal number is printed with fuel for one digit more than its value, which is above its digits.
--
-- The constants and calls of libc behind `configure_termios` are a record, `Libc`, with what termios(3) says of them
-- as the hypothesis `IsStandard`; words of flags are given by their bits.
--
-- Not modelled: logging and what commands print; an accept of `dw serve --tcp` that fails, which ends the command; the modem lines, whose call is not looked at, and the low-latency
-- ioctl, which does nothing; argument parsing; what the runtime does as it shuts down behind a command.
pub mod Prelude
pub mod Proto
pub mod Io
pub mod Vdisk
pub mod EchoGuest
pub mod Terminal
pub mod Tests
pub mod Server
pub mod Text
pub mod Transport
pub mod Command
pub mod Control
pub mod Serial
pub mod Probe
pub mod Serve
