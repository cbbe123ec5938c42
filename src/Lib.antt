-- ===== src/Lib.antt =====
-- The headset battery indicator: a daemon that reads the battery of wireless headsets and shows it to
-- the desktop as a virtual HID battery of the kernel.
--
-- The program's parts, and the file that models each:
--
--   Headset           src/headset.rs: what every reader reports of a headset, and the names given to
--                     its virtual device.
--   Maxwell/Frame     src/maxwell/frame.rs: the report of an Audeze Maxwell dongle, and the messages
--                     in it. Frame/Wire is an independent grammar of what the dongle writes.
--   Maxwell/Session   src/maxwell/session.rs: one open dongle, what it said of the headset, and when
--                     it may be asked. `listen` and `ask` are the two operations that reach the
--                     dongle; Session/Budget and Session/Invariant follow them over all histories.
--   Maxwell/Access    src/maxwell/session.rs, `AccessWatch`, `report_error` and `report_recovery`: when a
--                     failure to reach a dongle is reported. The process's watch and the lines said are
--                     in the record `Outside`, which the passes of the reader hand on.
--   Maxwell/Wedge     src/maxwell/wedge.rs, `WedgeWatch`: when a silent dongle is reported as wedged;
--                     Wedge/Evidence is `playback_running`, Evidence/Playing what it
--                     looks for, Wedge/Human the wording of a duration.
--   Maxwell/Reader    src/maxwell/mod.rs, `Reader`: the sessions of the dongles that are plugged in. One
--                     pass is `reconcile`; `listen_to` runs a session and the wedge watch.
--                     Reader/Passes makes one pass after another.
--   Maxwell/Discover  src/maxwell/discover.rs: the dongles in sysfs, and the headset on a cable.
--   HeadsetControl    src/headsetcontrol.rs: the report of the `headsetcontrol` binary; its child process
--                     is in HeadsetControl/Process.
--   Source            src/source.rs: which of the two readers answers a poll.
--   Notify            src/notify.rs: the messages to the service manager.
--   Cli               src/main.rs: the command line. Cli/Output is the text that `status` and `udev-rules`
--                     print, Cli/Program runs the commands.
--   Files             what the program uses of the file system.
--   Bridge/Policy     src/bridge/policy.rs: the pace of the polls, the graces, and the vetting of a level.
--   Bridge/Batteries  src/bridge/batteries.rs: the virtual batteries, devices and records side by side.
--                     Batteries/View is the map that they stand for.
--   Bridge/Vetted     src/bridge/mod.rs, `vetted`: the policy's verdict and what it leaves in the record.
--   Bridge/Uhid       src/bridge/mod.rs, the trait `Uhid` and `DevicePool`.
--   Bridge/Daemon     src/bridge/mod.rs, `Bridge`: Daemon/Devices creates and destroys virtual devices
--                     (`attach`, `outcome`, `expire`), Daemon/Apply takes in the headsets of a poll
--                     (`apply`, `tick`), Daemon/Serving waits and shuts down,
--                     and Daemon/Running is `run`.
--
-- A reader makes a list of headsets of its dongles; the bridge compares each one with its table by
-- `key`, vets the level, and creates, updates or withdraws the virtual device. The session's `sample`
-- is what the bridge's second opinion reads. The daemon passes one instant to a whole poll, and so do
-- the definitions; `report_error` reads the clock itself, and takes the next of `Outside.instants`,
-- and so does the choice of the reader (`Scene.answered`).
--
-- State is passed explicitly: an operation takes the record of its component and returns the new one
-- with its result. Instants and durations are nanoseconds, and a difference of instants stops at 0,
-- as `Instant::duration_since` does. A text is a list of code points, a byte string a list of numbers.
-- The counters of a session wrap at 2^32 and the count of readings at 2^64; Session/Budget is about
-- fewer than 2^32 passes, which at one a second is more than a century. The loop of `expire` is
-- recursion on the number of batteries, each turn of which removes one or moves on, so that it needs
-- no more turns.
--
-- What is not under this repository is a parameter: the record `Hidraw` is the `hidraw` crate, with
-- a device that changes as it is used, and `UhidBattery` is the `uhid-battery` crate. What
-- Session/Budget relies on (`Meter`) is that the devices count the requests written to them, a
-- write counting one at most and a fetch none. Reader/Mute is about a device whose reports hold no
-- message and whose transfers do not fail by saying that it is gone (`IsMute`); errors that do say so
-- close the session, as in the source. For a pass of the reader the look at the ALSA state and the
-- lists of dongles are arguments; Maxwell/Wedge/Evidence and Maxwell/Discover model them. What the
-- clock reads while a node is opened is `Hidraw.opening`.
--
-- So are the file system (`Files`), the operating system's processes (`System`), the decoder of
-- JSON, datagram sockets (`Sockets`) and `serve_all`. Time, the stop flag and what sysfs lists come
-- with each turn or pass as an argument. Of `serve_all`, Daemon/Serving relies on its leaving the
-- devices where they are and blaming one of them (`IsServing`); of a pool of handles,
-- Daemon/Handles on its counting those it holds (`Ledger`), as `DevicePool` does. An `Account` is what
-- the proofs about handles carry: it relates the pool to how many are out.
--
-- The loops run on fuel where they are not structural: `wait` has enough with one turn more than the
-- failures that its devices may still have, the wait for HeadsetControl with one turn for each 25 ms of
-- the timeout and two more, its clock advancing by the 25 ms that a turn sleeps (`Ticks`), so that
-- `wait_for_child` is total. Daemon/Running numbers the readings of the stop flag; two turns more than
-- the first reading that finds it raised are enough for `run`.
--
-- Not modelled: log lines but those of the access error watch (what decides whether the daemon takes
-- notice is), the parsing of the
-- arguments, which is done by `clap`, and failures to write to the standard output.
pub mod Prelude
pub mod Time
pub mod Files
pub mod Headset
pub mod HeadsetControl
pub mod Maxwell
pub mod Source
pub mod Bridge
pub mod Notify
pub mod Cli
