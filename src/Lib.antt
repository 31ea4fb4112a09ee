-- ===== src/Lib.antt =====
-- Verification of the ECU's SunSpec adapter: a Modbus server that shows the inverters of an APsystems
-- ECU as SunSpec models, and that turns writes to some of these models into rows of the ECU's SQLite
-- database.
--
-- A refresh reads a snapshot of the fleet (internal/source), settles the outcome of earlier writes
-- (internal/server/write_tracker.go), and encodes one bank of registers for the whole fleet, at unit
-- 1, and one for each inverter, from unit 2 on (internal/sunspec). A read is answered from the bank of
-- its unit. A write is admitted by the configuration (internal/config), searched for in the bank,
-- and applied by the writer of the model that contains it, which issues SQL statements
-- (internal/source/writer.go), arms or cancels a reversion timer, and tracks what it expects.
--
-- Files and code:
--   Base: lists, Boolean tests, byte strings, signed integers, bits and machine words over the native
--     numbers; Strconv has Itoa and Atoi, Strings the functions of strings and bufio that the code
--     calls, for ASCII. A uint16, uint8 or uint32 conversion is written out as a remainder; Go's int
--     is a ℤ without overflow, but for Atoi, which takes its width.
--   Floats: float64 and float32, a parameter: a type with the operations that the code applies.
--   Source: internal/source. Inverter, Protection and Snapshot are the records with their derived
--     values, Nameplates the table of snapshot.go that a file fills; Params is the parser of params.go,
--     Reader what sqlite.go makes of the engine's answers, Protection.Rows the rows of protection.go,
--     and Builder, with Joins, the Build of snapshot_builder.go, which puts them together. Writer has
--     the control actions of writer.go; Database is the SQLite engine as writer.go uses it, a
--     parameter with the documented effect of the three statements; Handles opens and closes the
--     databases of both files.
--   Sunspec: internal/sunspec. Bank is the register bank; Chain says what a client expects of one;
--     Encoder (Encode) and PerInverter (EncodePerInverterWithProtection) put together the sections
--     of Controls, DcData, DerTrip, EnterService, Events, FreqDroop, FreqWattCurve, InverterFloat,
--     Mppt, Nameplate, Options, Phases, Settings and Vendor, named after the Go files and functions.
--   Config: internal/config/config.go, with Go's package net as a parameter; Load is its child.
--   Cmd: cmd/ecu-sunspec/main.go: the start-up, and in Main the way from the flags to the exit.
--   Server: internal/server. Handler has handleWrite and the other handlers, FindModel the walk of
--     findModelInBank, Refresh buildBanks and refresh, Process the defaults of New and the
--     refreshes of Start and refreshLoop, Lifecycle New, Start and Stop, Tracker write_tracker.go, Reverter reverter.go with its
--     callbacks as a step relation in Fire, ControlsWriter, EnterServiceWriter, FreqDroopWriter and
--     FreqWattCurveWriter the Apply methods, Profiles the routes of profiles.go, and World the state
--     that a write changes. Addresses joins the encoders and the walk, and Commanded a write and the
--     read of it after a refresh.
--   Tests: concrete parameters and data, and the theorems applied to them.
--
-- A handler takes the state and returns the response with the new state. Errors are values. The clock
-- is an argument, in nanoseconds. A Go map is a list of entries whose first entry for a key counts.
-- The loop of findModelInBank has 65536 rounds of fuel: its address grows by at least one in each,
-- below a 16-bit end. The digits of a number n are written with n + 1 rounds, since each divides it by
-- ten. Every other loop is structural recursion.
--
-- A step of Server.Reverter.Fire is one critical section, one statement or the passing of time, and
-- steps of callbacks and handlers follow each other in any order.
--
-- Not modelled: the Modbus library and the sockets, of which Server.Lifecycle takes whether they come
-- up; the log file, the signals and the ticker, for which the rounds of the loop are an argument, but
-- for the panic of time.NewTicker (Server.Lifecycle.loop_panics), which Cmd.Main takes to come before a
-- signal does; the locks, but in Server.Reverter.Fire (each method holds its lock from its first line
-- to its last); reading of files, the text of the queries and the database's answers, which are
-- arguments; the JSON and time formats and the parsing of floating-point numbers, which are functions
-- that the definitions take; and the parsing of flags.
pub mod Base
pub mod Floats
pub mod Source
pub mod Sunspec
pub mod Cmd
pub mod Config
pub mod Server
pub mod Tests
