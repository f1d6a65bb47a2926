-- ===== src/Lib.antt =====
-- A model of the circonus agent, a daemon that collects metrics of a host and hands them to a Circonus
-- broker.
--
-- The program's parts, and how they interact. The plugins (internal/plugins) are commands whose output
-- is read into metrics; the statsd listener (internal/statsd) and the write receiver
-- (internal/server/receiver) take metrics from other programs; all of them name their metrics by the
-- functions of internal/tags. The builtin collectors (internal/builtins) read the files of the system.
-- The HTTP server (internal/server) has the plugins and the builtins run, collects the metrics of all
-- sources and gives them out, and hands the metrics that are sent to it to the receivers. The reverse
-- connection (internal/reverse) dials the broker, waits for its commands, answers each with what the
-- agent's HTTP server gives for the request in it, and asks for a refresh of the check
-- (internal/check) where that does not work.
--
-- The files, each with children for its parts and for its theorems:
-- - Prelude: names shared by all files, numbers and tests on them, and the functions of Go's standard
--   library that the code uses on strings, numbers and maps. A string is the list of its bytes.
-- - Reverse.Frame: internal/reverse/connection/frame.go. A connection is the list of what its reads
--   deliver; build_frame is buildFrame, read_frame_from_broker is readFrameFromBroker, with its helpers
--   by their names.
-- - Reverse.Send, and fetch_metric_data in Reverse.Command: internal/reverse/connection/metrics.go. The
--   outcomes of the writes are a list; send_loop has as fuel the number of bytes of the data, since
--   each round moves the offset on.
-- - Reverse.Command: command_reader.go and command_processor.go of the same directory. The two
--   goroutines are run in the order of the messages between them.
-- - Reverse.Connection: connection.go. `connect`, `handle_result`, `serve` and `start` are connect, the
--   body of the loop over results, that loop, and Start. Dials, random numbers, times, reads and
--   cancellation come from a schedule, a list of sessions, and the functions recur on it.
-- - Reverse.Owner: FindPrimaryBrokerInstance of internal/check/reverse.go, with HTTP replies as values.
-- - Reverse.Supervisor: Start of internal/reverse/reverse.go, over a list of rounds.
-- - Tags: internal/tags/tags.go. The Unicode functions (lower case, removal of spaces) are parameters.
--   Tags.BaseTags has GetBaseTags with its package variable passed along, Tags.Order the sorted keys of
--   a map, Tags.Base64 the encoding, which Tags.Decoding reads back.
-- - Plugins.Output and Plugins.Run: internal/plugins/plugin.go. A command is a record of what it does:
--   whether it starts, the lines it puts out, whether its output ends and it exits (some plugins go on
--   for ever), and how. Where it does not, exec has not returned, and gives the plugin as it is meanwhile.
--   Floats and JSON are parameters.
-- - Plugins.Manager: internal/plugins/plugins.go. The map of active plugins is a list in the order in
--   which a loop over it goes; create_plugins is New, and the goroutines of Run, which share nothing, are
--   run one after the other. A run waits for its commands, and so does a request that has plugins run.
--   Plugins.Meaning has what a name means. Plugins.Names and Plugins.Scanning: internal/plugins/scan.go, over a record
--   of what the directory, the configuration files and `os.Stat` say.
-- - Builtins: Run, IsBuiltin and Flush of internal/builtins/builtins.go, over any collectors with the
--   operations of the interface in internal/builtins/collector/collector.go.
-- - Procfs.Common, Procfs.Load, Procfs.Memory, Procfs.Vm and Procfs.Cpu: collector.go, load.go, vm.go and
--   cpu.go of internal/builtins/collector/linux/procfs. The files are lists of lines, if they can be read; whether
--   the context is done is asked as often as the code asks. An index out of range is an outcome of its
--   own. Numbers of memory are in the arithmetic of 64 bits; floats are a parameter.
-- - Receiver.Samples and Receiver.Parse: internal/server/receiver/receiver.go. What Parse does with the
--   library circonus-gometrics is the list of its calls; floats, the conversions of floats to integers,
--   and serialized histograms are parameters. The loop over a map is in the order of a list.
-- - Statsd.Format, Statsd.Metrics and Statsd.Destination: internal/statsd/metrics.go, and the regular
--   expression of a metric in internal/statsd/statsd.go. The calls of circonus-gometrics are values, and
--   floats with their roundings are parameters. Statsd.Connections has the map of TCP connections of
--   internal/statsd/statsd.go, through any sequence of events.
-- - Check.Config: the state of the check in internal/check/check.go with its calls of the API, and CheckCID
--   and Period of internal/check/bundle/bundle.go. Check.Broker: internal/check/broker.go. Check.Refresh:
--   setReverseConfigs of internal/check/reverse.go, and RefreshReverseConfig and New of check.go. The API,
--   the certificates and the parsers of URLs and addresses are records of what they give.
-- - Check.Select: internal/check/bundle/broker.go, with the times that attempts to connect take. Check.Bundle
--   and Check.Create: bundle.go of the same directory, without the timeout, which is a float, and without the
--   file that a bundle is saved in; what the configuration says is a record of options.
-- - Server.Paths: the regular expressions of internal/server/server.go and the switches of router in
--   internal/server/routes.go. Server.Collect, Server.Export and Server.Handlers:
--   internal/server/handlers.go, each handler by its name (run_handler is run, write_handler is write, and
--   handle is the body of router). A request is a record with its path, its query and what the decoders
--   make of its body; an answer is a record, without the texts of error pages. What commands, collectors,
--   the metrics library and the agent's own statistics give are parameters, and so is the order in which
--   the sources hand their metrics on.
-- - Tests: runs at concrete inputs, and the theorems at inputs that meet their hypotheses.
--
-- Numbers are natural numbers; uint16 and uint32 wrap in frames, as written there; the parsers of
-- integers have the bounds of their types; times are in nanoseconds, and their differences stop at 0.
-- Locks are not modelled: each operation is a step. Log messages, statistics and the text of errors are
-- left out; an error is a value that says which one it is.
--
-- Not modelled: TLS and the text of the introduction, the sockets and the options of the statsd
-- listener, the listeners of the HTTP server, the prometheus receiver, the configuration, the
-- construction of collectors and those that are not named above, the submission for several agents, the
-- API client and the command line. TLS, sockets and listeners are I/O; of the rest, much reads the
-- configuration or the operating system, which are outside of this model.
pub mod Prelude
pub mod Reverse
pub mod Tags
pub mod Plugins
pub mod Builtins
pub mod Receiver
pub mod Statsd
pub mod Server
pub mod Procfs
pub mod Check
mod Tests
