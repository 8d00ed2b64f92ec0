-- ===== src/Lib.antt =====
-- The control panel of YCFRP: it keeps frp instances and tunnels, runs the servers and clients of an
-- embedded frp kernel, and reports their state.
--
-- The parts and how they interact. The stores (internal/store) keep the panel's records in memory and in
-- JSON files. The settings (internal/config) are one document that is normalized before use. The engine
-- (internal/frp) is given the desired instances and tunnels, brings the running instances to them, and
-- merges what the kernel's dashboards and clients report into the tunnels' states. The login (internal/api)
-- guards the requests, and the notifier (internal/notify) chooses what is told and when. The application
-- (internal/app) saves, switches and deletes instances in the stores, brings older data up to date, and
-- watches tunnels and the log. Every part writes into the log (internal/logx), which also takes the
-- kernel's output. The QQ bot (internal/qqbot) asks the platform for access tokens and keeps them. The
-- updater (internal/updater) decides which version is newer, which file of a package is the program
-- and whether it may be installed.
--
-- Files and code:
--   Base.antt            shared helpers: lists, maps, order of texts, Go's texts and numbers
--   Store/Collection     internal/store/store.go, Collection: new_collection is NewCollection, list, get,
--                        put, delete, replace and flush are the methods
--   Store/Series         internal/store/store.go, SeriesStore
--   Config               internal/config/config.go, the records FRPSConfig and FRPCConfig; Config/Channels
--                        and Config/Document the other records, Config/Normalize is Normalize
--   Frp/Instance         internal/frp/instance.go, and sameInstanceConfig of engine.go
--   Frp/StartError       internal/frp/instance.go, DescribeStartError and what it calls
--   Frp/Tunnel           internal/frp/model.go
--   Frp/Kernel           the frp kernel as the panel calls it, a parameter
--   Frp/Build            internal/frp/config.go, the configurations of servers and clients
--   Frp/Convert          internal/frp/config.go TunnelToProxy, internal/frp/parse.go proxyToTunnel
--   Frp/Engine           internal/frp/engine.go, the state; Engine/Start starts one instance and updates
--                        tunnels, Engine/Apply is Apply, Engine/Queries, Engine/Statuses and
--                        Engine/Stop the rest
--   Frp/Status           internal/frp/engine.go, mergeStats and what it calls; Status/Snapshot is Snapshot
--   Frp/Export           internal/frp/parse.go, ExportClientConfig, with a reader of quoted texts in Quote
--   Notify               internal/notify/notify.go, ShouldNotifyKeyword and AllowRate
--   Api/Auth             internal/api/auth.go, the tokens of a login; Api/Instances is the view of an instance
--                        (instances.go)
--   App                  internal/app, the state; App/Instances is SaveInstance, ToggleInstance, DeleteInstance and
--                        their checks, App/Upgrade what is made of older data (instances.go); App/Settings the
--                        level of the log and the merged status, App/Watch is watchLoop and consumeLogs (app.go)
--   Log                  internal/logx/logx.go, Logger; Log/Calls is Log, LogRaw and append, Log/Archive
--                        writeFile, Log/Capture is Capture and Write, Log/Query is Query, Log/Analysis is Analyze,
--                        Log/Export is Export, Log/Lines the hints and the levels
--   Log/Translate        internal/logx/translate.go; Log/Pattern is what it uses of regexp, Log/Rules and Log/Table
--                        the rules
--   Qq/Tokens            internal/qqbot/token.go
--   Updater              internal/updater; Updater/Versions is updater.go, Updater/Extract
--                        extract.go, Updater/Binary validate.go
--   Examples             runs at small inputs
--
-- How code is modelled. A method takes the state and returns it; what the clock, the file system, the
-- kernel or the JSON library answers is an argument, and what the code relies on there is a named law of
-- the record that stands for it (Entity, Codec, Kernel, Crypto). The engine's effects on the kernel are a
-- trace of actions. A method is one step. Where the code holds its lock throughout, that is what the lock
-- makes of it; Put, Delete, Replace and flush, which write the file after the lock, append, which sends to the
-- listeners after it, Apply and ApplyTunnels stand for calls that no other call overlaps. What overlapping
-- flushes do to their common temporary file is run_calls. A map is an association list in the order of
-- Go's range. Go's int is an integer without a bound where the panel only compares, adds and prints
-- them. The int64 of a version and of the notifications' quiet period wraps. Two definitions run on fuel:
-- the digits of a number, which are at most as many as its value plus one, and the loop of Capture over its
-- buffer, which has at most as many lines as bytes.
-- `captured_lines` hands it the length of the buffer.
--
-- Not modelled: the kernel itself (third_party/frp), the HTTP access to the dashboards, the traffic figure
-- of Snapshot, the visitors that the kernel may have, and the rest of the program: the web server beyond
-- its login and its views of instances (its export of a client's configuration too, which shows the token), the delivery of notifications, the QQ gateway, the downloads and the helper of the updater,
-- the monitor, the daemon and the commands. Of the application, UpdateInstance and the calls that hand
-- settings on are left out. A runtime's later failure, which the kernel reports in its own goroutine, is
-- only logged by the code.
mod Base
pub mod Store
pub mod Config
pub mod Log
pub mod Frp
pub mod App
pub mod Notify
pub mod Api
pub mod Updater
pub mod Qq
mod Examples
