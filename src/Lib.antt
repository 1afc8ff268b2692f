-- ===== src/Lib.antt =====
-- The browser plugin for the Bitcoin Trezor: a FireBreath plugin through which a page lists the
-- Trezor devices of the machine and calls them. Its parts are the plugin object (plugin.cpp,
-- plugin.h), which checks the page's site and the devices against a configuration, and keeps a
-- communicator for each device; a communicator's thread, whose executor runs the jobs of a queue;
-- the device layer (devices.cpp, devices.h), where a channel sends and reads messages, framed by
-- "##", a type and a length, over a buffer that splits bytes into HID reports of 64 bytes; and the
-- message layer (messages.cpp), which makes protobuf messages of the page's variants and back.
--
-- Exceptions models exceptions.h, and how a call ends: `Outcome` tells a return from an exception,
-- from undefined behaviour (`fault`), and from a wait for ever (`blocked`). Libraries holds what is
-- not the repository's own code as records of operations: protobuf and its wire format,
-- FireBreath's variants, Boost, OpenSSL, trezor-crypto's BIP32.
-- Utils has the codecs of utils.cpp, Config the messages of config.pb.h, Config.Merge and
-- Config.Wire what config.pb.cc does with them: a parser there is a machine, whose states are the
-- labels that the generated code jumps to, and two steps for each byte are fuel enough, since a tag
-- has a byte at least. Messages.Names,
-- Messages.Serialize and Messages.Parse are messages.cpp. Devices.State is the buffer and the
-- device as hidapi shows it: a list of the answers of hid_read_timeout, and a log of the reports
-- sent; Devices.Buffer is HIDBuffer, Devices.Channel is DeviceChannel. Plugin.Site, Plugin.Configure,
-- Plugin.Enumerate and Plugin.Communicators are the methods of BitcoinTrezorPlugin, Plugin.Executor
-- is DeviceJobExecutor, and Plugin.Worker the thread of a communicator, as a relation between the
-- states of its queue and its executor. Plugin.Lifecycle has the constructors and destructors of
-- executors, communicators and the plugin object, with BitcoinTrezorPlugin::shutdown, and
-- Plugin.Factory is Factory.cpp. Utils.Signature is the signature check, Utils.Hex the hexadecimal
-- numbers of utils.h, Messages.HdNode the BIP32 nodes, Api the methods of PluginAPI (apis.cpp), and
-- Api.Attributes what a page reads of its objects. Messages.HdNode.Held and its siblings, Api.Derive,
-- Api.Written, Plugin.Executor.Exchange, Plugin.Executor.Late and Plugin.Worker.Conversation are
-- about several parts at once: a node and its map, a configuration from its bytes to the plugin, a
-- call from the page's map to its answer, a call that times out, a queue of calls.
-- Messages.Copy is a reference for message_from_map behind message_to_map. World puts the parts
-- together: a relation of the states of the whole plugin, whose steps are the page's calls and the
-- rounds of the threads, in any order; its children are about the threads, the devices that a page
-- comes to, the rounds of a thread, a shutdown, and the queues that Api works on.
--
-- A function of the source has its name in the model, but for DeviceChannel::read, write, open and
-- close, which are read_message, write_message, open_channel and close_channel, the methods of
-- PluginAPI that share a name, api_configure, api_devices, api_call and api_close, and the three
-- forms of DeviceJobExecutor::operator(), which are run_job.
--
-- Bytes are natural numbers; the fields of the header are taken modulo the width of their type, and
-- an int that is compared with a size_t is converted as C does it. A loop over a list of the device's
-- answers recurs on it. The loop that looks for "#" runs on fuel, one more than the bytes of the
-- stream, since each round takes a byte; the loop that sends reports has the number of bytes as its
-- fuel; a number of 32 bits has at most 8 hexadecimal digits. message_to_map and message_from_map
-- run on fuel for the depth to which messages stand in one another, and say so when it ends.
--
-- hidapi_mutex is a flag that is set when it was left locked for good: threads that wait for each
-- other's calls of hidapi are not modelled, since each call holds the mutex alone, and a job is one
-- step of World. Logging is left out, but for what the factory sets. Not modelled are the copies of
-- HIDAPI (X11/hid.c, Mac/hid.c, Win/hid.c, hidapi.h), the unknown fields of the messages of
-- config.pb.cc and the registration of their descriptors, trezor-crypto, whose node functions are
-- arguments, and the constants of the build in gen/global but for the version that a page reads.
-- PluginAPI::call and close cast what a page passes to a DeviceAPI unchecked: for another object that
-- is undefined, and in World the descriptor that they read is any. A call of protobuf on a field that
-- it is not for is undefined, too, and a `fault`.
pub mod Prelude
pub mod Exceptions
pub mod Libraries
pub mod Utils
pub mod Config
pub mod Messages
pub mod Devices
pub mod Plugin
pub mod Api
pub mod World
pub mod Tests
