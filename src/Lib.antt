-- ===== src/Lib.antt =====
-- PackageKit client for Dart: a native library that talks to packagekitd over D-Bus, and a Dart
-- package that drives it through FFI.
--
-- A transaction goes through these parts. The Dart client (lib/src/packagekit_client.dart) opens a
-- receive port and asks the C functions (native/src/pk_bridge.cpp) for a transaction, by way of
-- the bindings (lib/src/ffi/bindings.dart). The manager (native/src/pk_manager.cpp) has the daemon
-- create one and makes a transaction bridge (native/src/pk_transaction.cpp) that has the port's
-- number. The bridge calls the daemon's methods. Its signal handlers encode what the daemon
-- reports (native/include/glaze_meta.h, native/include/pk_types.h) and post it to the port, each
-- message with a discriminator byte in front. In Dart, the dispatcher
-- (lib/src/internal/dispatcher.dart) decodes a message (lib/src/ffi/codec.dart) and adds the value
-- to the stream of its type, completes the result on Finished, and closes the streams on the
-- sentinel.
--
-- The modules follow these parts:
-- - Base: shared names, Boolean tests, lists, bytes of numbers, texts, heaps.
-- - Glaze: native/include/glaze_meta.h. A std::vector or a std::string is a list of bytes;
--   decode is none where it would read past the end. Interface is the namespace as the posting
--   code uses it; Encode describes what is appended, RoundTrip and Prefix compare the decoder
--   with the encoder.
-- - PkTypes: native/include/pk_types.h. A record for each struct, and its field list.
-- - Bus: sdbus-c++ and Dart_PostCObject_DL, which are not in the repository. SystemBus is a
--   parameter: what a call is answered may depend on all the calls before it. A World holds the
--   messages posted, the calls made, what the destructors did, and the live objects. An Outcome
--   is a result, an sdbus::Error, another exception, or undefined behaviour. Bus.Signals are the
--   signals that come in, with the types of their arguments, and how sdbus-c++ finds the handler
--   of one; what it reads of the arguments is a parameter.
-- - PkTransaction: post, postFinished and postError; Methods and Signals are the class's methods
--   and handlers, Interface and Registration the class as its users see it: the methods that the
--   C functions call, and the constructor's registrations of the handlers. Delivery describes
--   the signals of D-Bus, EventLoop is the environment's: sdbus-c++'s loop, which delivers them
--   to bridges that are there. Payloads describes what a signal has to post, Posts and
--   Instantiations compare the handlers with it.
-- - PkManager: the manager's construction, properties, transactions and signals; Interface has
--   its members and registrations, EventLoop is the environment's loop that delivers the
--   daemon's signals, Laws says what it posts.
-- - PkBridge: handles, PK_TRY and PK_TX_TRY; Entries has the functions that call a transaction's
--   method. Requests describes the call that each has to make, Calls compares them; Exports is
--   the record of all the functions of native/include/pk_bridge.h, which the Dart bindings call;
--   Handles is about the creation of transactions, Containment and Counts about exceptions. The
--   count of an array is a C int, which may be negative.
-- - Dart.Core, Dart.Utf8: what the Dart code uses of the language.
-- - Dart.Enums, Dart.Package, Dart.Records: lib/src/enums.dart, package.dart, details.dart,
--   repo.dart, ffi/types.dart.
-- - Dart.Reader, Dart.Codec: lib/src/ffi/codec.dart. A Uint8List is a view of a buffer, since
--   the reader's checks are on the view and its reads on the buffer.
-- - Dart.Dispatcher, Dart.ManagerEvents: lib/src/internal/dispatcher.dart. A stream is the list
--   of what was added to it, with a closed flag; a microtask that closes the streams is a count,
--   which is emptied after each message.
-- - Dart.Bindings, Dart.Client, Dart.Plan: lib/src/ffi/bindings.dart, packagekit_client.dart,
--   transaction.dart. Plan.Printing has the label of a progress and the plan's text.
--   Bindings.Memory is the memory of the string arrays that the bindings allocate and free;
--   Filling and Arrays are about it. Elsewhere an array is the list of the buffers that it
--   points to. A transaction keeps its handle, whether its port is open, and its dispatcher.
--   Client.Methods are the methods, Queries their requests; Initialization is about the native
--   library's API, Waiting about the wait for the properties, Lifecycle has the steps that
--   native/include/pk_transaction.h lists and what they keep, and Protocol shows that the
--   methods take them; Strings is about the strings handed over; Starting, Unhinted, Safety,
--   Sessions, Ownership, Lifetime, Cancelling and Collecting are about what becomes of a
--   transaction, Collector is the collection of a plan as it waits for the stream and the
--   result, and Following is about it while the messages come in. Events is about the daemon's
--   events.
-- - Runner: example/packagekit_catalog/linux/runner, the Linux runner of the example. A Desktop
--   is what GTK answers, and an Application has the calls made of GTK. MyApplication has the
--   functions; Window, Launch and Disposal are about the window, the command line and the
--   arguments' memory.
-- - Examples: concrete inputs.
--
-- Integers of w bits are numbers whose encoding keeps w bits; what a std::string's length loses
-- beyond 32 bits is in the model. uint64 is signed in Dart. All loops are on lists or on a number
-- that the message gives, so there is no fuel. Handles are addresses in a store: a null or deleted
-- handle, and a bridge whose manager was deleted, are undefined behaviour.
--
-- Not modelled: sdbus-c++, the Dart SDK's files under native/ (dart_api_dl.c and its headers):
-- Dart_InitializeApiDL is a parameter of pk_bridge_init, and Dart_PostCObject_DL the recording of
-- a message; the thread of the event loop, whose signals are taken in any given order; the library
-- loader, build files, the printed forms of exceptions and sizes. The time limit of connect is an
-- occurrence among the messages.
pub mod Base
pub mod Glaze
pub mod PkTypes
pub mod Bus
pub mod PkTransaction
pub mod PkManager
pub mod PkBridge
pub mod Dart
pub mod Runner
pub mod Examples
