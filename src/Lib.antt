-- ===== src/Lib.antt =====
-- A model of etsimec, a partial implementation of the ETSI MEC APIs in C++, and the theorems that make
-- its parts correct. A user equipment (UE) asks a proxy for a context of an application, and the proxy
-- answers with the edge router that serves it. An operator changes the table of edge routers, and the
-- clients whose router changes are notified.
--
-- The parts, their sources and their files:
--   AppCharcs, AppInfo, AppContext: EtsiMec/appcharcs.cpp, appinfo.cpp and appcontext.cpp, the JSON
--     structures that client and proxy exchange. A constructor or accessor is a function on JSON values.
--   LcmProxy: EtsiMec/ueapplcmproxy.cpp, the applications that are offered (addApp, delApp, exists) and
--     the HTTP handlers over the virtual functions, which are the record Backend;
--     LcmProxy.Routes has the routes that are registered (and EtsiMec/etsimecserver.h); LcmProxy.Trivial
--     is EtsiMec/trivialueapplcmproxy.h.
--   StaticProxy: EtsiMec/staticueapplcmproxy.cpp, the proxy with a table of edge routers. Routes has its
--     three maps. associate_address is associateAddress, create_context is createContext, and so on.
--     Routing and Reroute compare its loops with the recomputation of every context; Invariant, Index
--     and Methods are about the consistency of the maps; Handlers and Creation join them with the
--     handlers of LcmProxy, Duplicate is about a UE application that has a context already, and Refusal
--     about a request that is refused.
--   Notify: notifyClients of the same file, and EtsiMec/notificationevent.cpp. Notify.Aborts is about a
--     client without a callback.
--   System: the calls of many threads as steps, with the notifications of earlier calls on their way.
--   FileProxy: EtsiMec/staticfileueapplcmproxy.cpp, the table read from a file.
--   Grpc: EtsiMec/grpcueapplcmproxy.cpp, the remote interface of the table; Grpc.Client:
--     EtsiMec/grpcueapplcmproxyclient.cpp.
--   Console: Executables/ueapplcmproxyclientmain.cpp, the commands typed by an operator.
--   Operator: these commands over the gRPC client, the service and the proxy, as one. Lambdas, Offered
--     and Listed follow the lambda functions from a script to the list that a client gets.
--   Startup: EtsiMec/etsimecoptions.cpp and the three programs, from their options to their exit status.
--   ContextManager: EtsiMec/appcontextmanager.cpp, the contexts that a client has open.
--   Joint: a proxy and a manager together, over a network that is a parameter. The manager opens
--     contexts at the proxy (Opening), the notifications of a call are delivered to it (Deliver, Turns),
--     other clients use the proxy meanwhile (Others), and Session is what the two go through. There the
--     callback of another client is not empty, since notifyClients aborts on one that is, and does not
--     reach the manager.
--     Overtaking has the notifications of two changes in the other order. Closing has the destructor of
--     the manager against the proxy, Owners the contexts that the proxy has for it. Session.Loaded
--     starts with a table that is read from a file. In Fifo, calls come while notifications are on their
--     way, which arrive in their order. In Early, one arrives before the reply to the creation.
--   Client: EtsiMec/applistclient.cpp and EtsiMec/utils.cpp; Client.Mattermost: the chat server of
--     Executables/etsimeccli.cpp; Client.Invalid is about an API root that is not a URI.
--   OpenWhisk: OpenWhisk/, the client of a serverless platform: its actions, the lister, the invoker.
--   Prelude and Rest carry the rest: text, outcomes of calls, maps, decimals, and the interface of the
--   REST library. Tests runs the model on small inputs.
--
-- How the program is modelled:
--   - A string is the list of its bytes. A call returns, throws a text, or fails an assert (Outcome);
--     which texts are those of a std::runtime_error is a parameter where a handler tells them apart;
--     asserts are those of a build without NDEBUG. Where the service behind gRPC aborts, its client, which
--     is another process, throws on the status of the call; what it throws is a parameter.
--   - A method takes the state and returns it with its result. A call of the proxy that throws leaves its
--     maps as they were, which the code does too, since it throws before it changes them.
--   - std::unordered_map is an association list in its order of iteration, which the standard leaves
--     open; the theorems hold for whatever order the list has. std::map is one ordered by key.
--   - An iterator kept in theApplicationsByUeAppId is modelled by the key of its entry.
--   - Each method is one step under its mutex. The notifications are sent after it, a step for each. In
--     Joint.Session the notifications of a call are all sent before the next call, and in Joint.Fifo they
--     are sent in the order in which they were made. There a creation and its reply to the manager are
--     one step, which Joint.Early takes apart.
--   - size_t is a natural number where it counts the entries of a map, which do not reach 2^64. The
--     counter of TrivialUeAppLcmProxy wraps at 2^64, and the reply to numContexts at 2^32.
--   - Loops are recursion on the list that they visit, so no fuel is needed.
--
-- Parameters, for code that is not in the repository: web::json::value of the C++ REST SDK and the
-- helpers of the submodule rest are the record Rest, of which Rest.Laws.IsLawful states the documented
-- behaviour and Rest.Sample is an implementation that has it. web::uri::validate and decode,
-- support::split, support::Uuid, what Boost reads of a command line, what a server answers to a request,
-- what a file holds, and the gRPC stub are arguments.
--
-- Not modelled: the reading of the command line, the running servers, which route the REST library takes
-- for a request, and logging, which are code of Boost, gRPC, the library rest and glog; and
-- third_party/, a copy of another project's library. Nor is the std::less order of a map under a
-- locale, or the failure of an allocation.
pub mod Prelude
pub mod Rest
pub mod AppCharcs
pub mod AppInfo
pub mod AppContext
pub mod LcmProxy
pub mod StaticProxy
pub mod Notify
pub mod System
pub mod Tests
pub mod OpenWhisk
pub mod ContextManager
pub mod Joint
pub mod Grpc
pub mod FileProxy
pub mod Client
pub mod Console
pub mod Operator
pub mod Startup
