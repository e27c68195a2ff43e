-- ===== src/Lib.antt =====
-- The verification library of IPOP TinCan, the program that keeps peer-to-peer links between the
-- nodes of a virtual network. (Paths are from the repository's root.)
--
-- The program. main picks an address, connects its objects and starts the threads. A packet of the
-- local tap device enters by DoPacketSend into a global queue, and the packet handling thread sends
-- it over the link to its destination, or to the local controller if there is none. A packet of a
-- link enters by OnReadPacket and waits in a second queue for the tap device. The link setup thread
-- makes and destroys links (CreateTransport, DestroyTransport) as the controller asks by UDP, and
-- nodes tell one another their ICE candidates over XMPP: the connection manager gives messages to
-- the signal sender, which has the controller as service 0 and the XMPP network as service 1.
--
-- Which file models which part:
--   WQueue, WQueue/Threads        src/wqueue.h: each operation as one step of a list; and each
--                                 pthread call as a step of any number of threads
--   Wire                          src/tincan_utils.h, src/peersignalsender.h: header and constants
--   Manager, Manager/Types        src/tincanconnectionmanager.h: state, data, constants; `init` is
--                                 the constructor
--   Manager/Setup                 Setup, AddIPMapping
--   Manager/Links                 SetRelay, SetupTransport, CreateTransport, DestroyTransport,
--                                 InsertTransportMap_w, DeleteTransportMap_w
--   Manager/Queues                DoPacketSend, DoPacketRecv, SendToTap and the global queues
--   Manager/Packets               HandlePacket, OnReadPacket, HandleQueueSignal_w, OnMessage, is_icc
--   Manager/Signals               OnRequestSignaling, OnRWChangeState, HandleConnectionSignal, HandlePeer
--   Manager/Candidates            OnCandidatesReady, OnCandidatesAllocationDone, CreateConnections
--   Manager/Threads               the link setup thread and the packet handling thread, one access of
--                                 the tables at a time
--   Manager/Report                OnNetworksChanged, GetChannelStats_w, StateToJson, GetState
--   Xmpp                          src/xmppnetwork.h and .cc: XmppNetwork, TinCanTask, get_key
--   Socket                        src/tincanxmppsocket.h and .cc: TinCanXmppSocket
--   Controller                    src/controlleraccess.h and .cc: the state, init_map, SendTo,
--                                 SendToPeer, and the message of a datagram
--   Controller/Requests           HandlePacket, one function for each request
--   Controller/State              SendState
--   Start                         src/tincan.cc: parse_args, get_free_network_ip
--   Program                       main of src/tincan.cc, PeerSignalSender of
--                                 src/tincanconnectionmanager.h, and one step for each event that
--                                 reaches a running node
--   Program/Launch                main with its calls in order, the start of the threads included,
--                                 and the constructor of ControllerAccess
--   LogTime                       src/tincan_utils.cc: CurrentTime, the head of a line of the log
--   Prelude, Map, Table,          the C++ library as far as the program uses it: std::map,
--   StringSet, Text               std::set, std::string, streams, atoi
--   JsonObject                    the JSON objects that the program builds
--   Tests                         concrete inputs for the theorems
--
-- How state and operations correspond. A method takes the state and returns the new state, its
-- result, and the calls that it makes on libjingle and ipop-tap, in order (`Call`, `XmppCall`,
-- `SocketCall`, `Effect`). The short table of the packet handling thread is changed by `Invoke`,
-- which waits, so a link is made or destroyed in one step. Pointers are addresses; `none` as the
-- result of a handler is a call through a null pointer, or an exception or a thread that waits where
-- the comment says so. Bytes are numbers, and an int that the code only passes on is its bit
-- pattern. A history of the program is a sequence of events in any order, each handled to its end
-- before the next, as the link setup thread and the packet handling thread handle theirs. What
-- threads do at the same time is modelled for wqueue, and for the tables of the connection manager in
-- Manager/Threads, where a thread that waits in `Invoke` runs nothing else.
--
-- Parameters. libjingle (talk_base, cricket, buzz) and ipop-tap are not in the repository. The
-- functions whose results the code uses are the fields of `Libjingle`, `Net`, `Jids`, `Reporter` and
-- `Kernel`, and the interfaces that getifaddrs lists are given as `Interface`; what is relied on of
-- talk_base::split is `IsSplit`, and of Send that it takes no more bytes than it is offered. A
-- ByteBuffer is the list of the bytes that wait in it. The
-- JSON library is the functions of `Json` and the parser and printer in `Env`, which answer `none`
-- where the library raises an exception. A new transport's address is given with the call, and is
-- assumed to be that of no live transport; the signals of a transport come while it lives.
--
-- Fuel and bounds. The loop of CreateConnections runs on one round for each character of its text
-- and one more, enough since each round but the last takes a character. The write loop of the socket
-- has one round for each byte of its buffer and one more, enough since each round but the last takes
-- a byte. `decimal` takes as many rounds as its number and one more. Counters of the XMPP timer are
-- unbounded numbers: the int would overflow after 68 years.
--
-- Not modelled: what libjingle and ipop-tap do in a thread or in the SSL library; logging, but for the
-- head of a line; the assertions, which say on which thread a function runs; the branches for Windows.
pub mod Prelude
pub mod Map
pub mod Text
pub mod StringSet
pub mod Table
pub mod JsonObject
pub mod Wire
pub mod WQueue
pub mod Manager
pub mod Xmpp
pub mod Socket
pub mod LogTime
pub mod Controller
pub mod Start
pub mod Program
pub mod Tests
