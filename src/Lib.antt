-- ===== src/Lib.antt =====
-- A model of the game server's core: the connection that carries packets, the scheduling of actors and
-- their futures, the sections of the world with what is in them, the sessions of the world server and of
-- the lobby, and the layers over the database, HTTP and JSON.
--
-- A socket's bytes come into a Connection (Source/Core/Network/Connection.cpp), which cuts them into
-- packets and hands these to its Protocol; a session takes them from there and works in a Section of the
-- world, which sends messages back through the connection of each session in it. Connections, sessions
-- and sections are actors: a Post puts a message into the actor's Channel, and a worker thread runs it.
-- A player logs in at the lobby (Source/Server/Session/LobbySession.cpp), which asks the authenticator
-- about the token over HTTP, and then at a world server (WorldSession.cpp), which asks the lobby over gRPC
-- (LobbyGrpcService.cpp) and takes the session into a section. Both read the database through Source/Core/Sql.
-- A section tells its SpawnSystem and CollisionSystem of each object that comes and goes, and ticks them.
--
-- Base, Base/*: the names of the library that the files share, the Boolean tests of numbers, the lemmas
--   on lists, and tables from numbers to values.
-- Network/Packet: Packet.h, Internal.h, Protocol.cpp and ProtocolController.h of Source/Core/Network.
-- Network/Receive: OnReceived, ReceiveImpl and OnDataReceived of Connection.cpp, and PendingStream. A
--   pass of the loop of ReceiveImpl is `pass`, with the function's branches as functions of their own.
-- Network/Stream: Buffer.h, OutputStream.cpp and StreamWriter.cpp.
-- Network/Send: Send, FlushSend, SendImpl and OnSendCompleted of Connection.cpp, and the counter of
--   Source/Core/Container/MPSC.h.
-- System/Dispatch: Push and TryPop of Source/Core/System/Channel.cpp, the loop of run_for in
--   ExecutionContext.cpp, and the channels of Dispatcher.cpp. The steps of the threads are a relation, in
--   which Push of Source/Core/Container/MPSC.h is two: the exchange and the store.
-- System/Delegate: Source/Core/System/Delegate.h, its callbacks on a state that is a parameter.
-- System/Timer: Source/Core/System/TimerContext.cpp.
-- System/Future: FutureState.h, Future.h, FutureController.hpp and Thenable.h, .hpp and .cpp of
--   Source/Core/System, and AsyncMessage of Actor.hpp. A future's state holds the next stage's, as its
--   callback does; Schedules interleaves the steps of the two threads that share a state.
-- Container/LruCache: Source/Core/Container/LruCache.h; Abstract is what the cache promises, and Runs are
--   calls in any order.
-- Sql/Arrays: SqlTypes.cpp of Source/Core/Sql. Sql/Params, Sql/Entries, Sql/Binding: StmtImpl.cpp, Param.h
--   and Column.h, and the vectors of Stmt.h with the addresses of their storage. Sql/Stmt: Stmt.cpp, and
--   TimestampEx::Update. Sql/Pool: Conn.cpp, Pool.cpp and Agent.cpp.
-- Http: HttpRequest, HttpResponse and HttpEnums of Source/Core/Http. Json: Source/Core/Json.
-- World/PlayerRepository: PlayerRepositoryImpl of Source/Server/World/PlayerRepository.cpp.
-- World/Section: Source/Server/Section/Section.cpp; its child Ticking has OnTick, SpawnMany, ForEach,
--   OnCreated and OnDestroyed. What it calls outside of itself is a list of events, such as
--   `object_added`, on which both systems run OnGameObjectAdded.
-- World/SpawnSystem: Source/Server/Section/SpawnSystem.cpp; Client is `set_client` of
--   Source/Server/GameObject/Pc.cpp.
-- World/CollisionSystem: Source/Server/Section/CollisionSystem.cpp and
--   Source/Server/GameFramework/CollisionComponent.cpp.
-- World/SectionRepository: Source/Server/Section/SectionRepository.cpp, with what it posts as a list.
-- World/PlayerTick: Source/Server/World/PlayerTick.cpp, the sessions that begin and end to tick.
-- World/Ids: Source/Server/Model/UniqueId.cpp, and Section::Id of Source/Server/Section/Section.h.
-- World/Session: Source/Server/Session/WorldSession.cpp: the session and its queue of actions; Handlers,
--   the requests of its player; Spawning, those that run in the section, and HitObject of
--   Source/Server/GameObject/Projectile.cpp; Login, how it begins.
-- World/LobbyGrpc: the lobby's side of a login, LobbyGrpcService.cpp, with the call of it from
--   LobbyGrpcClient.cpp, both in Source/Server/InterServer, and what Account.cpp and Character.cpp of
--   Source/Server/Model read for it; Calls are the calls of one method and their completions.
-- Lobby: Source/Server/Session/LobbySession.cpp; Lobby/Models: Account.cpp, Character.cpp and Server.cpp
--   of Source/Server/Model; Lobby/Authenticator: Source/Server/Authenticator/Authenticator.cpp.
--
-- State is passed explicitly, as the record of each component. Handlers of one actor run one at a time,
-- as the code asserts, so that their models are functions; only System/Dispatch and System/Future have
-- interleavings. A `size_t` that may wrap is reduced modulo 2^64. Bytes are numbers below 256, lists of
-- them are memory, and a read out of range is a result of its own, as is the end of the process, which a
-- text longer than its array brings about. Loops run on fuel where the source's loop is not structural:
-- for bytes, one more than their number, of which Network/Receive/Stall and Network/Stream/Writing show
-- when it is enough; for a queue of timers, any number above its length (System/Timer/Wheel); for a loop
-- over rows, any number above theirs (Sql/Stmt/Rows).
--
-- What a handler posts to another actor is a value of its own: a list of calls or posts in their order, or
-- a second function for the posted part. The orders in which these can run are then explicit: see
-- World/SectionRepository/Splits, World/Session/Visits and World/Session/Spawning.
--
-- The serializer of packets, the pool of send buffers, the functions that timers and futures execute, the
-- database's driver and its stored procedures, cURL, the library that parses JSON, the web service,
-- whether an answer arrives over gRPC, what `new` leaves in memory, what becomes of a value that is moved
-- from, and the clock are parameters; so is all floating point arithmetic, of which the model has the
-- tests that branches depend on. An id of UniqueId is a parameter where only its being new matters.
-- Numbers of players, maps, spawners and servers are not negative here. Assertions and log lines, times
-- and poses in replies, and the copying of fields into messages are left out.
--
-- Not modelled: boost.asio and the socket, the algorithms of the lock-free queues, which are copies of
-- other projects' code (their operations are atomic here, but for Push of a channel's queue), the
-- generated protocol buffers, the database driver, cURL and gRPC themselves, floating point arithmetic,
-- logging and the threads of the platform, and so far the life cycle of connections before and after
-- their transfers, PostMessage and the type-erased functions of Source/Core/System, periodic timers, and
-- the arithmetic of dates.
mod Base
pub mod Container
pub mod Http
pub mod Json
pub mod Lobby
pub mod Network
pub mod Sql
pub mod System
pub mod World
