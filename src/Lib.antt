-- ===== src/Lib.antt =====
-- Deepspace Outpost: a model of the shared core of client and server (NeuronCore), and of the server's
-- sessions, services and administration on it, with theorems.
--
-- The program is a multiplayer space game. A server simulates the world as entities with components
-- (NeuronCore/ECS.h), and sends each viewer a stream of snapshots of what it sees
-- (NeuronCore/Replication.h, SnapshotDelta.h), which a later snapshot supersedes; what must not be lost
-- goes through a reliable channel (NeuronCore/ReliableChannel.h), one for each reliable lane of an
-- endpoint (NeuronCore/Messages/MessageEndpoint.h). All packets are byte buffers written and read by
-- NeuronCore/DataWriter.h and DataReader.h, a message by the list of its fields
-- (NeuronCore/Messages/Serialize.h). The server knows its clients by a token and by the address they
-- speak from (GameLogic/ServerSessions.h), trades with those that are docked
-- (GameLogic/StationServices.h), writes them to a store behind the game loop
-- (NeuronServer/PersistenceService.cpp), and shows itself to its managers
-- (NeuronServer/AdminChannel.h). No part does input or output by itself: bytes go in and out.
--
-- Which file models what:
--   Wire      NeuronCore/DataWriter.h and DataReader.h. A buffer is the list of its bytes, a reader the
--             part behind its cursor with the sticky failure flag. WriteU16 is write_u16, and so on.
--             Reads are a state monad, with do blocks where the code reads field by field.
--   Framing   NeuronCore/Messages/Framing.h: PacketWriter is packet_writer and add, ReadPacket is
--             read_packet, its loop read_records.
--   Channel   NeuronCore/ReliableChannel.h: Send, WritePacket, ReadPacket and Receive are send,
--             write_packet, read_packet and receive, on the record Channel of the member variables.
--   Link      Two channels and a network between them, as a step relation: a datagram that was written
--             may come in at any time, any number of times, or never.
--   Endpoint  NeuronCore/Messages/MessageEndpoint.h: WriteDatagrams, OnDatagram, Receive.
--   Ecs       NeuronCore/ECS.h: Pool in Ecs/Pool.antt, Registry in Ecs/Registry.antt.
--             NeuronCore/OwnershipIndex.h in Ecs/Ownership.antt.
--   Snapshot  NeuronCore/Quantization.h, Replication.h, SnapshotDelta.h, SnapshotPacketizer.h and
--             SnapshotStream.h, in Quantize, World, Delta, Packetizer and Stream.
--   Bus       NeuronCore/Messages/MessageBus.h: Publish, Dispatch and the subscriptions.
--   Game      GameLogic/Economy.h in Market, GameLogic/ChatModeration.h in Chat.
--   Persist   NeuronServer/PersistenceStore.h in Rows and Store, PersistenceService.cpp in Service, each
--             function that holds the lock as one step.
--   Messages  NeuronCore/Messages/Serialize.h: a message is a list of fields, WriteField and ReadField are
--             functions on the description of a field. Defs: the messages of NeuronCore/Messages/Defs and
--             NeuronCore/StationProtocol.h with their traits, in the order of their ids; Catalog:
--             NeuronCore/Messages/Registry.h.
--   Server    GameLogic/ServerSessions.h: the two maps in Table, the budget of unauthenticated datagrams
--             in Limit, OnInput, OnReliable and Authenticate in Sessions, and in its children OnHello and
--             SpawnLoaded (Hello), Reap (Reap), the names (Name), the roster (Roster) and the galaxy
--             manifest (Galaxy). NeuronServer/AdminChannel.h in Admin, its handshake in Admin/Hello.
--   Station   GameLogic/StationServices.h: Trade, Fit (equipment and fuel), Place (where the stations are)
--             and Request (ProcessStationRequest).
--   Base      Lists, maps and numbers that these share.
--
-- Conventions. Numbers are natural, and a machine integer has its wrap-around written out where the
-- code may reach it. The ints of Station are their 32 bits, wrapped in a trade; its other
-- operations lower them behind a test, or raise missiles and hold by purchases. Signed integers are
-- those of Base/Int.antt, cast to and from their bits where the code casts; the differences of
-- positions are not wrapped, since the galaxy is far smaller than 64 bits reach. A member function
-- is a function from the state to its result and the next state; an answer false that leaves the
-- output alone is none. A std::map is a list of entries in the order of its keys, a hash map an
-- association list, a hash set a list. Floats are a parameter (Snapshot/Quantize.antt): a record of
-- the operations that the code uses, about which nothing is assumed. Handlers of the bus that
-- subscribe while they run, which the code does not survive in every case, are not covered by the
-- theorem on what a dispatch delivers.
--
-- Bounds and fuel. The loop that flushes buffered messages gets as many rounds as there are
-- buffered messages, and each round takes one out; the loop over the records of a packet gets as
-- many rounds as the packet has bytes, and each round takes at least four; the loop over the parts
-- of a snapshot gets as many rounds as there are entities. A dispatch of the bus has 16
-- generations, as in the code. The loops over the received messages of a manager get as many rounds
-- as messages are ready; the loop over the galaxy chunks gets as many rounds as entries are left,
-- and each round takes at least one. A number is written with as many digits as the index of an
-- entity can have, and a name is tried with the suffixes -2 to -999, as in the code. All other
-- loops are structural. Sequence numbers have 32 bits, and the theorems on two peers ask for fewer
-- messages than would make them wrap.
--
-- Not modelled: the snapshot encoder inside a session (it is modelled by itself in Snapshot), the
-- arithmetic of floats, which messages carry as their bits, the components of a new ship and of a
-- launched one, which are parameters, DockAtNameChosenSystem, the sort of the snapshot budget, the
-- writer thread, and everything but the files named above: sockets, database, rendering, the
-- simulation of flight and combat.
pub mod Base
pub mod Wire
pub mod Framing
pub mod Channel
pub mod Link
pub mod Endpoint
pub mod Ecs
pub mod Snapshot
pub mod Bus
pub mod Game
pub mod Messages
pub mod Persist
pub mod Server
pub mod Station
