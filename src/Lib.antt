-- ===== src/Lib.antt =====
-- The game server of Minnsun's Adventure (server/): its entity component system, the transfer of
-- entities between maps, and the game systems and packages that the model has reached so far.
--
-- Parts and files
--   Common: shared names, Boolean tests, lists, integers (Go's int as a wrapped 64-bit integer), Go
--     maps as tables (read and written) and as entry lists (ranged over).
--   Ecs.Entity: server/ecs/ecs.go, Entity, recycleEntityID, PopRecycledEntityID, NewEntity; also
--     AllocateEntityID of server/world/partition.go. The free list is shared by all registries, so it
--     is passed beside the registry's counter.
--   Ecs.Store: server/ecs/ecs.go, ComponentStore (Set, Get, Delete). Pages are lists of int32 bit
--     patterns, and the int32 arithmetic of the code is written out.
--   Ecs.Components, Ecs.Registry: the component records and RemoveEntity. The registry uses each
--     store as the map that Ecs.Store.Refine shows it to be.
--   World.Transfer: server/world/partition.go, processTransfer2PC, serializeEntity and
--     deserializeEntity. A map worker is its registry, its grid positions and its AOI radii.
--   Game.Trade: server/game/trade.go. A result of none stands for a panic on a nil session.
--   Game.Party: server/game/party.go and party_invite.go. The tick is an argument.
--   Peakgo.Timer: TickTimer of server/peakgo/timer/timer.go.
--   Peakgo.Fsm: server/peakgo/fsm/fsm.go. Hooks are pure guards, given as functions.
--   Game.MonsterFsm: server/game/ai_fsm.go, on top of Peakgo.Fsm.
--   Peakgo.RateLimit: server/peakgo/ratelimit/ratelimit.go. Calls run one at a time.
--   Peakgo.Breaker: server/peakgo/circuitbreaker/circuitbreaker.go. What an attempt and the append to
--     the log return, and when, are arguments.
--   Peakgo.Codec: server/peakgo/codec/codec.go. A buffer is its bytes, and a panic on a short one is none.
--   Peakgo.Netio: server/peakgo/netio/packet.go and BytesPool of server/peakgo/pool/pool.go. A
--     connection is the pieces that its reads return and the error after them.
--   Network.Router: server/network/router.go, the loop of HandleClient, on Peakgo.Netio and
--     Peakgo.RateLimit; of server/network/handlers.go, that handleQuit closes the connection. The
--     calls of DispatchPacket are its result; the ticks are an argument.
--   Peakgo.Anticheat: server/peakgo/anticheat/anticheat.go and server/peakgo/gmath/gmath.go. The
--     checks on floating-point ranges are left out.
--   Peakgo.Threat: server/peakgo/threat/threat.go. The heap is the array of 64 indices, and a panic is none.
--   Peakgo.Combat: server/peakgo/combat/combat.go, with the numbers that Intn draws as an argument
--     (Peakgo.Rng, server/peakgo/rng/rng.go).
--   Peakgo.Loot: server/peakgo/loot/loot.go and server/game/loot.go.
--   Peakgo.SkillData: server/peakgo/skilldata/skilldata.go.
--   Game.Decimal: the decimal printers of server/game/combat.go.
--   Game.State, Game.Items: server/game/item.go, item_usage.go, equipment.go, stat_engine.go, pickup.go and
--     ground_item.go, with IsInRange of server/peakgo/spatial/proximity.go.
--   Ecs.Accumulator: server/ecs/combat_accumulator.go, with its pointers into a heap, and flushCombatBuffer of
--     server/world/worker.go. The order of Go's loop over the map is an argument.
--   Ecs.Commands: server/ecs/commands.go.
--   Game.Progression: server/game/progression.go. The curve is an argument.
--   Game.Death: DeathSystem of server/game/combat.go, server/game/respawn.go and server/models/monster.go.
--   Game.Effects: server/game/effects_system.go. A loop over a store keeps the store's read lock, so that a
--     write to the same store inside it blocks (Locked of Game.State; also the decay in Game.Items).
--   Game.Attack: AttackSystem and DamageSystem of server/game/combat.go, on top of Peakgo.Combat, Peakgo.Loot,
--     Ecs.Accumulator and Game.Death.
--
-- How the parts interact: the game systems read and write the registry's tables and draw new IDs from
-- Ecs.Entity; the transfer moves components between two registries and releases the ID; the monsters'
-- machines and the AI components use Peakgo.Fsm and Peakgo.Timer.
--
-- Bounds: a dense array stays below 2^31 places, the range of the int32 cells; indices of entities
-- below 2^32; offers and bags below 2^62 pieces, so that two of them add up within an int64. Loops are
-- structural recursion, or run on fuel with a theorem that the fuel given is enough: down of the threat
-- tables on the number of entries and one, the chain of prerequisites on the number of
-- skills and one, the loop that reads packets on the number of frames and one, the loop over
-- levels on the experience and two, the loop of digits on the size of the buffer.
--
-- A registry's store is a table by full IDs. Go's sparse sets are that only while no two generations
-- of an index are in one store, which is a condition of Ecs.Store.Refine and of the transfer's frame.
--
-- Not modelled: mutexes (each operation is one step), but for the read lock that a loop over a store
-- keeps, notices, packets and logs, the goroutines and the tick loop, floats, WallTimer, the
-- database, and the client (client/). Components that are not reached yet: movement, the skill pipeline, monster AI, grids, areas of interest, path finding.
pub mod Common
pub mod Ecs
pub mod Game
pub mod Peakgo
pub mod World
pub mod Network
