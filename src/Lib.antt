-- ===== src/Lib.antt =====
-- The server of a two-player auto-battler: a verification library for the game logic under
-- backend/src.
--
-- A match is a sequence of rounds. In the phase `shop_place` the players buy, sell and fuse units
-- and put them on boards of nine slots; in `battle` the server plays the whole battle at once and
-- sends its events; in `resolved` the losers have paid HP and the players get gold for the next
-- round. Redis holds the match in play, and scripts that it runs in one step decide between
-- requests that race.
--
-- The modules:
--   Base            lists, options and numbers that the others share.
--   Game            the battle. Game/Types is backend/src/game/types.ts, Game/Constants
--                   constants.ts, Game/Rng seeded-rng.ts, Game/Damage damage.ts (applyDamage),
--                   Game/Targeting targeting.ts (pickTarget), Game/Abilities abilities.ts and
--                   Game/Engine engine.ts (runBattle). Game/Store is the heap of unit objects that
--                   the source mutates: a `Ref` names an object, and an action maps the battle to
--                   the next one and the events that it pushes. Game/Change and Game/Evolution
--                   say what an action may do to a unit and to a board, Game/Timeline in what
--                   order events come.
--   Runtime         the match. Runtime/State is backend/src/runtime/match.runtime-state.ts,
--                   Runtime/Rules, Runtime/Flow, Runtime/Rounds and Runtime/Place are parts of
--                   match.runtime.adapter.ts (resolveRound; applyDamageAndAdvance and surrender;
--                   advanceResolvedRound, markRoundReady, handleCombatDone and handleDisconnect;
--                   place), Runtime/Combat is combat.coordinator.ts (runCombat) and
--                   combat-timing.ts, Runtime/Ready is how a battle starts (markReadyAction,
--                   tryStartCombat), Runtime/Store the scripts backend/src/redis/scripts/action_log.lua,
--                   phase_flip.lua and combat_done.lua, Runtime/Effects the errors and messages.
--   Room            the private rooms, backend/src/room. Room/Types is room.types.ts, Room/Store the
--                   scripts backend/src/redis/scripts/room_join.lua, room_leave.lua,
--                   room_start_match.lua, room_match_done.lua and room_match_abort.lua, Room/Service
--                   room.service.ts (createRoom, joinRoom, startRoomMatch, leaveRoom, each in its
--                   own file), Room/Members the interleavings of all players' requests as a step
--                   relation, Room/Codes the codes that players join by.
--   Matchmaking     backend/src/matchmaking/matchmaking.service.ts and
--                   backend/src/redis/scripts/match_pair.lua: the queue and the pairing.
--   Match           backend/src/match/match.service.ts: the end of a match and the ratings
--                   (updateRating of backend/src/user/user.service.ts), and what Match/History
--                   shows of past matches.
--   Shop            backend/src/shop/shop.service.ts. Shop/Offers is generateOffers, Shop/Roster
--                   the slots and the gold in them, Shop/Mutations buy, sell, refresh and fuse,
--                   Shop/Action withAction.
--
-- How state is modelled: a battle is two lists of units, passed on explicitly. What Redis holds of
-- a match is the record `MatchStore`. An asynchronous handler takes a store for each of its reads
-- and one for its commit, because other requests may run between its awaits; what it sends and
-- writes elsewhere is a list of effects in the order of the calls. The write of a battle's events to
-- Redis stands in the store and, with its expiry, among the effects.
--
-- A request on the rooms is an action on a `Run`: before each of its accesses to Redis the other
-- requests, a function of the number of accesses so far, may change the store; `quiet` is the one
-- that does not. A transaction of the database is one step. In Room/Members a step of a request may
-- come when what the request has read no longer holds; such a step is not timely. The code does not
-- exclude it: `getMyRoom` and `leaveRoom` delete a player's key whatever it names by then.
--
-- Bounds and fuel: a battle runs for at most 30 cycles of 100 ticks, the loops of the source, and
-- the recursion counts those down, so that no fuel is chosen. Numbers are whole numbers from 0 on;
-- products with 0.05, 0.1, 0.5, 0.7 and 1.5 are integer formulas that round as the source does, and
-- so is the change of ratings, computed exactly from a power of ten that is a quotient. The
-- two random generators work on 32-bit words with the wrap-around written out.
--
-- Parameters: the order of `localeCompare`, the SHA-256 digest, ids and codes that are drawn at
-- random, `trim().toUpperCase()`, the power of ten in `eloDelta`, and for rooms and queue the
-- look-ups of active matches and the creation of a match, which may fail.
--
-- Not modelled: the parsing of stored JSON (the model starts from the parsed records), times and
-- the expiry of keys, the release of locks, and the parts of the server that call frameworks:
-- authentication, transport, jobs and SQL.
pub mod Base
pub mod Game
pub mod Runtime
pub mod Room
pub mod Shop
pub mod Matchmaking
pub mod Match
