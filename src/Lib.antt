-- ===== src/Lib.antt =====
-- The txgg game server: a verification of parts of its code.
--
-- The program. A connection server (server/conn_srv) passes the messages of the players' clients
-- on to a game server (server/game_srv), which holds every role that is online in shared memory,
-- and to a database server (server/db_srv). common-lib/lib holds what they share: sorted arrays,
-- pools of objects with their indices, queues and the event loop. The handlers of the game server
-- call role.c, which changes the role, and its bags are containers of things from a pool.
--
-- The files.
-- - Base: numbers, tests, lists with native indices, machine words and return codes. A C function
--   that returns n or -n is modelled with the code `ok n` or `err n`.
-- - Idx (common-lib/lib/idx.h, idx.c): a pointer with the pool index of its object. A pointer is
--   modelled by that index, and `none` is NULL or, in a list, the list head.
-- - Pool (server/lib/game_queue.h, server/lib/mempool.h): the circular lists of used and of free
--   objects, with the macros GAME_CIRCLEQ_INIT, INSERT_HEAD and REMOVE, and init_, create_,
--   destory_, get_byidx and resume_ of POOL_DEF. Ring and Unlink say what a circular list holds and
--   how one object joins or leaves it, Alloc and History how the two lists part the pool, Start and
--   Resume how they come about. An operation that would write through the list head is `none`.
-- - SortArray (common-lib/lib/sortarray.c): a memory block and the number of its members, as
--   `Array`; array_bsearch, array_insert, array_delete and array_delete_index as they are named
--   there. An access outside of the block is `none`, and so is a search out of fuel; nmemb + 1
--   rounds are enough. Order holds the contract with the comparison function, Table the abstract
--   sorted table, Search and Update the behaviour of the code, Keyed the clients' view.
-- - Registry (server/game_srv/role.c, from get_role_by_session to role_rbdata_del): the trees of the
--   roles by id, by name and by session. Walk compares a walk from the root with the sorted list
--   that the tree stands for, Roles treats the three trees together. rb_insert_color and rb_erase
--   are parameters.
-- - Friend (server/game_srv/role.c, lines on the friend list and the blacklist): the two arrays of
--   256 slots. Slots treats one array, Invariant both of them over any history, Restore an
--   addition taken back. Friend/Handlers (server/game_srv/friend.c) is the four request handlers:
--   the session's role and the unpacked request are inputs, the packed response is an output.
-- - OneRole (server/game_srv/one_role.c, buff.c): a fighter. Skills and Buffs are its two sorted
--   arrays, of 128 and of 16, and the attributes that a buff changes modulo 2 ^ 32; signed 32-bit
--   values are kept as their bit patterns. Levels are the attributes that the tables give and the
--   list of them for the client. Exp is give_role_exp of role.c, which raises the level; its loop has
--   fuel for 65536 rounds, more than there are levels. The rows of the loaded tables (config.c) are
--   parameters.
-- - Scene (server/game_srv/scene.c): who is in a scene (Members), and who gets a message that is
--   sent to a scene (Receivers). The roles in the loop of a broadcast are given by their sessions.
-- - Config (server/game_srv/config.c): the tables that are loaded at the start, and their lookups.
-- - Quest (server/game_srv/quest.c): the state of the main quest, on_kill_monster and on_bag_changed
--   that drive it (Progress), and quest_status_check. The quest that the events change in the role
--   is passed in and out, and the lookups before it are inputs. Quest/Operate adds the array of
--   quests of a role (role.c) and handle_quest_operate_request: Slots says what the array holds,
--   Rewards and Requests what one event does, History what any sequence of them does.
-- - Container (server/game_srv/container.c, container.h, thing_obj.h): slots that point into the
--   pool of things. A pointer is the pool index of its object; the pool is a store and a list of
--   free objects. Slots and Invariant treat who owns which thing, Count and Remove the operations
--   on one slot, Lookup and Restore what is found and taken back, Swap and Swap/Lists the change of
--   two slots, Steady and Plan/Steady the bags on which no assert of count_thing_num fails, Release the end of a bag in role_logout (role.c), Resume the start with the memory of
--   an earlier run, Plan and Plan/Rollback the two passes of add_thing_list.
-- - Net (common-lib/lib/game_net.c, client_map.h, server/common_include/server_proto.h): the buffer
--   of a connection, which is a function from indices to bytes, get_one_buf, remove_one_buf and
--   send_one_msg. Bytes and Frames say what the buffer holds, Send what goes out. What recv gives
--   and how much send takes are inputs.
-- - Conn (server/conn_srv/conn_srv.c, common-lib/lib/game_event.c): the connection server. Each
--   callback is a function of the state, the connection and what recv gives. Loop and Stream treat
--   the endless loop of the receive callbacks for any transfer of one message, Forward and Reply the
--   two transfers, Clients and RoundTrip both together, Broadcast, Cache and Hang the rest. The
--   loops run on as much fuel as there are bytes; a message has at least four, so that is enough.
-- - Instance (server/game_srv/instance.c, handle_conn_msg.c): the board that a role walks over by
--   dice. Walk and Rules treat the moves, Actions what happens on a node. The lookups of the role
--   and its instance are inputs, and so are the random numbers, the rows of the tables and the
--   results of fights; the calls into other parts are outputs.
-- - Fight (server/game_srv/fight.c): a fight of two figures and its notification. Outcome says how
--   it ends, Rounds and Replay what a client makes of the notification. A fight has 1280 rounds at
--   most. What the code computes with doubles, the hurt and the odds, is a parameter.
-- - Gm (server/game_srv/gm.c): the commands of game masters. Words says where texts stand in the
--   memory of the parameters, Parse what a command leaves there, Command which handler is run. The
--   parser has fuel for each byte of the command; a round takes at least one.
-- - Equip (server/game_srv/handle_conn_msg.c with role.c): the change of equipment. Exchange is
--   about the bag, Totals about all that a role has, Change about one request, History about any
--   number of them.
-- - Travel (server/game_srv/instance.c and handle_conn_msg.c): going into an instance and coming back,
--   with the scenes. Party is about the roles of one instance, Places about where every role is,
--   Enter and Return about the two requests, History about any number of them.
-- - Baggage (server/game_srv/handle_conn_msg.c): the requests to drop and to swap things. A request
--   that names the store of a role without one stops the server, which is `none`: the drop at an
--   assert of delete_thing_bypos, the swap by an access through NULL.
--
-- Not modelled: packing of messages, logging, the generated protocol code, the rest of the game
-- server and of the connection server, the database server, the vendored headers, the tools.
-- The rebalancing of the Linux red-black tree is a parameter.
pub mod Base
pub mod Idx
pub mod Pool
pub mod SortArray
pub mod Friend
pub mod Container
pub mod OneRole
pub mod Registry
pub mod Scene
pub mod Quest
pub mod Net
pub mod Conn
pub mod Instance
pub mod Fight
pub mod Config
pub mod Gm
pub mod Equip
pub mod Travel
pub mod Baggage
