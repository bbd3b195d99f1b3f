-- ===== src/Lib.antt =====
-- verda_sxtelo: a model of the server of Verda Ŝtelo, a word game for several players.
--
-- A conversation is one game. Players join it, one after the other turns over a tile of a shuffled
-- bag, which is put on a free place of the board, and anybody moves tiles, writes messages and
-- shouts when a word is found. The model translates the C code of the server's conversation with
-- all that it stands on, with the codecs and parsers of the protocol around it.
--
-- The parts, by file:
-- - Player: server/vsx-player.c and vsx-player.h. `VsxPlayer` is `Player`, a set of flags is a
--   number. Player/Flags: what changing a flag does to the others.
-- - Tile: server/vsx-tile.h.
-- - TileData: server/vsx-tile-data.c, the letters of the four languages. A pointer into
--   `vsx_tile_data` is the index of the entry.
-- - Utf8: common/vsx-utf8.c, with `vsx_utf8_get_char` as `get_char`, `vsx_utf8_next` as `next`,
--   `vsx_utf8_is_valid_string` as `is_valid_string` and `vsx_utf8_encode` as `encode`.
-- - Bag: `init_tile_data` and `shuffle_tiles` of server/vsx-conversation.c.
-- - Board: `try_location` and `find_free_location` of server/vsx-conversation.c.
-- - Conversation: server/vsx-conversation.h and the rest of vsx-conversation.c. `VsxConversation`
--   is the record `Conversation`; a `World` is a conversation with the signals that it has emitted.
--   Conversation/Players has `set_next_player`, `vsx_conversation_player_left` and
--   `vsx_conversation_add_player`; Conversation/Talk has `vsx_conversation_add_message`,
--   `vsx_conversation_set_typing`, `is_shouting` and `vsx_conversation_shout`;
--   Conversation/Options has `vsx_conversation_set_n_tiles` and `vsx_conversation_set_tile_data`;
--   Conversation/Tiles has `vsx_conversation_turn` and `vsx_conversation_move_tile`.
--   Conversation/Valid states the invariant, and Conversation/Reach the life of a conversation as a
--   step relation over all of these operations.
-- - IdUrl: common/vsx-id-url.c, the URL of a conversation.
-- - Base64: server/vsx-base64.c. `struct vsx_base64_data` is `Base64Data`, with the 32 bits of
--   `value`; a call of the decoder returns the state that it leaves with the bytes that it wrote.
-- - Proto: common/vsx-proto.c and vsx-proto.h. The variable arguments of
--   `vsx_proto_write_command` and `vsx_proto_read_payload` are lists of `Item` and of `Kind`.
-- - WsParser: server/vsx-ws-parser.c, the request that opens a WebSocket. `_VsxWsParser` is `Parser`
--   and `vsx_ws_parser_parse_data` is `parse_data`; WsParser/Machine has a machine that takes the
--   request byte by byte, for reference.
-- - Frames: the frames of server/vsx-connection.c, `process_frames`, `unmask_data`,
--   `process_control_frame` and the loop of `vsx_connection_parse_data`. `Link` and `Reader` have the
--   fields of `_VsxConnection` that they use; `process_message` is a parameter. Frames/Sent has the
--   frames that RFC 6455 has a client write, and Frames/Bytes a machine that takes a byte at a time.
-- - Connection: `vsx_connection_parse_data` of server/vsx-connection.c, which hands the data to the
--   parser of the request and then to the frames.
-- - Server: what the connections share. `Server` has the conversations and the persons that were
--   ever created, `_VsxConversationSet` as `ConversationSet` and the people of `_VsxPersonSet`; a
--   `Session` is one connection's `Client` with the server. Server/Rooms is
--   server/vsx-conversation-set.c, and Server/People is vsx-person-set.c with vsx-person.c.
--   Server/Entering and Server/Playing have the handlers of the commands of vsx-connection.c and
--   Server/Commands `process_message`, which can be the parameter of Frames and Connection.
--   Server/Pending has the dirty flags and `has_pending_data`, Server/Writers the functions from
--   `write_player_name` to `write_pending_error`, and Server/Output
--   `vsx_connection_fill_output_buffer`, `vsx_connection_has_data` and `vsx_connection_parse_eof`.
--   Server/Invariant states what holds between commands, and Server/Effects what the operations on
--   a conversation mean for the sets.
-- - Person: the fields of server/vsx-person.h. Bitmask: common/vsx-bitmask.h, a mask as its bits.
-- - HashTable: common/vsx-hash-table.c. A chain is the list of its entries.
-- - GenerateId: server/vsx-generate-id.c.
-- - NormalizeName: server/vsx-normalize-name.c.
-- - Ascii: two functions of common/vsx-util.h. Memory: `memchr`.
-- - Tests: a game of two players, some texts, requests, frames, names, numbers and a served player, computed.
-- - Common: names of the libraries that all of them share, Boolean tests, lists and integers over
--   the native numbers, masks of bits, texts of the source and counting in lists.
--
-- How the code is represented. A player is named by its index, which C code holds as a pointer to
-- the player or as its number. A C string is the list of its bytes without the terminator.
-- `int16_t` fields are integers with the conversion written out, and so are the `uint16_t` of the
-- log's numbers and the `uint32_t` of a decoded character. An operation is a function from `World`
-- to `Option World`: `none` stands for a failed assertion, a pointer outside its array or a loop
-- that does not end. A signal carries the conversation as it was when the signal was emitted, since
-- its listeners read it through a pointer.
--
-- Parameters. `rand ()` is a function from the round of the shuffle to the number returned, and the
-- monotonic clock is an argument of the operations that read it; nothing is assumed of either. The
-- SHA-1 hash of the OpenSSL library is a record of its three operations, of which nothing is assumed.
-- What reading /dev/urandom gives is a list of bytes.
--
-- Fuel. The search for a place runs over endless rows; 245 rows are enough for the 122 tiles of a
-- game, because a tile covers at most two of the places in the middle column below the centre. The
-- search for the next player takes one round for each player. The first byte of a character is read
-- in six rounds, as many as its test bit lasts, and a string is checked in at most as many rounds as
-- it has bytes. The parser of the request takes at most two rounds for a byte. Each frame
-- has two bytes at least, and a round that can copy data into the buffer takes one at least; the
-- results of these loops have a value of their own for fuel that ran out.
--
-- Filling the output buffer takes a round more than the buffer has bytes, since every round that
-- goes on writes a byte. The numbers that `vsx_generate_id` returns are a list, of which a table or
-- a set takes the first one that is not in use; a list that ends stands for waiting for ever.
--
-- Not modelled: the server's main loop, which polls the sockets and calls the connections, and the
-- client, which are other parts of the program; logging, freeing and reference counts, which do not
-- bear on the state of a game; what a connection holds after a message or data was refused, when the
-- server parses no more of its data but still writes what was queued before. A person or a
-- conversation that nobody refers to any more is kept.
pub mod Common
pub mod Player
pub mod Tile
pub mod Board
pub mod Utf8
pub mod TileData
pub mod Bag
pub mod Conversation
pub mod Ascii
pub mod Memory
pub mod IdUrl
pub mod Base64
pub mod WsParser
pub mod Proto
pub mod Frames
pub mod NormalizeName
pub mod Connection
pub mod GenerateId
pub mod Bitmask
pub mod HashTable
pub mod Person
pub mod Server
pub mod Tests
