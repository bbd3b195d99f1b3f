-- ===== src/Conversation/Talk.antt =====
-- server/vsx-conversation.c: messages, typing and shouting.
pub mod Clip
use verda_sxtelo.Common.{
  ℕ, zero, suc, ◌+◌, Bool, not, Option, none, some, List, [], ◌∷◌, ◌++◌, ◌>>=◌, length, get_or,
  take, bit_and, ◌==◌, ltb, if◌then◌else◌,
}
use verda_sxtelo.Player.{typing, is_connected}
use verda_sxtelo.Conversation.{
  Conversation, World, Message, emit, message_added, shouted, player, set_flag, shout_time,
}

-- `VSX_PROTO_MAX_MESSAGE_LENGTH`
abbrev pub max_message_length : ℕ
max_message_length = 1000

-- `while ((buffer[raw_length] & 0xc0) == 0x80) raw_length--;`, which would run off the front of a
-- buffer that holds nothing but continuation bytes.
unfoldable pub clip_loop : List ℕ → ℕ → Option ℕ
clip_loop buffer zero = if bit_and (get_or buffer 0 0) 0xc0 == 0x80 then none else some 0
clip_loop buffer (suc n) =
    let more = clip_loop buffer n in
    if bit_and (get_or buffer (suc n) 0) 0xc0 == 0x80 then more else some (suc n)

-- `raw_length`, for a buffer of which the whole length is given.
unfoldable pub raw_length : List ℕ → Option ℕ
unfolding clip_loop
raw_length buffer =
    if ltb max_message_length (length buffer)
    then clip_loop buffer max_message_length
    else some (length buffer)

unfoldable pub add_message : ℕ → List ℕ → World → Option World
unfolding player emit raw_length
add_message player_num buffer w = do
  p ← player player_num w
  if not (is_connected p) then some w else (do
    n ← raw_length buffer
    some (
        emit message_added none (record w {
          conversation = record (w.conversation) {
            messages =
                w.conversation.messages
                ++ (record { player_num = player_num; text = take n buffer } ∷ []);
          };
        })))

unfoldable pub set_typing : ℕ → Bool → World → Option World
unfolding player set_flag
set_typing player_num value w = do
  p ← player player_num w
  if not (is_connected p) then some w else set_flag player_num typing value w

-- `clock - last_shout_time < VSX_CONVERSATION_SHOUT_TIME` on 64-bit signed times, far from wrapping.
unfoldable pub is_shouting : ℕ → Conversation → Bool
is_shouting clock c = ltb clock (c.last_shout_time + shout_time)

unfoldable pub shout : ℕ → ℕ → World → Option World
unfolding player emit is_shouting
shout clock player_num w = do
  p ← player player_num w
  some (
      if not (is_connected p)
      then w
      else if is_shouting clock w.conversation
      then w
      else emit shouted (some player_num)
          (record w { conversation = record (w.conversation) { last_shout_time = clock } }))
