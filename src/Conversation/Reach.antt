-- ===== src/Conversation/Reach.antt =====
-- The life of a conversation as a step relation: any sequence of requests, in any order, from its
-- creation on.
use verda_sxtelo.Common.{ℕ, ◌<◌, ◌≡◌, subst, arith, Bool, Option, some, List, [], ◌⊎◌}
use verda_sxtelo.Common.Count.{count}
use verda_sxtelo.Common.Int.{ℤ}
use verda_sxtelo.TileData.{n_rooms, n_tiles}
use verda_sxtelo.Player.{is_connected, has_next_turn}
use verda_sxtelo.Conversation.{World, new, n_players, max_players}
use verda_sxtelo.Conversation.Valid.{IsSound, Returns}
use verda_sxtelo.Conversation.Players.{player_left, add_player}
use verda_sxtelo.Conversation.Players.Keeps.{player_left-IsSound}
use verda_sxtelo.Conversation.Players.Joins.{add_player-IsSound}
use verda_sxtelo.Conversation.Talk.{raw_length, add_message, set_typing, shout}
use verda_sxtelo.Conversation.Options.{set_n_tiles, set_tile_data}
use verda_sxtelo.Conversation.Tiles.{turn, move_tile}
use verda_sxtelo.Conversation.Tiles.Turn.{turn-IsSound}
use verda_sxtelo.Conversation.Keeps.{
  new-IsSound, shout-IsSound, add_message-IsSound, set_n_tiles-IsSound, set_tile_data-IsSound,
  move_tile-IsSound, set_typing-IsSound,
}

-- One request that returned. A request comes from one of the players, moves a tile of the bag and
-- names a language of the table. Nobody joins a conversation that everybody has left after its
-- first tile, since the set of conversations has dropped it.
pub data Step (w : World) : World → Type 0 where
  joins :
      {w' : World} (name : List ℕ) (num : ℕ)
      → n_players w.conversation < max_players
      → (0 < w.conversation.n_connected_players) ⊎ (w.conversation.n_tiles_in_play ≡ 0)
      → add_player name w ≡ some (num, w')
      → Step w w'
  leaves :
      {w' : World} (i : ℕ) → i < n_players w.conversation → player_left i w ≡ some w' → Step w w'
  turns :
      {w' : World} (rand : ℕ → ℕ) (clock i : ℕ)
      → i < n_players w.conversation
      → turn rand clock i w ≡ some w'
      → Step w w'
  moves :
      {w' : World} (i tile_num : ℕ) (x y : ℤ)
      → i < n_players w.conversation
      → tile_num < n_tiles
      → move_tile i tile_num x y w ≡ some w'
      → Step w w'
  shouts :
      {w' : World} (clock i : ℕ)
      → i < n_players w.conversation
      → shout clock i w ≡ some w'
      → Step w w'
  types :
      {w' : World} (i : ℕ) (value : Bool)
      → i < n_players w.conversation
      → set_typing i value w ≡ some w'
      → Step w w'
  writes :
      {w' : World} (i n : ℕ) (buffer : List ℕ)
      → i < n_players w.conversation
      → raw_length buffer ≡ some n
      → add_message i buffer w ≡ some w'
      → Step w w'
  counts :
      {w' : World} (i : ℕ) (n : ℤ)
      → i < n_players w.conversation
      → set_n_tiles i n w ≡ some w'
      → Step w w'
  speaks :
      {w' : World} (i lang : ℕ)
      → i < n_players w.conversation
      → lang < n_rooms
      → set_tile_data i lang w ≡ some w'
      → Step w w'

pub data Reach (w : World) : World → Type 0 where
  here : Reach w w
  next : {v u : World} → Reach w v → Step v u → Reach w u

some-same : {A : Type 0} {a b : A} {r : Option A} → r ≡ some a → r ≡ some b → a ≡ b
some-same h k = cc

returned :
    {r : Option World} {w' : World} → Returns r IsSound → r ≡ some w' → IsSound w'.conversation
returned x e = subst (λ (w : World). IsSound w.conversation) (some-same x.result e) x.holds

Step-IsSound : {w w' : World} → Step w w' → IsSound w.conversation → IsSound w'.conversation
Step-IsSound (joins name num room company e) s =
    let (w'', r, k) = add_player-IsSound name _ room company s in
    subst (λ (p : ℕ × World). IsSound p.1.conversation) (some-same r e) k
Step-IsSound (leaves i h e) s = returned (player_left-IsSound i _ h s) e
Step-IsSound (turns rand clock i h e) s = returned (turn-IsSound rand clock i _ h s) e
Step-IsSound (moves i tile_num x y h k e) s = returned (move_tile-IsSound i _ h s tile_num x y k) e
Step-IsSound (shouts clock i h e) s = returned (shout-IsSound i _ h s clock) e
Step-IsSound (types i value h e) s = returned (set_typing-IsSound i _ h s value) e
Step-IsSound (writes i n buffer h k e) s = returned (add_message-IsSound i _ h s buffer n k) e
Step-IsSound (counts i n h e) s = returned (set_n_tiles-IsSound i _ h s n) e
Step-IsSound (speaks i lang h k e) s = returned (set_tile_data-IsSound i _ h s lang k) e

pub Reach-IsSound : {w w' : World} → IsSound w.conversation → Reach w w' → IsSound w'.conversation
Reach-IsSound s here = s
Reach-IsSound s (next r st) = Step-IsSound st (Reach-IsSound s r)

-- A conversation that was just created.
unfoldable pub fresh : ℕ → ℕ → ℕ → World
fresh id tile_data next_log_id = record {
  conversation = (new id tile_data next_log_id).0;
  signals = [];
}

-- However the players of a conversation join, leave, turn, move, shout, type, write and choose
-- the options, exactly one of them has the turn while tiles are left, the first one is on the
-- board and somebody is connected. Requests name a player of the conversation, a tile of the bag
-- and a language of the table, a message is one that clipping ends on, and nobody joins a
-- conversation that everybody has left after its first tile.
pub Reach-turn :
    (id tile_data next_log_id : ℕ) {w : World}
    → tile_data < n_rooms
    → Reach (fresh id tile_data next_log_id) w
    → 0 < w.conversation.n_tiles_in_play
    → w.conversation.n_tiles_in_play < w.conversation.total_n_tiles
    → 0 < count is_connected w.conversation.players
    → count has_next_turn w.conversation.players ≡ 1
unfolding fresh
Reach-turn id tile_data next_log_id h r z lt on =
    let s = Reach-IsSound (new-IsSound id tile_data next_log_id h) r in
    omega (arith, s.valid.one_turn, s.turn.held z lt (omega (arith, s.valid.connected)))
