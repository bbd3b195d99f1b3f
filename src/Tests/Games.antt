-- ===== src/Tests/Games.antt =====
-- A game of two players: they join, the first one turns a tile over, and so on.
use verda_sxtelo.Common.{
  ℕ, ◌+◌, ◌*◌, ◌<◌, ◌≤◌, ◌≡◌, refl, arith, true, Option, none, some, List, [], ◌∷◌, inl, inr, map,
}
use verda_sxtelo.Common.Count.{count}
use verda_sxtelo.Common.Int.{pos, negsuc, ◌+ℤ◌}
use verda_sxtelo.Tile.{Tile}
use verda_sxtelo.TileData.{vsx_tile_data, eo_chars}
use verda_sxtelo.Utf8.{encode}
use verda_sxtelo.Utf8.Encode.{encode_all}
use verda_sxtelo.Bag.{init_tile_data}
use verda_sxtelo.Board.{Point, find_free_location}
use verda_sxtelo.Board.Free.{IsFree, find_free_location_total}
use verda_sxtelo.Player
use verda_sxtelo.Player.{
  Player, is_connected, has_next_turn, flags_connected, flags_next_turn, change_flag,
}
use verda_sxtelo.Conversation
use verda_sxtelo.Conversation.{World, player, n_players, max_players}
use verda_sxtelo.Conversation.Valid.{IsSound, Returns}
use verda_sxtelo.Conversation.Players.{add_player, player_left, pass_turn}
use verda_sxtelo.Conversation.Players.NextTurn.{Outcome, pass_turn_total}
use verda_sxtelo.Conversation.Players.Keeps.{player_left-IsSound}
use verda_sxtelo.Conversation.Players.Joins.{add_player-IsSound}
use verda_sxtelo.Conversation.Talk.{is_shouting, shout}
use verda_sxtelo.Conversation.Tiles.{turn}
use verda_sxtelo.Conversation.Tiles.Turn.{BagFor, MayTurn, Turned, turn_taken, turn-IsSound}
use verda_sxtelo.Conversation.Tiles.Shouted.{HeldUp, turn-shout}
use verda_sxtelo.Conversation.Keeps.{new-IsSound}
use verda_sxtelo.Conversation.Reach.{
  Reach, here, next, joins, turns, fresh, Reach-IsSound, Reach-turn,
}

abbrev rand : ℕ → ℕ
rand i = i * 7919

abbrev clock : ℕ
clock = 20 * 1000 * 1000

begin : World
unfolding fresh Conversation.new
begin = fresh 7 0 0

world_of : Option World → World
unfolding begin
world_of none = begin
world_of (some w) = w

joined_of : Option (ℕ × World) → World
unfolding begin
joined_of none = begin
joined_of (some p) = p.1

one : World
unfolding begin joined_of add_player Player.new
one = joined_of (add_player (65 ∷ []) begin)

two : World
unfolding one joined_of add_player
two = joined_of (add_player (66 ∷ []) one)

three : World
unfolding two world_of turn flags_connected flags_next_turn change_flag vsx_tile_data init_tile_data
    encode_all eo_chars encode find_free_location
three = world_of (turn rand clock 0 two)

-- The turn is the second player's, and the tile lies in the middle of the board.
three_flags : map (λ (p : Player). p.flags) three.conversation.players ≡ 1 ∷ 5 ∷ []
unfolding three
three_flags = refl

three_count : three.conversation.n_tiles_in_play ≡ 1
unfolding three
three_count = refl

three_total : three.conversation.total_n_tiles ≡ 50
unfolding three
three_total = refl

three_connected : count is_connected three.conversation.players ≡ 2
unfolding three
three_connected = refl

three_players : n_players three.conversation ≡ 2
unfolding three
three_players = refl

one_step : add_player (65 ∷ []) begin ≡ some (0, one)
unfolding one
one_step = refl

two_step : add_player (66 ∷ []) one ≡ some (1, two)
unfolding two
two_step = refl

three_step : turn rand clock 0 two ≡ some three
unfolding three
three_step = refl

room : (n_players begin.conversation < 6) × (n_players one.conversation < 6)
unfolding two
room = omega arith

untouched :
    (begin.conversation.n_tiles_in_play ≡ 0)
    × (one.conversation.n_tiles_in_play ≡ 0)
    × (two.conversation.n_tiles_in_play ≡ 0)
unfolding two
untouched = (refl, refl, refl)

first_seat : 0 < n_players two.conversation
unfolding two
first_seat = omega arith

reach_two : Reach begin two
reach_two =
    next (next here (joins (65 ∷ []) 0 (room.0) (inr (untouched.0)) one_step))
      (joins (66 ∷ []) 1 (room.1) (inr (untouched.1)) two_step)

reach_three : Reach begin three
reach_three = next reach_two (turns rand clock 0 first_seat three_step)

begin-IsSound : IsSound begin.conversation
unfolding begin
begin-IsSound = new-IsSound 7 0 0 (omega arith)

two-IsSound : IsSound two.conversation
two-IsSound = Reach-IsSound begin-IsSound reach_two

three-IsSound : IsSound three.conversation
three-IsSound = Reach-IsSound begin-IsSound reach_three

Reach-turn_example : count has_next_turn three.conversation.players ≡ 1
unfolding begin
Reach-turn_example =
    Reach-turn 7 0 0 (omega arith) reach_three (omega (arith, three_count))
      (omega (arith, three_count, three_total)) (omega (arith, three_connected))

abbrev alice : Player
alice = record { num = 0; flags = 1; name = 65 ∷ [] }

abbrev bob : Player
bob = record { num = 1; flags = 1; name = 66 ∷ [] }

two-alice : player 0 two ≡ some alice
unfolding two player
two-alice = refl

three_alice : player 0 three ≡ some alice
unfolding three player
three_alice = refl

alice_may : MayTurn clock alice two.conversation
unfolding two flags_connected is_shouting
alice_may = record { on = refl; ready = inl refl; quiet = refl; left = omega arith }

turn_taken_example :
    (bag : List Tile) × BagFor two.conversation bag
    × Turned (turn rand clock 0 two) two.conversation bag
turn_taken_example = turn_taken rand clock 0 alice two two-alice two-IsSound alice_may

turn-IsSound_example : Returns (turn rand clock 0 two) IsSound
turn-IsSound_example = turn-IsSound rand clock 0 two first_seat two-IsSound

two-bob : player 1 two ≡ some bob
unfolding two player
two-bob = refl

two_ready :
    (two.conversation.last_shout_time + 10000000 ≤ clock)
    × (two.conversation.n_tiles_in_play ≡ 0)
    × (two.conversation.n_tiles_in_play < two.conversation.total_n_tiles)
unfolding two
two_ready = (omega arith, refl, omega arith)

both_connected : (is_connected alice ≡ true) × (is_connected bob ≡ true)
unfolding flags_connected
both_connected = (refl, refl)

turn-shout_example :
    (w' : World) × (shout clock 1 two ≡ some w')
    × HeldUp clock 30_000_000 w' (turn rand 30_000_000 0 w')
turn-shout_example =
    turn-shout rand clock 30_000_000 1 0 bob alice two two-IsSound two-bob (both_connected.1)
      (two_ready.0) two-alice (both_connected.0) (inl (two_ready.1)) (two_ready.2)

player_left-IsSound_example : Returns (player_left 1 three) IsSound
player_left-IsSound_example =
    player_left-IsSound 1 three (omega (arith, three_players)) three-IsSound

add_player-IsSound_example :
    (w' : World) × (add_player (66 ∷ []) one ≡ some (n_players one.conversation, w'))
    × IsSound w'.conversation
add_player-IsSound_example = add_player-IsSound (66 ∷ []) one (room.1) (inr (untouched.1)) (
    Reach-IsSound begin-IsSound
      (next here (joins (65 ∷ []) 0 (room.0) (inr (untouched.0)) one_step)))

pass_turn_total_example :
    (w' : World) × (pass_turn (n_players three.conversation) 1 1 three ≡ some w')
    × Outcome 1 three w'
pass_turn_total_example = pass_turn_total 1 three (omega (arith, three_players))

abbrev middle : Tile
middle = record { x = pos 290; y = pos 170; last_player = negsuc 0; letter = 65 ∷ [] }

find_free_location_total_example :
    (p : Point) × (find_free_location (middle ∷ []) ≡ some p) × IsFree (middle ∷ []) p
find_free_location_total_example = find_free_location_total (middle ∷ []) (omega arith)

-- The second tile goes to the left of the first.
second_place : find_free_location (middle ∷ []) ≡ some (pos 269, pos 170)
unfolding find_free_location ◌+ℤ◌
second_place = refl
