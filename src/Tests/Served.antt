-- ===== src/Tests/Served.antt =====
-- A server with two connections, and a table of numbers, computed.
use verda_sxtelo.Common.{ℕ, false, ◌-◌, ◌≡◌, refl, none, some, List, [], ◌∷◌, ◌++◌, length}
use verda_sxtelo.Common.Chars.{codes}
use verda_sxtelo.Frames.{Result, ok, refused, overrun, endless, ◌>>=◌}
use verda_sxtelo.Proto.{read_payload}
use verda_sxtelo.TileData.{vsx_tile_data, language_code_from}
use verda_sxtelo.Player
use verda_sxtelo.Player.{flags_connected, flags_next_turn}
use verda_sxtelo.HashTable.Adding.{put_in, take_out}
use verda_sxtelo.Connection
use verda_sxtelo.Connection.{Connection, writing_data}
use verda_sxtelo.Server.{Session, new_client}
use verda_sxtelo.Server.Commands.{process_message}
use verda_sxtelo.Common.{arith}
use verda_sxtelo.Server.Invariant.{IsSession, Holds}
use verda_sxtelo.Server.Serves.{process_message-Holds}
use verda_sxtelo.Server.Pending.{session, with_session}
use verda_sxtelo.Server.Output.{fill_output_buffer, has_data}
use verda_sxtelo.Server.Space.{Filled, fill_output_buffer-Filled}
use verda_sxtelo.Server.Drained.{Settled, fill_output_buffer-Settled}
use verda_sxtelo.HashTable.{HashTable, init, get_entry}
use verda_sxtelo.HashTable.Refines.{Use, insert, delete, run, map_after, run_refines}

-- A connection to a server without games. The next numbers would be 7 and 9.
abbrev start : Session
start = record {
  client = new_client 5;
  server = record {
    conversations = [];
    next_log_id = 0;
    conversation_set = record { pending = []; others = [] };
    persons = [];
    people = [];
    clients = [];
    ids = 7 ∷ 9 ∷ [];
  };
}

abbrev new_player_message : List ℕ
new_player_message = 0x80 ∷ codes "en:kafo" ++ (0 ∷ codes "Ada" ++ (0 ∷ []))

abbrev value_or {ℓ} : {A : Type ℓ} → A → Result A → A
value_or d (ok a) = a
value_or d refused = d
value_or d overrun = d
value_or d endless = d

unfoldable joined : Session
unfolding process_message new_client
joined = value_or start (process_message (λ i. i) 6 new_player_message start)

unfoldable connection : Connection (Unit {0}) Session
unfolding Connection.new joined
connection = record (Connection.new joined) { state = writing_data }

-- The player gets its number, that of the game, the number of tiles, the language, a name, the
-- flags of the player and the end of the news, in frames of 12, 11, 4, 6, 8, 5 and 3 bytes.
first_news : value_or 0 (fill_output_buffer 100 connection >>= λ r. ok (length r.0)) ≡ 49
unfolding connection joined fill_output_buffer Connection.new process_message new_client
    read_payload vsx_tile_data language_code_from Player.new flags_connected
first_news = refl

fill_output_buffer-Filled_example : Filled 100 (fill_output_buffer 100 connection)
fill_output_buffer-Filled_example = fill_output_buffer-Filled 100 connection

unfoldable sent : List ℕ × Connection (Unit {0}) Session
unfolding fill_output_buffer
sent = value_or ([], connection) (fill_output_buffer 30 connection)

sent_lem : fill_output_buffer 30 connection ≡ ok (sent.0, sent.1)
unfolding sent connection joined fill_output_buffer Connection.new process_message new_client
    read_payload vsx_tile_data language_code_from Player.new flags_connected
sent_lem = refl

fill_output_buffer-Settled_example : Settled (30 - length sent.0) sent.1
fill_output_buffer-Settled_example = fill_output_buffer-Settled 30 sent.0 connection sent.1 sent_lem

-- With space for everything, no data is left.
all_sent : (fill_output_buffer 100 connection >>= λ r. has_data r.1) ≡ ok false
unfolding connection joined fill_output_buffer has_data Connection.new process_message new_client
    read_payload vsx_tile_data language_code_from Player.new flags_connected
all_sent = refl

-- The player leaves when everything was sent.
unfoldable left : Connection (Unit {0}) Session
unfolding connection joined fill_output_buffer process_message
left = value_or connection (do
  r ← fill_output_buffer 100 connection
  s ← process_message (λ i. i) 7 (0x84 ∷ []) (session r.1)
  ok (with_session s r.1))

-- A buffer of seven bytes has room for the new flags of the player, but not for the three bytes of
-- the end behind them; then the connection claims to have no data.
end_waits :
    ((fill_output_buffer 7 left >>= λ r. ok (length r.0)) ≡ ok 5)
    × ((fill_output_buffer 7 left >>= λ r. has_data r.1) ≡ ok false)
    × ((fill_output_buffer 8 left >>= λ r. ok (length r.0)) ≡ ok 8)
unfolding left connection joined fill_output_buffer has_data Connection.new process_message
    new_client read_payload vsx_tile_data language_code_from Player.new flags_connected
    flags_next_turn
end_waits = (refl, refl, refl)

-- Seven entries make the table of eight chains grow; the second one of them is deleted again.
abbrev table_uses : List Use
table_uses =
    insert (record { id = 3; object = 0 })
    ∷ insert (record { id = 11; object = 1 })
    ∷ insert (record { id = 19; object = 2 })
    ∷ insert (record { id = 27; object = 3 })
    ∷ insert (record { id = 4; object = 4 })
    ∷ insert (record { id = 12; object = 5 })
    ∷ insert (record { id = 5; object = 6 })
    ∷ delete (record { id = 11; object = 1 })
    ∷ []

run_refines_example :
    (t : HashTable) × (run table_uses init ≡ some t)
    × ((key : ℕ) → get_entry t key ≡ map_after table_uses (λ key. none) key)
unfolding put_in take_out
run_refines_example =
    run_refines table_uses (refl, (refl, (refl, (refl, (refl, (refl, (refl, (refl, tt))))))))

start-IsSession : IsSession start
unfolding new_client
start-IsSession = record {
  games = tt;
  pending = tt;
  others = tt;
  persons = tt;
  people = tt;
  own = tt;
  clients = tt;
}

process_message-Holds_example :
    Holds IsSession (process_message (λ i. i) 6 new_player_message start)
process_message-Holds_example =
    process_message-Holds (λ i. i) 6 new_player_message start start-IsSession
      (
        omega arith,
        (
          omega arith,
          (
            omega arith,
            (
              omega arith,
              (
                omega arith,
                (
                  omega arith,
                  (
                    omega arith,
                    (
                      omega arith,
                      (omega arith, (omega arith, (omega arith, (omega arith, (omega arith, tt))))),
                    ),
                  ),
                ),
              ),
            ),
          ),
        ),
      )
