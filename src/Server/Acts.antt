-- ===== src/Server/Acts.antt =====
-- The commands of a connection that has a person, one by one.
use verda_sxtelo.Common.{
  ℕ, ◌<◌, ◌≡◌, refl, sym, ◌∙◌, subst, arith, true, false, Option, none, some, List, [], ◌∷◌,
  Bool-cases, inl, inr, All, leb, leb-false→lt, if◌then◌else◌,
}
use verda_sxtelo.Common.Int.{pos}
use verda_sxtelo.Conversation.{Conversation, World, n_players}
use verda_sxtelo.Conversation.Valid.{IsSound}
use verda_sxtelo.Frames.{Result, ok, refused, ◌>>=◌}
use verda_sxtelo.Server.{Session, required}
use verda_sxtelo.Server.People.{leave_conversation}
use verda_sxtelo.Server.Own.{own_conversation}
use verda_sxtelo.Server.Playing.{activate_person, ensure_empty_payload, as_player, simple_command}
use verda_sxtelo.Server.Effects.{Affects, calm}
use verda_sxtelo.TileData.{get_for_language_code}
use verda_sxtelo.Proto.{Item, Kind, uint8, int16, string, read_payload}
use verda_sxtelo.Conversation.Players.{player_left}
use verda_sxtelo.Conversation.Talk.{add_message, set_typing, shout}
use verda_sxtelo.Conversation.Options.{set_n_tiles, set_tile_data}
use verda_sxtelo.Conversation.Tiles.{turn, move_tile}
use verda_sxtelo.Conversation.Keeps.{
  shout-IsSound, add_message-IsSound, set_n_tiles-IsSound, set_tile_data-IsSound, move_tile-IsSound,
  set_typing-IsSound,
}
use verda_sxtelo.Conversation.Grows.{
  set_typing-Grows, shout-Grows, add_message-Grows, set_n_tiles-Grows, set_tile_data-Grows,
  move_tile-Grows,
}
use verda_sxtelo.Server.Arguments.{number_arg, integer_arg, text_arg}
use verda_sxtelo.Server.Playing.{
  handle_keep_alive, handle_leave, handle_start_typing, handle_stop_typing, handle_send_message,
  handle_move_tile, handle_turn, handle_shout, handle_set_n_tiles, handle_set_language,
}
use verda_sxtelo.Server.Effects.{Returns-Affects}
use verda_sxtelo.Server.Invariant.{IsSession, IsPlaying, Holds, bind-Holds}
use verda_sxtelo.Server.Leaving.{player_left-Affects}
use verda_sxtelo.Server.Turning.{turn-Affects}
use verda_sxtelo.Server.Plays.{activate_person-Holds, own_lem, as_player-Holds, forget}
use verda_sxtelo.Server.Readings.{language-bound, text-Kept}

ok-same {ℓ} : {A : Type ℓ} {a b : A} → ok a ≡ ok b → a ≡ b
ok-same h = cc

module _ (clock : ℕ) (payload : List ℕ) (s : Session) (v : IsSession s) where
  simple_command-Holds :
      (f : ℕ → World → Option World)
      → ((i : ℕ) (c : Conversation) → i < n_players c → IsSound c → Affects c (f i (calm c)))
      → Holds IsPlaying (simple_command clock f payload s)
  unfolding simple_command ensure_empty_payload
  simple_command-Holds f k = with_payload payload
    where
      with_payload :
          (payload : List ℕ)
          → Holds IsPlaying (
              ensure_empty_payload payload s >>= λ s₀.
              activate_person clock s₀ >>= λ s₁. as_player f s₁)
      with_payload (b ∷ payload) = tt
      with_payload [] =
          bind-Holds IsPlaying IsPlaying (activate_person clock s) (as_player f)
            (activate_person-Holds clock s v) (λ t p. as_player-Holds f t (λ i c o. k i c) p)

  pub keep_alive-Holds : Holds IsSession (handle_keep_alive clock payload s)
  unfolding handle_keep_alive ensure_empty_payload
  keep_alive-Holds = with_payload payload
    where
      with_payload :
          (payload : List ℕ)
          → Holds IsSession (ensure_empty_payload payload s >>= activate_person clock)
      with_payload (b ∷ payload) = tt
      with_payload [] = forget (activate_person clock s) (activate_person-Holds clock s v)

  pub leave-Holds : Holds IsSession (handle_leave clock payload s)
  unfolding handle_leave leave_conversation as_player simple_command
  leave-Holds =
      forget (simple_command clock player_left payload s)
        (simple_command-Holds player_left (λ i c l h. player_left-Affects i c l h))

  pub start_typing-Holds : Holds IsSession (handle_start_typing clock payload s)
  unfolding handle_start_typing
  start_typing-Holds = forget _ (
      simple_command-Holds (λ i. set_typing i true)
        (λ i c l h.
          Returns-Affects c _ (set_typing-IsSound i (calm c) l h true)
            (set_typing-Grows i true (calm c))))

  pub stop_typing-Holds : Holds IsSession (handle_stop_typing clock payload s)
  unfolding handle_stop_typing
  stop_typing-Holds = forget _ (
      simple_command-Holds (λ i. set_typing i false)
        (λ i c l h.
          Returns-Affects c _ (set_typing-IsSound i (calm c) l h false)
            (set_typing-Grows i false (calm c))))

  pub turn-Holds : (rand : ℕ → ℕ) → Holds IsSession (handle_turn rand clock payload s)
  unfolding handle_turn
  turn-Holds rand = forget _ (simple_command-Holds (turn rand clock) (turn-Affects rand clock))

  pub shout-Holds : Holds IsSession (handle_shout clock payload s)
  unfolding handle_shout
  shout-Holds = forget _ (
      simple_command-Holds (shout clock) (λ i c l h.
        Returns-Affects c _ (shout-IsSound i (calm c) l h clock) (shout-Grows clock i (calm c))))

  -- A command with arguments of a player.
  command-Holds :
      (kinds : List Kind) (f : List Item → Session → Result Session)
      → ((items : List Item)
          → read_payload kinds payload ≡ some items
          → (t : Session) → IsPlaying t
          → Holds IsSession (f items t))
      → Holds IsSession
          (required (read_payload kinds payload) >>= λ items. activate_person clock s >>= f items)
  command-Holds kinds f k = with_items (read_payload kinds payload) refl
    where
      with_items :
          (o : Option (List Item))
          → read_payload kinds payload ≡ o
          → Holds IsSession (required o >>= λ items. activate_person clock s >>= f items)
      with_items none e = tt
      with_items (some items) e =
          bind-Holds IsPlaying IsSession (activate_person clock s) (f items)
            (activate_person-Holds clock s v) (k items e)

  pub set_n_tiles-Holds : Holds IsSession (handle_set_n_tiles clock payload s)
  unfolding handle_set_n_tiles
  set_n_tiles-Holds =
      command-Holds (uint8 ∷ [])
        (λ items. as_player (λ i. set_n_tiles i (pos (number_arg 0 items))))
        (λ items e t p. forget _ (
          as_player-Holds (λ i. set_n_tiles i (pos (number_arg 0 items))) t
            (λ i c o l h.
              Returns-Affects c _ (set_n_tiles-IsSound i (calm c) l h (pos (number_arg 0 items)))
                (set_n_tiles-Grows i (pos (number_arg 0 items)) (calm c)))
            p))

  pub move_tile-Holds : Holds IsSession (handle_move_tile clock payload s)
  unfolding handle_move_tile
  move_tile-Holds =
      command-Holds (uint8 ∷ int16 ∷ int16 ∷ [])
        (λ items t. own_conversation t >>= λ c.
          if leb c.n_tiles_in_play (number_arg 0 items)
          then refused
          else as_player
              (λ i. move_tile i (number_arg 0 items) (integer_arg 1 items) (integer_arg 2 items)) t)
        (λ items e t p. moved items t p)
    where
      moved :
          (items : List Item) (t : Session)
          → IsPlaying t
          → Holds IsSession (
              own_conversation t >>= λ c.
              if leb c.n_tiles_in_play (number_arg 0 items)
              then refused
              else as_player
                  (λ i.
                    move_tile i (number_arg 0 items) (integer_arg 1 items) (integer_arg 2 items))
                  t)
      moved items t p =
          let o = own_lem t p in
          let n = number_arg 0 items in
          let f : ℕ → World → Option World =
            λ i. move_tile i n (integer_arg 1 items) (integer_arg 2 items) in
          rw o.is_conversation (elim (Bool-cases (leb o.conversation.n_tiles_in_play n)) [
            | inl b ↦ rw b tt
            | inr b ↦ rw b (
                forget (as_player f t) (
                  as_player-Holds f t
                    (λ i c q l h.
                      let same : o.conversation ≡ c = ok-same (sym o.is_conversation ∙ q) in
                      let lt : n < c.n_tiles_in_play =
                        subst (λ (d : Conversation). n < d.n_tiles_in_play) same
                          (leb-false→lt o.conversation.n_tiles_in_play n b) in
                      Returns-Affects c _
                        (move_tile-IsSound i (calm c) l h n (integer_arg 1 items)
                          (integer_arg 2 items) (omega (arith, h.valid.played, h.valid.all_tiles)))
                        (move_tile-Grows i n (integer_arg 1 items) (integer_arg 2 items) (calm c)))
                    p))
          ])

  pub set_language-Holds : Holds IsSession (handle_set_language clock payload s)
  unfolding handle_set_language
  set_language-Holds =
      command-Holds (string ∷ [])
        (λ items t. elim (get_for_language_code (text_arg 0 items)) [
          | none ↦ ok t
          | some tile_data ↦ as_player (λ i. set_tile_data i tile_data) t
        ])
        (λ items e t p.
          chosen (text_arg 0 items) (get_for_language_code (text_arg 0 items)) refl t p)
    where
      chosen :
          (text : List ℕ) (o : Option ℕ)
          → get_for_language_code text ≡ o
          → (t : Session) → IsPlaying t
          → Holds IsSession (elim o [
            | none ↦ ok t
            | some tile_data ↦ as_player (λ i. set_tile_data i tile_data) t
          ])
      chosen text none e t (v, p) = v
      chosen text (some d) e t p = forget _ (
          as_player-Holds (λ i. set_tile_data i d) t
            (λ i c o l h.
              Returns-Affects c _ (set_tile_data-IsSound i (calm c) l h d (language-bound text d e))
                (set_tile_data-Grows i d (calm c)))
            p)

  pub send_message-Holds :
      All (λ b. b < 256) payload → Holds IsSession (handle_send_message clock payload s)
  unfolding handle_send_message
  send_message-Holds bytes =
      command-Holds (string ∷ [])
        (λ items t.
          as_player (λ i. add_message i (text_arg 0 items)) t
          >>= as_player (λ i. set_typing i false))
        (λ items e t p.
          let k = text-Kept payload items bytes e in
          bind-Holds IsPlaying IsSession (as_player (λ i. add_message i (text_arg 0 items)) t)
            (as_player (λ i. set_typing i false))
            (as_player-Holds (λ i. add_message i (text_arg 0 items)) t
              (λ i c o l h.
                Returns-Affects c _
                  (add_message-IsSound i (calm c) l h (text_arg 0 items) k.size k.result)
                  (add_message-Grows i (text_arg 0 items) (calm c)))
              p)
            (λ u q. forget _ (
              as_player-Holds (λ i. set_typing i false) u
                (λ i c o l h.
                  Returns-Affects c _ (set_typing-IsSound i (calm c) l h false)
                    (set_typing-Grows i false (calm c)))
                q)))
