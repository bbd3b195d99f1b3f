-- ===== src/Conversation/Grows.antt =====
-- Operations only add signals, and most of them leave alone what the set of conversations and the
-- people refer to.
use verda_sxtelo.Common.{
  append-nil, append-append, ℕ, zero, suc, ◌+◌, ◌%◌, ◌≡◌, refl, sym, ◌∙◌, ap, subst, Bool, true,
  false, ◌&&◌, Option, none, some, none-ne-some, List, [], ◌∷◌, ◌++◌, ◌>>=◌, length, length-set,
  get_elem?, set, take, ◌==◌, leb, Bool-cases, inl, inr, if◌then◌else◌,
}
use verda_sxtelo.Common.Int.{ℤ, pos, to_int16, ◌==ℤ◌}
use verda_sxtelo.Player.{Player, next_turn, typing, is_connected, change_flag}
use verda_sxtelo.Conversation.{
  Conversation, World, Signal, ChangedType, emit, player, store_flags, set_flag, set_flags,
  n_players, shouted, message_added, n_tiles_changed, tile_data_changed, tile_changed,
  player_changed,
}
use verda_sxtelo.Conversation.Players.{transfer, pass_turn, set_next_player}
use verda_sxtelo.Conversation.Talk.{raw_length, add_message, set_typing, is_shouting, shout}
use verda_sxtelo.Conversation.Options.{has_started, clamp_n_tiles, set_n_tiles, set_tile_data}
use verda_sxtelo.Conversation.Tiles.{move_tile, give_turn}

-- What others see of a conversation.
pub record Alike (c d : Conversation) : Type 0 where
  pub state : d.state ≡ c.state
  pub n_players : length d.players ≡ length c.players
  pub n_connected : d.n_connected_players ≡ c.n_connected_players
  pub in_play : d.n_tiles_in_play ≡ c.n_tiles_in_play

pub Alike-refl : (c : Conversation) → Alike c c
Alike-refl c = record { state = refl; n_players = refl; n_connected = refl; in_play = refl }

pub Alike-trans : {c d e : Conversation} → Alike c d → Alike d e → Alike c e
Alike-trans a b = record {
  state = b.state ∙ a.state;
  n_players = b.n_players ∙ a.n_players;
  n_connected = b.n_connected ∙ a.n_connected;
  in_play = b.in_play ∙ a.in_play;
}

pub record Grows (w w' : World) : Type 0 where
  pub alike : Alike w.conversation w'.conversation
  pub signals : List Signal
  pub grown : w'.signals ≡ w.signals ++ signals

pub Grows-refl : (w : World) → Grows w w
Grows-refl w = record {
  alike = Alike-refl w.conversation;
  signals = [];
  grown = sym (append-nil w.signals);
}

pub Grows-trans : {u v w : World} → Grows u v → Grows v w → Grows u w
Grows-trans {u} g h = record {
  alike = Alike-trans g.alike h.alike;
  signals = g.signals ++ h.signals;
  grown = h.grown ∙ ap (λ s. s ++ h.signals) g.grown ∙ append-append u.signals g.signals h.signals;
}

-- A change that is announced.
pub emit-Grows :
    (kind : ChangedType) (num : Option ℕ) (c : Conversation) (w : World)
    → Alike w.conversation c
    → Grows w (emit kind num (record w { conversation = c }))
unfolding emit
emit-Grows kind num c w a = record { alike = a; signals = _; grown = refl }

-- A change that is not.
pub quiet-Grows :
    (c : Conversation) (w : World)
    → Alike w.conversation c
    → Grows w (record w { conversation = c })
quiet-Grows c w a = record { alike = a; signals = []; grown = sym (append-nil w.signals) }

pub some-same {ℓ} : {A : Type ℓ} {a b : A} → some a ≡ some b → a ≡ b
some-same h = cc

pub bind_some {ℓ κ} :
    {A : Type ℓ} {B : Type κ} (o : Option A) (f : A → Option B) (b : B)
    → (o >>= f) ≡ some b
    → (a : A) × (o ≡ some a) × (f a ≡ some b)
bind_some none f b h = absurd (none-ne-some b h)
bind_some (some a) f b h = (a, refl, h)

module _ {w w' : World} where
  pub stays : some w ≡ some w' → Grows w w'
  stays h = subst (Grows w) (some-same h) (Grows-refl w)

  pub becomes : {v : World} → Grows w v → some v ≡ some w' → Grows w w'
  becomes g h = subst (Grows w) (some-same h) g

  -- Either branch of a test.
  pub either :
      (b : Bool) (u v : World)
      → Grows w u
      → Grows w v
      → some (if b then u else v) ≡ some w'
      → Grows w w'
  either true u v g k h = becomes g h
  either false u v g k h = becomes k h

store_flags-Grows : (i f : ℕ) (p : Player) (w : World) → Grows w (store_flags i p f w)
unfolding store_flags
store_flags-Grows i f p w = elim (Bool-cases (p.flags == f)) [
  | inl e ↦ rw (store_flags, e) (Grows-refl w)
  | inr e ↦
      rw (store_flags, e)
        (emit-Grows player_changed (some p.num)
          (record (w.conversation) {
            players = set w.conversation.players i (record p { flags = f });
          })
          w
          (record {
            state = refl;
            n_players = length-set w.conversation.players i (record p { flags = f });
            n_connected = refl;
            in_play = refl;
          }))
]

pub set_flag-Grows :
    (i flag : ℕ) (value : Bool) (w w' : World) → set_flag i flag value w ≡ some w' → Grows w w'
unfolding set_flag
set_flag-Grows i flag value w w' h =
    let (p, e, r) = bind_some (player i w) _ w' h in
    becomes (store_flags-Grows i (change_flag p.flags flag value) p w) r

pub set_flags-Grows : (i flags : ℕ) (w w' : World) → set_flags i flags w ≡ some w' → Grows w w'
unfolding set_flags
set_flags-Grows i flags w w' h =
    let (p, e, r) = bind_some (player i w) _ w' h in becomes (store_flags-Grows i flags p w) r

transfer-Grows : (old next : ℕ) (w w' : World) → transfer old next w ≡ some w' → Grows w w'
unfolding transfer
transfer-Grows old next w w' h =
    let (v, e, r) = bind_some (set_flag old next_turn false w) _ w' h in
    Grows-trans (set_flag-Grows old next_turn false w v e)
      (set_flag-Grows next next_turn true v w' r)

pass_turn-Grows :
    (fuel old next : ℕ) (w w' : World) → pass_turn fuel old next w ≡ some w' → Grows w w'
unfolding pass_turn
pass_turn-Grows zero old next w w' h = absurd (none-ne-some w' h)
pass_turn-Grows (suc fuel) old next w w' h =
    let i = (next + 1) % n_players w.conversation in
    elim (Bool-cases (i == old)) [
      | inl e ↦ stays (rw e at h)
      | inr e ↦
          let (p, q, r) = bind_some (player i w) _ w' (rw e at h) in
          elim (Bool-cases (is_connected p)) [
            | inl c ↦ transfer-Grows old i w w' (rw c at r)
            | inr c ↦ pass_turn-Grows fuel old i w w' (rw c at r)
          ]
    ]

pub set_next_player-Grows : (old : ℕ) (w w' : World) → set_next_player old w ≡ some w' → Grows w w'
unfolding set_next_player
set_next_player-Grows old w w' h =
    elim (Bool-cases (leb w.conversation.total_n_tiles w.conversation.n_tiles_in_play)) [
      | inl e ↦ set_flag-Grows old next_turn false w w' (rw e at h)
      | inr e ↦ pass_turn-Grows (n_players w.conversation) old old w w' (rw e at h)
    ]

pub give_turn-Grows :
    (first : Bool) (i : ℕ) (w w' : World) → give_turn first i w ≡ some w' → Grows w w'
unfolding give_turn
give_turn-Grows first i w w' h =
    elim (Bool-cases (first && (w.conversation.n_connected_players == 1))) [
      | inl e ↦ set_flag-Grows i next_turn true w w' (rw e at h)
      | inr e ↦ set_next_player-Grows i w w' (rw e at h)
    ]

pub set_typing-Grows : (i : ℕ) (v : Bool) (w w' : World) → set_typing i v w ≡ some w' → Grows w w'
unfolding set_typing
set_typing-Grows i v w w' h =
    let (p, e, r) = bind_some (player i w) _ w' h in
    elim (Bool-cases (is_connected p)) [
      | inr c ↦ stays (rw c at r)
      | inl c ↦ set_flag-Grows i typing v w w' (rw c at r)
    ]

pub shout-Grows : (clock i : ℕ) (w w' : World) → shout clock i w ≡ some w' → Grows w w'
unfolding shout
shout-Grows clock i w w' h =
    let (p, e, r) = bind_some (player i w) _ w' h in
    let g =
      emit-Grows shouted (some i) (record (w.conversation) { last_shout_time = clock }) w
        (record { state = refl; n_players = refl; n_connected = refl; in_play = refl }) in
    elim (Bool-cases (is_connected p)) [
      | inr c ↦ stays (rw c at r)
      | inl c ↦ either (is_shouting clock w.conversation) w _ (Grows-refl w) g (rw c at r)
    ]

pub add_message-Grows :
    (i : ℕ) (text : List ℕ) (w w' : World) → add_message i text w ≡ some w' → Grows w w'
unfolding add_message
add_message-Grows i text w w' h =
    let (p, e, r) = bind_some (player i w) _ w' h in
    elim (Bool-cases (is_connected p)) [
      | inr c ↦ stays (rw c at r)
      | inl c ↦
          let (n, k, s) = bind_some (raw_length text) _ w' (rw c at r) in
          becomes
            (emit-Grows message_added none
              (record (w.conversation) {
                messages =
                    w.conversation.messages ++ (record { player_num = i; text = take n text } ∷ []);
              })
              w (record { state = refl; n_players = refl; n_connected = refl; in_play = refl }))
            s
    ]

pub set_n_tiles-Grows : (i : ℕ) (n : ℤ) (w w' : World) → set_n_tiles i n w ≡ some w' → Grows w w'
unfolding set_n_tiles
set_n_tiles-Grows i n w w' h =
    let (p, e, r) = bind_some (player i w) _ w' h in
    let g =
      emit-Grows n_tiles_changed none (record (w.conversation) { total_n_tiles = clamp_n_tiles n })
        w (record { state = refl; n_players = refl; n_connected = refl; in_play = refl }) in
    elim (Bool-cases (is_connected p)) [
      | inr c ↦ stays (rw c at r)
      | inl c ↦ elim (Bool-cases (has_started w.conversation.state)) [
        | inl t ↦ stays (rw (c, t) at r)
        | inr t ↦
            either (clamp_n_tiles n == w.conversation.total_n_tiles) w _ (Grows-refl w) g
              (rw (c, t) at r)
      ]
    ]

pub set_tile_data-Grows :
    (i lang : ℕ) (w w' : World) → set_tile_data i lang w ≡ some w' → Grows w w'
unfolding set_tile_data
set_tile_data-Grows i lang w w' h =
    let (p, e, r) = bind_some (player i w) _ w' h in
    let g =
      emit-Grows tile_data_changed none (record (w.conversation) { tile_data = lang }) w
        (record { state = refl; n_players = refl; n_connected = refl; in_play = refl }) in
    elim (Bool-cases (is_connected p)) [
      | inr c ↦ stays (rw c at r)
      | inl c ↦ elim (Bool-cases (has_started w.conversation.state)) [
        | inl t ↦ stays (rw (c, t) at r)
        | inr t ↦ either (w.conversation.tile_data == lang) w _ (Grows-refl w) g (rw (c, t) at r)
      ]
    ]

pub move_tile-Grows :
    (i tile_num : ℕ) (x y : ℤ) (w w' : World) → move_tile i tile_num x y w ≡ some w' → Grows w w'
unfolding move_tile
move_tile-Grows i tile_num x y w w' h =
    let (t, e, r) = bind_some (get_elem? w.conversation.tiles tile_num) _ w' h in
    either ((t.x ==ℤ x) && (t.y ==ℤ y)) w _ (Grows-refl w)
      (emit-Grows tile_changed (some tile_num)
        (record (w.conversation) {
          tiles =
              set w.conversation.tiles tile_num
                (record t { x = to_int16 x; y = to_int16 y; last_player = to_int16 (pos i) });
        })
        w (record { state = refl; n_players = refl; n_connected = refl; in_play = refl }))
      r
