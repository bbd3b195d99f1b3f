-- ===== src/Conversation/Valid.antt =====
-- What holds of a conversation between its operations, and what changing a player's flags does.
use verda_sxtelo.Common.{
  ℕ, zero, suc, ◌≤◌, ◌<◌, ◌≡◌, refl, sym, ◌∙◌, ap, subst, true-ne-false, ==_iff, arith, Bool, true,
  false, Option, some, List, [], ◌∷◌, All, length, length-set, get_elem?, set, ◌==◌, Bool-cases,
  inl, inr, ◌⊎◌,
}
use verda_sxtelo.Common.Count.{count, count-set, set_same, All-set}
use verda_sxtelo.TileData.{n_rooms}
use verda_sxtelo.Player.{
  Player, next_turn, typing, flags_connected, is_connected, has_next_turn, change_flag,
}
use verda_sxtelo.Player.Flags.{IsFlags, change_next_turn, change_typing}
use verda_sxtelo.Conversation.{
  State, awaiting_start, in_progress, start, Conversation, World, emit, player, store_flags,
  set_flag, max_players,
}

pub State-cases : (s : State) → (s ≡ awaiting_start) ⊎ (s ≡ in_progress)
State-cases awaiting_start = inl refl
State-cases in_progress = inr refl

-- The players are numbered in the order in which they joined.
abbrev pub Numbered : ℕ → List Player → Type 0
Numbered k [] = Unit {0}
Numbered k (p ∷ ps) = (p.num ≡ k) × Numbered (suc k) ps

abbrev pub HasFlags : Player → Type 0
HasFlags p = IsFlags p.flags

pub record IsValid (c : Conversation) : Type 0 where
  pub few : length c.players ≤ max_players
  pub numbered : Numbered 0 c.players
  pub flags : All HasFlags c.players
  pub connected : c.n_connected_players ≡ count is_connected c.players
  pub bag : length c.tiles ≡ 122
  pub language : c.tile_data < n_rooms
  pub played : c.n_tiles_in_play ≤ c.total_n_tiles
  pub some_tiles : 1 ≤ c.total_n_tiles
  pub all_tiles : c.total_n_tiles ≤ 122
  pub unstarted : c.state ≡ awaiting_start → c.n_tiles_in_play ≡ 0
  pub one_turn : count has_next_turn c.players ≤ 1
  pub no_turn : c.n_tiles_in_play ≡ 0 → count has_next_turn c.players ≡ 0

-- While there are tiles to turn and somebody is connected, somebody has the turn.
pub record HasTurn (c : Conversation) : Type 0 where
  pub held :
      0 < c.n_tiles_in_play
      → c.n_tiles_in_play < c.total_n_tiles
      → 0 < c.n_connected_players
      → 1 ≤ count has_next_turn c.players

abbrev pub with_players : Conversation → List Player → Conversation
with_players c ps = record c { players = ps }

-- Only flags were changed, and everybody is as connected as before.
pub record Reflagged (ps ps' : List Player) : Type 0 where
  pub same_length : length ps' ≡ length ps
  pub same_connected : count is_connected ps' ≡ count is_connected ps
  pub flags : All HasFlags ps'
  pub numbered : Numbered 0 ps → Numbered 0 ps'

pub Numbered-set :
    (k : ℕ) (ps : List Player) (i f : ℕ) (p : Player)
    → get_elem? ps i ≡ some p
    → Numbered k ps
    → Numbered k (set ps i (record p { flags = f }))
Numbered-set k [] i f p e n = n
Numbered-set k (q ∷ ps) zero f p e (h, n) = let d : q ≡ p = cc in (rw d at h, n)
Numbered-set k (q ∷ ps) (suc i) f p e (h, n) = (h, Numbered-set (suc k) ps i f p e n)

-- Flags that change without the connection.
pub set-Reflagged :
    (ps : List Player) (i f : ℕ) (p : Player)
    → get_elem? ps i ≡ some p
    → All HasFlags ps
    → IsFlags f
    → flags_connected f ≡ is_connected p
    → Reflagged ps (set ps i (record p { flags = f }))
set-Reflagged ps i f p e a h same = record {
  same_length = length-set ps i (record p { flags = f });
  same_connected = ground (arith, count-set is_connected ps i p (record p { flags = f }) e, same);
  flags = All-set HasFlags ps i (record p { flags = f }) a h;
  numbered = Numbered-set 0 ps i f p e;
}

pub Reflagged-trans : {ps qs rs : List Player} → Reflagged ps qs → Reflagged qs rs → Reflagged ps rs
Reflagged-trans r s = record {
  same_length = omega arith;
  same_connected = omega arith;
  flags = s.flags;
  numbered = λ n. s.numbered (r.numbered n);
}

pub Reflagged-refl : {ps : List Player} → All HasFlags ps → Reflagged ps ps
Reflagged-refl a = record {
  same_length = refl;
  same_connected = refl;
  flags = a;
  numbered = λ n. n;
}

clear_zero : (change_flag 0 next_turn false ≡ 0) × (change_flag 0 typing false ≡ 0)
unfolding change_flag
clear_zero = (refl, refl)

pub next_turn-IsFlags :
    (f : ℕ) (v : Bool)
    → IsFlags f
    → (v ≡ true → flags_connected f ≡ true)
    → IsFlags (change_flag f next_turn v)
next_turn-IsFlags f v h k =
    let c = change_next_turn f v h.small in
    record { small = c.small; left = λ e. gone v k (sym c.same_connected ∙ e) }
  where
    gone :
        (v : Bool)
        → (v ≡ true → flags_connected f ≡ true)
        → flags_connected f ≡ false
        → change_flag f next_turn v ≡ 0
    gone true k e = absurd (true-ne-false (sym (k refl) ∙ e))
    gone false k e = rw (h.left e) (clear_zero.0)

-- `vsx_conversation_set_flags` changes nothing but the flags of that player.
pub store_flags_lem :
    (i f : ℕ) (p : Player) (w : World)
    → player i w ≡ some p
    → (store_flags i p f w).conversation
      ≡ with_players w.conversation (set w.conversation.players i (record p { flags = f }))
unfolding store_flags emit player
store_flags_lem i f p w e = elim (Bool-cases (p.flags == f)) [
  | inl h ↦ rw (h, same h)
  | inr h ↦ rw h
]
  where
    same :
        (p.flags == f) ≡ true
        → set w.conversation.players i (record p { flags = f }) ≡ w.conversation.players
    same h =
        subst (λ g. set w.conversation.players i (record p { flags = g }) ≡ w.conversation.players)
          ((==_iff p.flags f).0 h) (set_same w.conversation.players i p e)

-- What a change of one flag leaves.
pub record FlagSet (i flag : ℕ) (v : Bool) (p : Player) (w : World) : Type 0 where
  pub after : World
  pub result : set_flag i flag v w ≡ some after
  pub conversation :
      after.conversation
      ≡ with_players w.conversation
          (set w.conversation.players i (record p { flags = change_flag p.flags flag v }))

pub set_flag_lem :
    (i flag : ℕ) (v : Bool) (p : Player) (w : World) → player i w ≡ some p → FlagSet i flag v p w
unfolding set_flag
set_flag_lem i flag v p w e = record {
  after = store_flags i p (change_flag p.flags flag v) w;
  result = rw e;
  conversation = store_flags_lem i (change_flag p.flags flag v) p w e;
}

-- A call that returns, in a state with the property.
pub record Returns (r : Option World) (P : Conversation → Type 0) : Type 0 where
  pub after : World
  pub result : r ≡ some after
  pub holds : P after.conversation

-- The whole invariant.
pub record IsSound (c : Conversation) : Type 0 where
  pub valid : IsValid c
  pub turn : HasTurn c

-- The invariant after the players changed.
pub players-IsValid :
    (c : Conversation) (qs : List Player) (m : ℕ)
    → IsValid c
    → length qs ≤ max_players
    → Numbered 0 qs
    → All HasFlags qs
    → m ≡ count is_connected qs
    → count has_next_turn qs ≤ 1
    → (c.n_tiles_in_play ≡ 0 → count has_next_turn qs ≡ 0)
    → IsValid (record c { players = qs; n_connected_players = m })
players-IsValid c qs m v few numbered flags conn one none' = record {
  few = few;
  numbered = numbered;
  flags = flags;
  connected = conn;
  bag = v.bag;
  language = v.language;
  played = v.played;
  some_tiles = v.some_tiles;
  all_tiles = v.all_tiles;
  unstarted = v.unstarted;
  one_turn = one;
  no_turn = none';
}

-- Starting the game keeps the invariant.
pub start-IsSound : (w : World) → IsSound w.conversation → IsSound (start w).conversation
unfolding start emit
start-IsSound w s = elim (State-cases w.conversation.state) [
  | inr e ↦ rw (e, start) s
  | inl e ↦
      rw (e, start)
        (record {
          valid = record {
            few = s.valid.few;
            numbered = s.valid.numbered;
            flags = s.valid.flags;
            connected = s.valid.connected;
            bag = s.valid.bag;
            language = s.valid.language;
            played = s.valid.played;
            some_tiles = s.valid.some_tiles;
            all_tiles = s.valid.all_tiles;
            unstarted = λ h. s.valid.unstarted e;
            one_turn = s.valid.one_turn;
            no_turn = s.valid.no_turn;
          };
          turn = record { held = s.turn.held };
        })
]

pub start_lem :
    (w : World) → (start w).conversation ≡ record (w.conversation) { state = in_progress }
unfolding start emit
start_lem w = elim (State-cases w.conversation.state) [
  | inl e ↦ rw (e, start)
  | inr e ↦ rw (e, start) (ap (λ t. record (w.conversation) { state = t }) e)
]

pub typing-IsFlags :
    (f : ℕ) (v : Bool) → IsFlags f → flags_connected f ≡ true → IsFlags (change_flag f typing v)
typing-IsFlags f v h on =
    let c = change_typing f v h.small in
    record {
      small = c.small;
      left = λ e. absurd (true-ne-false (sym on ∙ sym c.same_connected ∙ e));
    }
