-- ===== src/Server/Effects.antt =====
-- What the operations on a conversation mean for the server: what they keep, and what the signals
-- that they emit tell the set of conversations.
use verda_sxtelo.Common.{
  ◌≤◌, ◌<◌, ◌≡◌, ◌≢◌, sym, ◌∙◌, subst, arith, true, Option, some, List, [], ◌∷◌, ◌++◌, inl, inr,
  ◌⊎◌,
}
use verda_sxtelo.Conversation.{
  awaiting_start, in_progress, Conversation, World, Signal, n_players, max_players,
}
use verda_sxtelo.Conversation.Valid.{IsSound, Returns}
use verda_sxtelo.Conversation.Grows.{Grows}
use verda_sxtelo.Server.{conversation_is_empty, is_player_changed}

-- One of the signals.
abbrev pub Has : (Signal → Type 0) → List Signal → Type 0
Has P [] = ⊥
Has P (s ∷ signals) = P s ⊎ Has P signals

Has-left : (P : Signal → Type 0) (xs ys : List Signal) → Has P xs → Has P (xs ++ ys)
Has-left P [] ys h = absurd h
Has-left P (x ∷ xs) ys (inl h) = inl h
Has-left P (x ∷ xs) ys (inr h) = inr (Has-left P xs ys h)

pub Has-right : (P : Signal → Type 0) (xs ys : List Signal) → Has P ys → Has P (xs ++ ys)
Has-right P [] ys h = h
Has-right P (x ∷ xs) ys h = inr (Has-right P xs ys h)

pub Has-Grows :
    {w w' : World} (P : Signal → Type 0) → Grows w w' → Has P w.signals → Has P w'.signals
Has-Grows {w} P g h = subst (Has P) (sym g.grown) (Has-left P w.signals g.signals h)

-- A signal of a game that has started, and one of a game that everybody has left.
abbrev pub IsStart : Signal → Type 0
IsStart s = s.seen.state ≡ in_progress

abbrev pub IsEnd : Signal → Type 0
IsEnd s = (is_player_changed s.kind ≡ true) × (conversation_is_empty s.seen.players ≡ true)

-- A game that has not started has room.
abbrev pub HasRoom : Conversation → Type 0
HasRoom c = c.state ≡ awaiting_start → n_players c < max_players

-- Somebody is there, or no tile is.
abbrev pub HasCompany : Conversation → Type 0
HasCompany c = (0 < c.n_connected_players) ⊎ (c.n_tiles_in_play ≡ 0)

pub record Effect (c : Conversation) (w : World) : Type 0 where
  pub sound : IsSound w.conversation
  pub more : n_players c ≤ n_players w.conversation
  pub room : HasRoom c → HasRoom w.conversation
  pub announced : (w.conversation.state ≡ c.state) ⊎ Has IsStart w.signals
  pub company : HasCompany c → HasCompany w.conversation ⊎ Has IsEnd w.signals

abbrev pub calm : Conversation → World
calm c = record { conversation = c; signals = [] }

-- A call that returns with such an effect.
abbrev pub Affects : Conversation → Option World → Type 0
Affects c r = (w : World) × (r ≡ some w) × Effect c w

Grows-Effect :
    (c : Conversation) (w : World) → Grows (calm c) w → IsSound w.conversation → Effect c w
Grows-Effect c w g s = record {
  sound = s;
  more = omega (arith, g.alike.n_players);
  room = λ h e. omega (arith, g.alike.n_players, h (sym g.alike.state ∙ e));
  announced = inl g.alike.state;
  company = company;
}
  where
    company : HasCompany c → HasCompany w.conversation ⊎ Has IsEnd w.signals
    company (inl on) = inl (inl (omega (arith, g.alike.n_connected)))
    company (inr z) = inl (inr (g.alike.in_play ∙ z))

-- An operation that the others do not notice.
pub Returns-Affects :
    (c : Conversation) (r : Option World)
    → Returns r IsSound
    → ((w : World) → r ≡ some w → Grows (calm c) w)
    → Affects c r
Returns-Affects c r x g = (x.after, x.result, Grows-Effect c x.after (g x.after x.result) x.holds)

pub started_ne : in_progress ≢ awaiting_start
started_ne h = cc
