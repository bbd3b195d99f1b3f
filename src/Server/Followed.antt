-- ===== src/Server/Followed.antt =====
-- Pointers that are followed, and what a writer may return.
use verda_sxtelo.Common.{ℕ, ◌≤◌, arith, Option, none, some, List, length, get_elem?}
use verda_sxtelo.Proto.{Item, write_command, get_frame_header_length}
use verda_sxtelo.Proto.Command.{Written, frame_length, write_command-Written}
use verda_sxtelo.Frames.{Result, ok, refused, overrun, endless, ◌>>=◌}
use verda_sxtelo.Connection.{Connection}
use verda_sxtelo.Server.{Session, present}
use verda_sxtelo.Server.Own.{own_person, own_conversation}
use verda_sxtelo.Server.Writers.{wrote, own_player}

-- A pointer that was followed or was null.
abbrev pub Followed {ℓ} : {A : Type ℓ} → Result A → Type 0
Followed (ok a) = Unit {0}
Followed overrun = Unit {0}
Followed refused = ⊥
Followed endless = ⊥

pub present-Followed {ℓ} : {A : Type ℓ} (o : Option A) → Followed (present o)
present-Followed none = tt
present-Followed (some a) = tt

bind-Followed {ℓ κ} :
    {A : Type ℓ} {B : Type κ} (r : Result A) (f : A → Result B)
    → Followed r
    → ((a : A) → Followed (f a))
    → Followed (r >>= f)
bind-Followed (ok a) f h k = k a
bind-Followed overrun f h k = tt
bind-Followed refused f h k = h
bind-Followed endless f h k = h

pub own_person-Followed : (s : Session) → Followed (own_person s)
unfolding own_person
own_person-Followed s =
    bind-Followed (present s.client.person) (λ k. present (get_elem? s.server.persons k))
      (present-Followed s.client.person) (λ k. present-Followed (get_elem? s.server.persons k))

pub own_conversation-Followed : (s : Session) → Followed (own_conversation s)
unfolding own_conversation
own_conversation-Followed s =
    bind-Followed (own_person s) (λ p. present (get_elem? s.server.conversations p.conversation))
      (own_person-Followed s)
      (λ p. present-Followed (get_elem? s.server.conversations p.conversation))

pub own_player-Followed : (s : Session) → Followed (own_player s)
unfolding own_player
own_player-Followed s =
    bind-Followed (own_person s)
      (λ p. own_conversation s >>= λ c. present (get_elem? c.players p.player_num))
      (own_person-Followed s)
      (λ p.
        bind-Followed (own_conversation s) (λ c. present (get_elem? c.players p.player_num))
          (own_conversation-Followed s) (λ c. present-Followed (get_elem? c.players p.player_num)))

frame_pos : (items : List Item) → 1 ≤ frame_length items
unfolding get_frame_header_length
frame_pos items = ground arith

module _ {C : Type 0} where
  -- What a writer returns: it refuses, follows a null pointer, or writes `k` bytes at least, which
  -- fit the buffer.
  abbrev pub Fits : ℕ → ℕ → Result (Option (List ℕ × Connection C Session)) → Type 0
  Fits k size (ok none) = Unit {0}
  Fits k size (ok (some (bytes, conn))) = (k ≤ length bytes) × (length bytes ≤ size)
  Fits k size overrun = Unit {0}
  Fits k size refused = ⊥
  Fits k size endless = ⊥

  pub Fits-weaken :
      (size : ℕ) (r : Result (Option (List ℕ × Connection C Session)))
      → Fits 1 size r
      → Fits 0 size r
  Fits-weaken size (ok none) h = tt
  Fits-weaken size (ok (some (bytes, conn))) (a, b) = (omega arith, b)
  Fits-weaken size overrun h = tt
  Fits-weaken size refused h = h
  Fits-weaken size endless h = h

  pub bind-Fits {κ} :
      {A : Type κ} (k size : ℕ) (r : Result A)
      (f : A → Result (Option (List ℕ × Connection C Session)))
      → Followed r
      → ((a : A) → Fits k size (f a))
      → Fits k size (r >>= f)
  bind-Fits k size (ok a) f h g = g a
  bind-Fits k size overrun f h g = tt
  bind-Fits k size refused f h g = h
  bind-Fits k size endless f h g = h

  Written-Fits :
      (size : ℕ) (items : List Item) (o : Option (List ℕ)) (conn : Connection C Session)
      → Written size items o
      → Fits 1 size (wrote o conn)
  Written-Fits size items none conn h = tt
  Written-Fits size items (some bytes) conn (e, l) = (omega (arith, e, frame_pos items), l)

  pub wrote-Fits :
      (size command : ℕ) (items : List Item) (conn : Connection C Session)
      → Fits 1 size (wrote (write_command size command items) conn)
  wrote-Fits size command items conn =
      Written-Fits size items (write_command size command items) conn
        (write_command-Written size command items)
