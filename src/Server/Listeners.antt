-- ===== src/Server/Listeners.antt =====
-- What the listener of the set of conversations keeps, as the signals of one operation reach it.
use verda_sxtelo.Common.{
  All-map, ℕ, ◌≡◌, ◌≢◌, sym, subst, true-ne-false, true, false, ◌&&◌, List, [], ◌∷◌, ◌==◌, ==_iff,
  ==-false, Bool-cases, inl, inr, ◌⊎◌, All,
}
use verda_sxtelo.Conversation.{Signal}
use verda_sxtelo.Conversation.Options.{has_started}
use verda_sxtelo.Server.{
  Room, ConversationSet, is_room_of, remove_room, remove_number, close_room, drop_empty,
  set_changed, is_player_changed, conversation_is_empty,
}
use verda_sxtelo.Server.Effects.{Has, IsStart, IsEnd}

module _ (i : ℕ) (P : ℕ → Type 0) where
  abbrev Rooms : List Room → Type 0
  Rooms rooms = All (λ (r : Room). P r.conversation) rooms

  here : (rooms : List Room) → is_room_of i rooms ≡ true → Rooms rooms → P i
  unfolding is_room_of
  here [] e a = absurd (true-ne-false (sym e))
  here (r ∷ rooms) e (h, a) = elim (Bool-cases (r.conversation == i)) [
    | inl t ↦ subst P ((==_iff r.conversation i).0 t) h
    | inr t ↦ here rooms (rw t at e) a
  ]

module _ (i : ℕ) (P Q : ℕ → Type 0) (k : (j : ℕ) → P j → j ≢ i → Q j) where
  removed_room :
      (rooms : List Room)
      → All (λ (r : Room). P r.conversation) rooms
      → All (λ (r : Room). Q r.conversation) (remove_room i rooms)
  unfolding remove_room
  removed_room [] a = tt
  removed_room (r ∷ rooms) (h, a) = elim (Bool-cases (r.conversation == i)) [
    | inl t ↦ rw t (removed_room rooms a)
    | inr t ↦ rw t (k r.conversation h (==-false r.conversation i t), removed_room rooms a)
  ]

  removed_number : (ns : List ℕ) → All P ns → All Q (remove_number i ns)
  unfolding remove_number
  removed_number [] a = tt
  removed_number (n ∷ ns) (h, a) = elim (Bool-cases (n == i)) [
    | inl t ↦ rw t (removed_number ns a)
    | inr t ↦ rw t (k n h (==-false n i t), removed_number ns a)
  ]

  absent_room :
      (rooms : List Room)
      → is_room_of i rooms ≡ false
      → All (λ (r : Room). P r.conversation) rooms
      → All (λ (r : Room). Q r.conversation) rooms
  unfolding is_room_of
  absent_room [] e a = tt
  absent_room (r ∷ rooms) e (h, a) = elim (Bool-cases (r.conversation == i)) [
    | inl t ↦ absurd (true-ne-false (rw t at e))
    | inr t ↦ (k r.conversation h (==-false r.conversation i t), absent_room rooms (rw t at e) a)
  ]

-- `i` is the conversation of the signals. `A` holds of a conversation that awaits its start, and
-- `B` of one that is not empty; of the conversation `i` they may have ceased to hold, where a
-- signal is still to come that says so.
module _ (i : ℕ) (A B : ℕ → Type 0) where
  abbrev OtherOk : List Signal → ℕ → Type 0
  OtherOk rest j = B j ⊎ (j ≡ i) × Has IsEnd rest

  abbrev Waiting : List Signal → ℕ → Type 0
  Waiting rest j = A j ⊎ (j ≡ i) × Has IsStart rest

  abbrev PendingOk : List Signal → List Signal → ℕ → Type 0
  PendingOk starts ends j = Waiting starts j × OtherOk ends j

  pub record Listed (starts ends : List Signal) (cs : ConversationSet) : Type 0 where
    pub pending : All (λ (r : Room). PendingOk starts ends r.conversation) cs.pending
    pub others : All (OtherOk ends) cs.others

  elsewhere-Waiting :
      (s : Signal) (rest : List Signal) (j : ℕ) → Waiting (s ∷ rest) j → j ≢ i → Waiting rest j
  elsewhere-Waiting s rest j (inl a) n = inl a
  elsewhere-Waiting s rest j (inr (e, h)) n = absurd (n e)

  elsewhere_other :
      (s : Signal) (rest : List Signal) (j : ℕ) → OtherOk (s ∷ rest) j → j ≢ i → OtherOk rest j
  elsewhere_other s rest j (inl a) n = inl a
  elsewhere_other s rest j (inr (e, h)) n = absurd (n e)

  later-Waiting :
      (s : Signal) (rest : List Signal) (j : ℕ)
      → has_started s.seen.state ≡ false
      → Waiting (s ∷ rest) j
      → Waiting rest j
  unfolding has_started
  later-Waiting s rest j f (inl a) = inl a
  later-Waiting s rest j f (inr (e, inl h)) = absurd (true-ne-false (rw h at f))
  later-Waiting s rest j f (inr (e, inr h)) = inr (e, h)

  close_room-Listed :
      (s : Signal) (rest ends : List Signal) (cs : ConversationSet)
      → Listed (s ∷ rest) ends cs
      → Listed rest ends (close_room i s cs)
  unfolding close_room
  close_room-Listed s rest ends cs l = elim (Bool-cases (is_room_of i cs.pending)) [
    | inr f ↦
        simp (close_room, f)
          (record {
            pending =
                absent_room i (PendingOk (s ∷ rest) ends) (PendingOk rest ends)
                  (λ j (w, o) n. (elsewhere-Waiting s rest j w n, o)) cs.pending f l.pending;
            others = l.others;
          })
    | inl t ↦ elim (Bool-cases (has_started s.seen.state)) [
      | inl g ↦
          simp (close_room, t, g)
            (record {
              pending =
                  removed_room i (PendingOk (s ∷ rest) ends) (PendingOk rest ends)
                    (λ j (w, o) n. (elsewhere-Waiting s rest j w n, o)) cs.pending l.pending;
              others = ((here i (PendingOk (s ∷ rest) ends) cs.pending t l.pending).1, l.others);
            })
      | inr g ↦
          simp (close_room, t, g)
            (record {
              pending =
                  All-map (λ (r : Room). PendingOk (s ∷ rest) ends r.conversation)
                    (λ (r : Room). PendingOk rest ends r.conversation) cs.pending
                    (λ r (w, o). (later-Waiting s rest r.conversation g w, o)) l.pending;
              others = l.others;
            })
    ]
  ]

  later_other :
      (s : Signal) (rest : List Signal) (j : ℕ)
      → (is_player_changed s.kind && conversation_is_empty s.seen.players) ≡ false
      → OtherOk (s ∷ rest) j
      → OtherOk rest j
  later_other s rest j f (inl a) = inl a
  later_other s rest j f (inr (e, inl (h, k))) = absurd (true-ne-false (rw (h, k) at f))
  later_other s rest j f (inr (e, inr h)) = inr (e, h)

  drop_empty-Listed :
      (s : Signal) (starts rest : List Signal) (cs : ConversationSet)
      → Listed starts (s ∷ rest) cs
      → Listed starts rest (drop_empty i s cs)
  unfolding drop_empty
  drop_empty-Listed s starts rest cs l =
      elim (Bool-cases (is_player_changed s.kind && conversation_is_empty s.seen.players)) [
        | inl t ↦
            simp (drop_empty, t)
              (record {
                pending =
                    removed_room i (PendingOk starts (s ∷ rest)) (PendingOk starts rest)
                      (λ j (w, o) n. (w, elsewhere_other s rest j o n)) cs.pending l.pending;
                others =
                    removed_number i (OtherOk (s ∷ rest)) (OtherOk rest) (elsewhere_other s rest)
                      cs.others l.others;
              })
        | inr f ↦
            simp (drop_empty, f)
              (record {
                pending =
                    All-map (λ (r : Room). PendingOk starts (s ∷ rest) r.conversation)
                      (λ (r : Room). PendingOk starts rest r.conversation) cs.pending
                      (λ r (w, o). (w, later_other s rest r.conversation f o)) l.pending;
                others =
                    All-map (OtherOk (s ∷ rest)) (OtherOk rest) cs.others
                      (λ j o. later_other s rest j f o) l.others;
              })
      ]

  pub set_changed-Listed :
      (s : Signal) (rest : List Signal) (cs : ConversationSet)
      → Listed (s ∷ rest) (s ∷ rest) cs
      → Listed rest rest (set_changed i s cs)
  unfolding set_changed
  set_changed-Listed s rest cs l =
      drop_empty-Listed s rest rest (close_room i s cs) (close_room-Listed s rest (s ∷ rest) cs l)
