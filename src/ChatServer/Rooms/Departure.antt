-- ===== src/ChatServer/Rooms/Departure.antt =====
-- What taking a session out of a room does to the agreement of the rooms and the sessions, in
-- `join_room` and `leave_room` of src/ChatServer.cpp.
use cherry_recorder_server.Prelude.{
  ℕ, String, Bool, true, false, some, ◌≡◌, ◌≢◌, refl, sym, ◌∙◌, arith, str_eq, str_eq-ne, eq_iff,
  if◌then◌else◌, inl, inr, Bool-cases,
}
use cherry_recorder_server.StringMap
use cherry_recorder_server.IdSet.{contains, contains-erase}
use cherry_recorder_server.ChatRoom.{ChatRoom}
use cherry_recorder_server.ChatRoom.Membership.{leave-room}
use cherry_recorder_server.ChatServer.{ChatServer}
use cherry_recorder_server.ChatServer.Rooms.{depart}
use cherry_recorder_server.ChatServer.Rooms.Membership.{
  IsConsistent, depart-rooms, depart-current_room,
}

-- A property of both branches
pub if_lemma {ℓ} :
    (P : ChatServer → Type ℓ) (b : Bool) (v w : ChatServer)
    → (b ≡ true → P v)
    → (b ≡ false → P w)
    → P (if b then v else w)
if_lemma P true v w p q = p refl
if_lemma P false v w p q = q refl

pub if_lemma_fst {ℓ} :
    (P : ChatServer → Type ℓ) (b : Bool) (v w : ChatServer × Bool)
    → P v.0
    → P w.0
    → P (if b then v else w).0
if_lemma_fst P true v w p q = p
if_lemma_fst P false v w p q = q

-- What stands under a name after somebody left a room: a room that stood there before, and holds
-- no new participant.
module _ (name : String) (s : ℕ) (room : ChatRoom) (w : ChatServer)
    (found : StringMap.find name w.rooms ≡ some room) where
  depart-before :
      (j : String) (r : ChatRoom)
      → StringMap.find j (depart name s room w).rooms ≡ some r
      → (q : ChatRoom) × (StringMap.find j w.rooms ≡ some q)
        × (r.name ≡ q.name)
        × ((i : ℕ)
            → contains i r.participants ≡ true
            → (contains i q.participants ≡ true) × ((j ≡ name) → s ≢ i))
  depart-before j r e = elim (Bool-cases (str_eq name j)) [
    | inl same ↦ (
      room,
      ground (arith, eq_iff name j),
      ground (arith, depart-rooms name s room w j, leave-room s room w.objects),
      λ i h. (
        ground (
          arith,
          depart-rooms name s room w j,
          leave-room s room w.objects,
          contains-erase s i room.participants,
        ),
        λ _ same_session. ground (
          arith,
          depart-rooms name s room w j,
          leave-room s room w.objects,
          contains-erase s i room.participants,
        ),
      ),
    )
    | inr other ↦ (
      r,
      ground (arith, depart-rooms name s room w j),
      refl,
      λ i h. (h, λ same. absurd (other_name other same)),
    )
  ]
    where
      other_name : str_eq name j ≡ false → j ≡ name → ⊥
      other_name p q = ground (arith, eq_iff name j)

  pub depart-IsConsistent : IsConsistent w → IsConsistent (depart name s room w)
  depart-IsConsistent c = record {
    filed = λ j r e. let (q, was, named, sub) = depart-before j r e in named ∙ c.filed j q was;
    current = λ j r i e h.
        let (q, was, named, sub) = depart-before j r e in
        depart-current_room name s room w i
        ∙ ground (arith, sub i h, c.current j q i was, c.current name room i found);
    no_unnamed =
        depart-rooms name s room w ""
        ∙ rw (str_eq-ne name "" (λ e. cc (c.no_unnamed, found, e))) c.no_unnamed;
  }

  pub depart-Nowhere :
      IsConsistent w
      → (w.objects s).current_room ≡ name
      → (j : String) (r : ChatRoom) → StringMap.find j (depart name s room w).rooms ≡ some r
      → contains s r.participants ≡ true
      → ⊥
  depart-Nowhere c here j r e h =
      let (q, was, named, sub) = depart-before j r e in
      (sub s h).1 (sym (c.current j q s was (sub s h).0) ∙ here) refl
