-- ===== src/P2p/PeerController/Roles.antt =====
-- Which side makes the offer, and the number of the KCP conversation.
use veritas_sync.Base.{
  ℕ, ◌%◌, ◌^◌, ◌<◌, ◌≡◌, refl, ap, ◌∙◌, ◌≢◌, inl, inr, true, false, not, [], ◌∷◌, ◌++◌, arith, Str,
  str_key, nat_key, if◌then◌else◌, Bool-cases,
}
use veritas_sync.P2p.PeerController.{Peer, str_lt, is_offer_side, calculate_conv}

str_lt_asymm : (a b : Str) → str_lt a b ≡ true → str_lt b a ≡ false
unfolding str_lt
str_lt_asymm a [] h = cc
str_lt_asymm [] (y ∷ b) h = refl
str_lt_asymm (x ∷ a) (y ∷ b) h = ground (arith, str_lt_asymm a b)

str_lt_total : (a b : Str) → str_lt a b ≡ false → str_lt b a ≡ false → a ≡ b
unfolding str_lt
str_lt_total [] [] h k = refl
str_lt_total (x ∷ a) [] h k = cc
str_lt_total [] (y ∷ b) h k = cc
str_lt_total (x ∷ a) (y ∷ b) h k = ground (arith, str_lt_total a b)

abbrev conv_text : Str → Str → Str
conv_text a b = if str_lt a b then a ++ b else b ++ a

conv_text_comm : (a b : Str) → conv_text a b ≡ conv_text b a
conv_text_comm a b = elim (Bool-cases (str_lt a b)) [
  | inl h ↦ rw (h, str_lt_asymm a b h)
  | inr h ↦ elim (Bool-cases (str_lt b a)) [
    | inl k ↦ rw (h, k)
    | inr k ↦ rw (str_lt_total a b h k) refl
  ]
]

one_offers : (a b : Str) → a ≢ b → str_lt a b ≡ not (str_lt b a)
one_offers a b n = elim (Bool-cases (str_lt a b)) [
  | inl h ↦ rw (h, str_lt_asymm a b h)
  | inr h ↦ elim (Bool-cases (str_lt b a)) [
    | inl k ↦ rw (h, k)
    | inr k ↦ absurd (n (str_lt_total a b h k))
  ]
]

-- Two controllers for one connection, one on each side.
abbrev pub AreEnds : Peer → Peer → Type 0
AreEnds p q = (p.self_id ≡ q.peer_id) × (p.peer_id ≡ q.self_id)

-- Of the two ends of a connection between different devices exactly one makes the offer.
pub one_end_offers :
    (p q : Peer) → AreEnds p q → p.self_id ≢ p.peer_id → is_offer_side p ≡ not (is_offer_side q)
unfolding is_offer_side str_lt
one_end_offers p q (e, f) n = one_offers p.self_id p.peer_id n ∙ rw (e, f)

-- Of the two ends of a connection between different devices exactly one makes the offer, and both
-- ends compute the same conversation number, below 2^32, if the `std::hash` of one end's program
-- and that of the other's give the same number for every text, whatever that number is.
pub ends_agree :
    (near_hash far_hash : Str → ℕ) (p q : Peer)
    → AreEnds p q
    → p.self_id ≢ p.peer_id
    → ((text : Str) → near_hash text ≡ far_hash text)
    → (is_offer_side p ≡ not (is_offer_side q))
      × (calculate_conv near_hash p ≡ calculate_conv far_hash q)
      × (calculate_conv near_hash p < 2 ^ 32)
unfolding calculate_conv
ends_agree near_hash far_hash p q (e, f) n same = (
  one_end_offers p q (e, f) n,
  ap (λ t. near_hash t % 2 ^ 32) (conv_text_comm p.self_id p.peer_id ∙ rw (e, f))
      ∙ ap (λ k. k % 2 ^ 32) (same (conv_text q.self_id q.peer_id)),
  omega arith,
)
