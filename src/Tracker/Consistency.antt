-- ===== src/Tracker/Consistency.antt =====
-- When the directory of peers and the rooms agree.
use veritas_sync.Base.{
  ℕ, ◌≡◌, refl, sym, ap, ◌∙◌, ◌≢◌, ◌↔◌, ◌⊎◌, inl, inr, true, false, [], some, arith, Str, str_key,
  nat_key, str_eq, str_eq_iff, Bool-cases, In,
}
use veritas_sync.Base.Map.{find}
use veritas_sync.Tracker.State.{Session, Tracker, get_id, group_of}
use veritas_sync.Tracker.TrackerServer.{join, leave}
use veritas_sync.Tracker.Rooms.{
  In-set_erase, group_of-leave, find-leave, leave-sessions, leave_unregistered,
}
use native.Mathlib.Decide.{ℕ_discrete}
use mathlib.Core.Option.{some-injective}
use veritas_sync.Tracker.Joining.{join_effect}

abbrev pub key_of : Tracker → ℕ → Str
key_of t s = (t.sessions s).sync_key

-- Whoever an id leads to has this id and is in the room of its key; whoever is in a room has the
-- room's key, which is not empty.
pub record Consistent (t : Tracker) : Type 0 where
  pub listed :
      (id : Str) (s : ℕ)
      → find id t.peers_by_id ≡ some s
      → (id ≡ get_id t s) × In s (group_of (key_of t s) t.peer_groups)
  pub housed :
      (key : Str) (s : ℕ) → In s (group_of key t.peer_groups) → (key ≡ key_of t s) × (key ≢ [])

-- The server does not refer to the session.
pub record Unknown (t : Tracker) (s : ℕ) : Type 0 where
  pub unlisted : (id : Str) → find id t.peers_by_id ≢ some s
  pub homeless : (key : Str) → ¬ In s (group_of key t.peer_groups)

-- A session that has no key yet is not referred to.
pub Consistent-Unknown : (t : Tracker) (s : ℕ) → Consistent t → key_of t s ≡ [] → Unknown t s
Consistent-Unknown t s c e = record {
  unlisted = λ id h. let (_, i) = c.listed id s h in let (_, n) = c.housed _ s i in n e;
  homeless = λ key i. let (k, n) = c.housed key s i in n (k ∙ e);
}

-- Consistency looks at the ids and keys of the sessions that are referred to.
pub Consistent-sessions :
    (t : Tracker) (heap : ℕ → Session)
    → ((s : ℕ) → Unknown t s ⊎ ((heap s).id ≡ get_id t s) × ((heap s).sync_key ≡ key_of t s))
    → Consistent t
    → Consistent (record t { sessions = heap })
Consistent-sessions t heap same c = record {
  listed = λ id s h. elim (same s) [
    | inl u ↦ absurd (u.unlisted id h)
    | inr (i, k) ↦ let (e, m) = c.listed id s h in (e ∙ sym i, rw k m)
  ];
  housed = λ key s m. elim (same s) [
    | inl u ↦ absurd (u.homeless key m)
    | inr (i, k) ↦ let (e, n) = c.housed key s m in (e ∙ sym k, n)
  ];
}

str_eq_self : (a b : Str) → a ≡ b → str_eq a b ≡ true
str_eq_self a b e = (str_eq_iff a b).1 e

Str-cases : (a b : Str) → (a ≡ b) ⊎ (a ≢ b)
Str-cases a b = elim (Bool-cases (str_eq a b)) [
  | inl e ↦ inl ((str_eq_iff a b).0 e)
  | inr e ↦ inr (λ q. ground (arith, str_eq_iff a b))
]

-- Other entries of the directory survive a session that joins.
join_listed_other :
    (t : Tracker) (s : ℕ) (key id : Str) (x : ℕ)
    → Unknown t s
    → Consistent t
    → get_id t s ≢ id
    → find id t.peers_by_id ≡ some x
    → (id ≡ get_id t x) × In x (group_of (key_of t x) (join t s key).peer_groups)
join_listed_other t s key id x u c differ h =
    let (_, _, _, rooms, _) = join_effect t s key in
    let (i, m) = c.listed id x h in
    (
      i,
      (rooms (key_of t x) x (λ q. u.unlisted id (h ∙ ap some q))).1
          (m, λ (_, q). differ ((c.listed (get_id t s) x q).0 ∙ sym i)),
    )

pub Consistent-join :
    (t : Tracker) (s : ℕ) (key : Str)
    → Unknown t s
    → key_of t s ≡ key
    → key ≢ []
    → Consistent t
    → Consistent (join t s key)
Consistent-join t s key u e n c =
    let (by_id, own, elsewhere, rooms, same) = join_effect t s key in
    record {
      listed = λ id x h. rw same (elim (Str-cases (get_id t s) id) [
        | inl q ↦
            let p : s ≡ x = some-injective _ _ (sym (by_id id ∙ rw (str_eq_self _ _ q)) ∙ h) in
            rw (← p, e) (sym q, own)
        | inr q ↦ join_listed_other t s key id x u c q (sym (by_id id ∙ rw (ne_test _ _ q)) ∙ h)
      ]);
      housed = λ k x m. rw same (elim (ℕ_discrete x s) [
        | yes p ↦ elim (Str-cases k key) [
          | inl q ↦ (q ∙ sym e ∙ ap (key_of t) (sym p), λ z. n (sym q ∙ z))
          | inr q ↦ absurd (u.homeless k ((elsewhere k q).0 (rw p at m)))
        ]
        | no d ↦ c.housed k x ((rooms k x d).0 m).0
      ]);
    }
  where
    ne_test : (a b : Str) → a ≢ b → str_eq a b ≡ false
    ne_test a b d = ground (arith, str_eq_iff a b)

pub In-group-leave :
    (t : Tracker) (s : ℕ) (k : Str) (x : ℕ)
    → key_of t s ≢ []
    → In x (group_of k (leave t s).peer_groups)
      ↔ (In x (group_of k t.peer_groups) × ¬ ((x ≡ s) × (k ≡ key_of t s)))
In-group-leave t s k x n = rw (group_of-leave t s k n) (elim (Bool-cases (str_eq (key_of t s) k)) [
  | inl e ↦ rw e (
    λ m. let (i, d) = (In-set_erase x s _).0 m in (i, λ (p, _). d p),
    λ (i, d). (In-set_erase x s _).1 (i, λ p. d (p, sym ((str_eq_iff (key_of t s) k).0 e))),
  )
  | inr e ↦
      rw e (λ m. (m, λ (_, q). absurd (ground (arith, str_eq_iff (key_of t s) k))), λ (i, _). i)
])

find-leave-some :
    (t : Tracker) (s : ℕ) (id : Str) (x : ℕ)
    → key_of t s ≢ []
    → find id (leave t s).peers_by_id ≡ some x
    → (get_id t s ≢ id) × (find id t.peers_by_id ≡ some x)
find-leave-some t s id x n h = (
  λ q. ground (arith, find-leave t s id n, str_eq_iff (get_id t s) id),
  ground (arith, find-leave t s id n),
)

Consistent-leave_registered :
    (t : Tracker) (s : ℕ) → key_of t s ≢ [] → Consistent t → Consistent (leave t s)
Consistent-leave_registered t s n c = record {
  listed = λ id x h. rw (leave-sessions t s) (
      let (d, q) = find-leave-some t s id x n h in
      let (i, m) = c.listed id x q in
      (
        i,
        (In-group-leave t s (key_of t x) x n).1 (m, λ (p, _). d (ap (get_id t) (sym p) ∙ sym i)),
      ));
  housed = λ k x m. rw (leave-sessions t s) (c.housed k x ((In-group-leave t s k x n).0 m).0);
}

pub Consistent-leave : (t : Tracker) (s : ℕ) → Consistent t → Consistent (leave t s)
Consistent-leave t s c = elim (Str-cases (key_of t s) []) [
  | inl e ↦ rw (leave_unregistered t s e) c
  | inr n ↦ Consistent-leave_registered t s n c
]

pub leave-Unknown : (t : Tracker) (s : ℕ) → Consistent t → Unknown (leave t s) s
leave-Unknown t s c = elim (Str-cases (key_of t s) []) [
  | inl e ↦ rw (leave_unregistered t s e) (Consistent-Unknown t s c e)
  | inr n ↦ record {
    unlisted = λ id h. let (d, q) = find-leave-some t s id s n h in d (sym (c.listed id s q).0);
    homeless = λ k m. let (i, d) = (In-group-leave t s k s n).0 m in d (refl, (c.housed k s i).0);
  }
]
