-- ===== src/P2p/MessageRouter.antt =====
-- include/VeritasSync/p2p/MessageRouter.h and src/p2p/MessageRouter.cpp: which handler a message goes
-- to. A handler is a value of any type; the call is returned.
use veritas_sync.Base.{
  ◌≡◌, refl, inl, inr, Bool, not, ◌&&◌, Option, none, some, Str, ◌==◌, str_key, nat_key,
  if◌then◌else◌, Bool-cases,
}
use veritas_sync.Base.Map.{Map, find, insert_or_assign, find-insert_or_assign}

pub record Route {ℓ} (Handler : Type ℓ) : Type ℓ where
  pub handler : Handler
  pub receive_only : Bool

module _ {ℓ} {Handler : Type ℓ} where
  unfoldable pub register_handler :
      Str → Handler → Bool → Map Str (Route Handler) → Map Str (Route Handler)
  register_handler msg_type handler receive_only routes =
      insert_or_assign msg_type (record { handler = handler; receive_only = receive_only }) routes

  -- The handler that is called; none where the source returns false.
  unfoldable pub dispatch : Str → Bool → Map Str (Route Handler) → Option Handler
  dispatch msg_type can_receive routes = elim (find msg_type routes) [
    | none ↦ none
    | some route ↦ if route.receive_only && not can_receive then none else some route.handler
  ]

  -- A message goes to the handler registered last for its type, unless that is only for peers that
  -- receive and this one does not; a registration for another type changes nothing for it.
  pub dispatch-register_handler :
      (msg_type other : Str) (handler : Handler) (receive_only can_receive : Bool)
      (routes : Map Str (Route Handler))
      → dispatch msg_type can_receive (register_handler other handler receive_only routes) ≡ (
          if other == msg_type
          then (if receive_only && not can_receive then none else some handler)
          else dispatch msg_type can_receive routes)
  unfolding dispatch register_handler
  dispatch-register_handler msg_type other handler receive_only can_receive routes =
      elim (Bool-cases (other == msg_type)) [
        | inl h ↦
            rw
              (
                find-insert_or_assign msg_type other
                    (record { handler = handler; receive_only = receive_only }) routes,
                h,
                dispatch,
              )
              refl
        | inr h ↦
            rw
              (
                find-insert_or_assign msg_type other
                    (record { handler = handler; receive_only = receive_only }) routes,
                h,
                dispatch,
              )
              refl
      ]
